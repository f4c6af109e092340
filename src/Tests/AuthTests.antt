-- ===== src/Tests/AuthTests.antt =====
-- An account whose access token is dead, with servers that renew it and one that refuses.
use py_mammotion.Base.{◌≡◌, refl, none, some, List, [], ◌∷◌, string_keys, arith, String}
use py_mammotion.Auth.{
  relogin_required, oauth2_rejected, Error, other_error, disconnected, unauthorized, Reason,
  LoginResponseData, claims, MqttConnection, MqttCredentials, Gateway, TokenResponse, CodeResponse,
  body, JwtResponse, Reply, answered, raised, Request, oauth2_token, authorization_code, mqtt_jwt,
  World, Manager, Outcome, failed, exception_text, is_transient_network_error,
}
use py_mammotion.Auth.Tokens.{refresh_mqtt, mqtt_valid}
use py_mammotion.Auth.Tokens.Scope.{
  Op, http_renewal, invoke_renewal, mqtt_wanted, aliyun_wanted, run,
}
use py_mammotion.Auth.Tokens.Silent.{run-halted}
use py_mammotion.Auth.Tokens.Health.{Signed, Accepts}
use py_mammotion.Auth.Tokens.Outage.{run-Signed}
use py_mammotion.Auth.Tokens.Burst.{Answers, renew_all, requests-renew_all}
use py_mammotion.Auth.Tokens.Unmarked.{refresh_mqtt-unmarked}
use py_mammotion.Auth.Scheduler.{scheduler_pass, stopped}
use py_mammotion.Auth.Scheduler.Passes.{Rests, scheduler_pass-Rests}

abbrev login_of : String → LoginResponseData
login_of token = record { access_token = token; refresh_token = "r"; expires_in = 7200 }

abbrev broker : MqttConnection
broker = record { host = "h"; client_id = "c"; username = "u"; jwt = "j" }

-- The refresh token is good, a new access token is "new"; the Aliyun session cannot be had.
abbrev good : World
good = record {
  on_oauth2_token = λ q. answered (record { code = 0; content = some (login_of "new") });
  on_authorization_code = λ q. answered (record { code = 0; access_token = none });
  on_mqtt_jwt = λ q. answered (body (some broker));
  on_session_refresh = λ q. raised other_error;
  on_session_rebuild = λ q. raised other_error;
  jwt_decode = λ jwt. claims none;
}

-- The refresh token is rejected with code 40102.
abbrev bad : World
bad = record good { on_oauth2_token = λ q. answered (record { code = 40102; content = none }) }

-- The server of the login cannot be reached, and no JWT is given out.
abbrev away : World
away = record good {
  on_oauth2_token = λ q. raised disconnected;
  on_mqtt_jwt = λ q. answered (body none);
}

abbrev account : Manager
account = record {
  login_info = some (login_of "old");
  expires_in = 1000;
  mqtt_credentials = none;
  cloud_gateway = some (record { session_data = none; iot_token_issued_at = 0 });
  http_creds = none;
  aliyun_creds = none;
  mqtt_creds = none;
  reauth_required = none;
  aliyun_unavailable = none;
  mqtt_unavailable = none;
  bind_token = none;
  requests = [];
}

abbrev dead : Manager
dead = record account { reauth_required = some (oauth2_rejected 40102) }

abbrev all_operations : List Op
all_operations =
    http_renewal 900 ∷ invoke_renewal 900 (some "old") ∷ mqtt_wanted 900 ∷ aliyun_wanted 900 ∷ []

run-halted_example : run good all_operations dead ≡ dead
run-halted_example = run-halted good all_operations dead (refl, (refl, (refl, (refl, tt))))

away-Accepts : Accepts away
unfolding is_transient_network_error
away-Accepts = record { token = λ q. refl; code = λ q e. absurd (cc e) }

run-Signed_example : Signed (run away all_operations account)
run-Signed_example = run-Signed away away-Accepts all_operations account (refl, refl)

good-Answers : Answers good "old" []
good-Answers = record {
  login = login_of "new";
  token = refl;
  exp = none;
  readable = refl;
  moved = λ e. absurd (ground (arith, e, string_keys.same_iff "new" "old"));
  kept = λ r e x. absurd (ground (arith, e, x));
}

requests-renew_all_example :
    (renew_all good "old" (900 ∷ 901 ∷ 902 ∷ []) account).requests
    ≡ authorization_code ∷ oauth2_token ∷ []
requests-renew_all_example =
    requests-renew_all good "old" 900 (901 ∷ 902 ∷ []) account (login_of "old") refl refl refl
      good-Answers

-- Credentials that last until 5000 are handed out at 900 without a request.
abbrev holding : Manager
holding = record account {
  mqtt_creds =
      some (record { host = "h"; client_id = "c"; username = "u"; jwt = "i"; expires_at = 5000 });
}

refresh_mqtt-unmarked_example :
    refresh_mqtt bad 900 account
    ≡ failed
        (relogin_required (oauth2_rejected 40102))
        (record account { requests = oauth2_token ∷ [] })
refresh_mqtt-unmarked_example =
    refresh_mqtt-unmarked bad 900 40102 account (login_of "old") refl (omega arith) (omega arith)
      refl refl refl

scheduler_pass-Rests_example : Rests good 901 (scheduler_pass good 900 901 account)
scheduler_pass-Rests_example = scheduler_pass-Rests good 900 901 account

-- A pass on which the server rejects the refresh token.
stops_on_rejection :
    scheduler_pass bad 900 901 account ≡ stopped (record dead { requests = oauth2_token ∷ [] })
unfolding scheduler_pass py_mammotion.Auth.Tokens.refresh_http
    py_mammotion.Auth.Login.refresh_token_v2
stops_on_rejection = refl
