-- ===== src/Auth/Tokens.antt =====
-- pymammotion/auth/token_manager.py, `TokenManager`: the terminal flags, the refresh of each kind of
-- credential, and the getters.
pub mod Writes
pub mod Refreshes
pub mod Scope
pub mod Silent
pub mod Health
pub mod Outage
pub mod Burst
pub mod Fresh
pub mod Unmarked
use py_mammotion.Base.{
  maybe, ℕ, ◌+◌, String, Bool, true, false, Option, none, some, List, ◌∷◌, if◌then◌else◌, leb, ltb,
  eqb, ◌==◌, string_keys, not,
}
use py_mammotion.Auth.{
  Error, relogin_required, unauthorized, session_expired, auth_error, no_gateway_configured,
  timed_out, disconnected, client_error, login_exception, other_error, Reason, oauth2_rejected,
  http_refresh_rejected, no_cloud_gateway, no_mqtt_data, no_session_data, no_login_session,
  no_credentials_after_refresh, rebuild_failed, exception_text, is_transient_network_error,
  HttpCredentials, AliyunCredentials, MqttConnection, MqttCredentials, SessionData, Gateway,
  TokenResponse, Decoded, undecodable, claims, Reply, answered, raised, session_refresh,
  session_rebuild, World, Manager, Outcome, done, failed, bind, handle,
}
use py_mammotion.Auth.Login.{refresh_token_v2, fetch_authorization_token, get_mqtt_credentials}

unfoldable pub raise_if_reauth_required : Manager → Outcome Unit
unfolding maybe
raise_if_reauth_required m =
    maybe m.reauth_required (done tt m) (λ reason. failed (relogin_required reason) m)

unfoldable pub first : Option Reason → Reason → Option Reason
first none reason = some reason
first (some held) reason = some held

unfoldable pub mark_reauth_required : {A : Type 0} → Reason → Reason → Manager → Outcome A
unfolding first
mark_reauth_required marked told m =
    failed (relogin_required told) (record m { reauth_required = first m.reauth_required marked })

unfoldable pub mark_aliyun_unavailable : {A : Type 0} → Reason → Manager → Outcome A
unfolding first
mark_aliyun_unavailable reason m =
    failed (relogin_required reason)
      (record m { aliyun_unavailable = first m.aliyun_unavailable reason })

unfoldable pub mark_mqtt_unavailable : {A : Type 0} → Reason → Manager → Outcome A
unfolding first
mark_mqtt_unavailable reason m =
    failed (relogin_required reason)
      (record m { mqtt_unavailable = first m.mqtt_unavailable reason })

-- `refresh_http`: what it does with the response, and its `except` clauses.
unfoldable pub adopt_http : ℕ → TokenResponse → Manager → Outcome Unit
unfolding mark_reauth_required maybe
adopt_http now response m =
    maybe response.content
      (mark_reauth_required (oauth2_rejected response.code) (oauth2_rejected response.code) m)
      (λ login.
        if eqb response.code 0
        then done tt (record m {
          http_creds = some (record {
            access_token = login.access_token;
            refresh_token = login.refresh_token;
            expires_at = now + login.expires_in;
          });
        })
        else mark_reauth_required (oauth2_rejected response.code) (oauth2_rejected response.code) m)

unfoldable pub http_failed : Error → Manager → Outcome Unit
unfolding mark_reauth_required
http_failed (relogin_required reason) m = mark_reauth_required http_refresh_rejected reason m
http_failed e m =
    if is_transient_network_error e
    then failed e m
    else mark_reauth_required exception_text exception_text m

unfoldable pub refresh_http : World → ℕ → Manager → Outcome Unit
unfolding raise_if_reauth_required bind handle adopt_http http_failed
refresh_http w now m =
    bind (raise_if_reauth_required m)
      (λ u m'. handle (bind (refresh_token_v2 w now m') (adopt_http now)) http_failed)

-- `_set_mqtt_creds` with `_jwt_expiry`.
unfoldable pub expiry_of : ℕ → Decoded → ℕ
unfolding maybe
expiry_of now undecodable = now + 86400
expiry_of now (claims exp) = maybe exp (now + 86400) (λ t. t)

unfoldable pub jwt_expiry : World → ℕ → String → ℕ
unfolding expiry_of
jwt_expiry w now jwt = expiry_of now (w.jwt_decode jwt)

unfoldable pub set_mqtt_creds : World → ℕ → MqttConnection → Manager → Outcome MqttCredentials
unfolding jwt_expiry
set_mqtt_creds w now c m =
    let creds : MqttCredentials = record {
      host = c.host;
      client_id = c.client_id;
      username = c.username;
      jwt = c.jwt;
      expires_at = jwt_expiry w now c.jwt;
    } in
    done creds (record m { mqtt_creds = some creds })

-- `_refresh_mqtt`: the second response, the retry that leads to it, and the first response.
unfoldable pub second_jwt : World → ℕ → Option MqttConnection → Manager → Outcome MqttCredentials
unfolding set_mqtt_creds mark_mqtt_unavailable
second_jwt w now none m = mark_mqtt_unavailable no_mqtt_data m
second_jwt w now (some c) m = set_mqtt_creds w now c m

unfoldable pub retry_jwt : World → ℕ → Manager → Outcome MqttCredentials
unfolding bind second_jwt
retry_jwt w now m = bind (refresh_http w now m) (λ u m1.
    bind (fetch_authorization_token w m1)
      (λ u' m2. bind (get_mqtt_credentials w now m2) (second_jwt w now)))

unfoldable pub first_jwt : World → ℕ → Option MqttConnection → Manager → Outcome MqttCredentials
unfolding set_mqtt_creds retry_jwt
first_jwt w now none m = retry_jwt w now m
first_jwt w now (some c) m = set_mqtt_creds w now c m

unfoldable pub mqtt_failed : Error → Manager → Outcome MqttCredentials
unfolding mark_mqtt_unavailable
mqtt_failed (relogin_required reason) m = failed (relogin_required reason) m
mqtt_failed e m =
    if is_transient_network_error e then failed e m else mark_mqtt_unavailable exception_text m

unfoldable pub raise_if_unavailable : Option Reason → Manager → Outcome Unit
raise_if_unavailable none m = done tt m
raise_if_unavailable (some reason) m = failed (relogin_required reason) m

unfoldable pub refresh_mqtt : World → ℕ → Manager → Outcome MqttCredentials
unfolding raise_if_reauth_required raise_if_unavailable bind handle first_jwt mqtt_failed
refresh_mqtt w now m = bind (raise_if_reauth_required m) (λ u m1.
    bind (raise_if_unavailable m1.mqtt_unavailable m1)
      (λ u' m2. handle (bind (get_mqtt_credentials w now m2) (first_jwt w now)) mqtt_failed))

-- `connect_iot`, and its failure inside `_refresh_aliyun`.
unfoldable pub gateway_reply : Reply Gateway → Manager → Outcome Unit
gateway_reply (raised e) m = failed e m
gateway_reply (answered gateway) m = done tt (record m { cloud_gateway = some gateway })

unfoldable pub connect_iot : World → Manager → Outcome Unit
unfolding gateway_reply maybe
connect_iot w m = maybe m.cloud_gateway (failed (relogin_required no_cloud_gateway) m) (λ gateway.
    maybe m.login_info (failed (relogin_required no_login_session) m) (λ login.
      gateway_reply (w.on_session_rebuild m.requests)
        (record m { requests = session_rebuild ∷ m.requests })))

unfoldable pub rebuild_failure : Error → Manager → Outcome Unit
unfolding mark_aliyun_unavailable
rebuild_failure e m =
    if is_transient_network_error e then failed e m else mark_aliyun_unavailable rebuild_failed m

unfoldable pub session_failed : World → Error → Manager → Outcome Unit
unfolding connect_iot rebuild_failure handle
session_failed w session_expired m = handle (connect_iot w m) rebuild_failure
session_failed w e m = failed e m

unfoldable pub check_or_refresh_session : World → Manager → Outcome Unit
unfolding gateway_reply
check_or_refresh_session w m =
    gateway_reply (w.on_session_refresh m.requests)
      (record m { requests = session_refresh ∷ m.requests })

unfoldable pub adopt_session : Option Gateway → Manager → Outcome Unit
unfolding maybe
adopt_session none m = failed other_error m
adopt_session (some gateway) m =
    maybe gateway.session_data (failed (relogin_required no_session_data) m) (λ session.
      done tt (record m {
        aliyun_creds = some (record {
          iot_token = session.iot_token;
          iot_token_expires_at = gateway.iot_token_issued_at + session.iot_token_expire;
          refresh_token = session.refresh_token;
          refresh_token_expires_at = gateway.iot_token_issued_at + session.refresh_token_expire;
        });
        bind_token = some session.iot_token;
      }))

unfoldable pub aliyun_failed : Error → Manager → Outcome Unit
unfolding mark_aliyun_unavailable
aliyun_failed (relogin_required reason) m = failed (relogin_required reason) m
aliyun_failed e m =
    if is_transient_network_error e then failed e m else mark_aliyun_unavailable exception_text m

unfoldable pub renew_session : World → Manager → Outcome Unit
unfolding check_or_refresh_session session_failed adopt_session bind handle
renew_session w m =
    bind (handle (check_or_refresh_session w m) (session_failed w))
      (λ u m'. adopt_session m'.cloud_gateway m')

unfoldable pub refresh_aliyun : World → Manager → Outcome Unit
unfolding raise_if_reauth_required raise_if_unavailable bind handle renew_session aliyun_failed
    maybe
refresh_aliyun w m =
    maybe m.cloud_gateway (failed (relogin_required no_cloud_gateway) m) (λ gateway.
      bind (raise_if_unavailable m.aliyun_unavailable m) (λ u m1.
        bind (raise_if_reauth_required m1) (λ u' m2. handle (renew_session w m2) aliyun_failed)))

-- `refresh_invoke_token`: whether another caller has renewed the token, and the `except` clauses.
unfoldable pub already_renewed : Option String → Manager → Bool
unfolding maybe
already_renewed none m = false
already_renewed (some stale_token) m =
    maybe m.login_info false (λ login. not (login.access_token == stale_token))

unfoldable pub invoke_failed : Error → Manager → Outcome Unit
unfolding mark_reauth_required
invoke_failed (relogin_required reason) m = failed (relogin_required reason) m
invoke_failed unauthorized m = mark_reauth_required exception_text exception_text m
invoke_failed e m = if is_transient_network_error e then failed e m else failed auth_error m

unfoldable pub renew_invoke_token : World → ℕ → Manager → Outcome Unit
unfolding bind handle invoke_failed
renew_invoke_token w now m =
    handle (bind (refresh_http w now m) (λ u m'. fetch_authorization_token w m')) invoke_failed

unfoldable pub refresh_invoke_token : World → ℕ → Option String → Manager → Outcome Unit
unfolding already_renewed renew_invoke_token
refresh_invoke_token w now stale_token m =
    if already_renewed stale_token m then done tt m else renew_invoke_token w now m

-- The getters. A state that is read twice with no `await` between is read once here.
unfoldable pub held_creds : {A : Type 0} → Option A → Manager → Outcome A
held_creds none m = failed (relogin_required no_credentials_after_refresh) m
held_creds (some creds) m = done creds m

unfoldable pub mqtt_valid : ℕ → Option MqttCredentials → Bool
mqtt_valid now none = false
mqtt_valid now (some creds) = leb (now + 1800) creds.expires_at

unfoldable pub aliyun_valid : ℕ → Option AliyunCredentials → Bool
aliyun_valid now none = false
aliyun_valid now (some creds) = leb (now + 3600) creds.iot_token_expires_at

unfoldable pub get_mammotion_mqtt_credentials : World → ℕ → Manager → Outcome MqttCredentials
unfolding held_creds mqtt_valid bind
get_mammotion_mqtt_credentials w now m =
    if mqtt_valid now m.mqtt_creds
    then held_creds m.mqtt_creds m
    else bind (refresh_mqtt w now m) (λ fetched m'. held_creds m'.mqtt_creds m')

unfoldable pub get_aliyun_credentials : World → ℕ → Manager → Outcome AliyunCredentials
unfolding held_creds aliyun_valid bind maybe
get_aliyun_credentials w now m = maybe m.cloud_gateway (failed no_gateway_configured m) (λ gateway.
    if aliyun_valid now m.aliyun_creds
    then held_creds m.aliyun_creds m
    else bind (refresh_aliyun w m) (λ u m'. held_creds m'.aliyun_creds m'))

-- `seed_from_http` and `initialize`.
unfoldable pub seed_mqtt : World → ℕ → Manager → Manager
unfolding set_mqtt_creds maybe
seed_mqtt w now m =
    maybe m.mqtt_creds
      (maybe m.mqtt_credentials (m)
        (λ c. elim (set_mqtt_creds w now c m) [ done creds m' ↦ m' | failed e m' ↦ m' ]))
      (λ held. m)

unfoldable pub seed_http : Manager → Manager
unfolding maybe
seed_http m =
    maybe m.http_creds
      (maybe m.login_info m (λ login. record m {
        http_creds = some (record {
          access_token = login.access_token;
          refresh_token = login.refresh_token;
          expires_at = m.expires_in;
        });
      }))
      (λ held. m)

unfoldable pub seed_from_http : World → ℕ → Manager → Manager
unfolding seed_mqtt seed_http
seed_from_http w now m = seed_mqtt w now (seed_http m)

unfoldable pub attach_cloud_gateway : Gateway → Manager → Manager
attach_cloud_gateway gateway m = record m { cloud_gateway = some gateway }
