-- ===== src/Auth/Login.antt =====
-- pymammotion/http/http.py, the token session of `MammotionHTTP`: the exchange of a refresh token,
-- `ensure_token_valid`, and the two calls that TokenManager makes with the access token.
use py_mammotion.Base.{
  maybe, ℕ, zero, suc, ◌+◌, Bool, true, false, Option, none, some, ◌∷◌, if◌then◌else◌, leb, eqb,
}
use py_mammotion.Auth.{
  Error, timed_out, client_error, other_error, Decoded, undecodable, claims, relogin_required,
  auth_error, oauth2_rejected, no_login_session, LoginResponseData, MqttConnection, TokenResponse,
  CodeResponse, JwtResponse, no_body, body, Reply, answered, raised, oauth2_token,
  authorization_code, mqtt_jwt, World, Manager, Outcome, done, failed, bind, handle,
}

-- The listener that TokenManager installs, `_on_http_login_refreshed`.
unfoldable pub on_http_login_refreshed : Manager → Manager
unfolding maybe
on_http_login_refreshed m = maybe m.login_info m (λ login. record m {
  http_creds = some (record {
    access_token = login.access_token;
    refresh_token = login.refresh_token;
    expires_at = m.expires_in;
  });
})

-- `self.response = refresh_response`, with what `jwt.decode` makes of the access token; `jwt_info` is
-- read by no operation here.
unfoldable pub set_response : Decoded → Manager → Outcome Unit
unfolding maybe
set_response undecodable m = failed other_error m
set_response (claims exp) m = done tt (record m { expires_in = maybe exp 0 (λ t. t) })

unfoldable pub logged_in :
    World → ℕ → TokenResponse → LoginResponseData → Manager → Outcome TokenResponse
unfolding set_response on_http_login_refreshed bind
logged_in w now response login m =
    bind
      (set_response (w.jwt_decode login.access_token)
        (record m { login_info = some login; expires_in = login.expires_in + now }))
      (λ u m'. done response (on_http_login_refreshed m'))

unfoldable pub exchanged : World → ℕ → TokenResponse → Manager → Outcome TokenResponse
unfolding logged_in maybe
exchanged w now response m =
    maybe response.content (done response m) (λ login. logged_in w now response login m)

unfoldable pub token_reply : World → ℕ → Reply TokenResponse → Manager → Outcome TokenResponse
unfolding exchanged
token_reply w now (raised e) m = failed e m
token_reply w now (answered response) m = exchanged w now response m

unfoldable pub refresh_token_v2 : World → ℕ → Manager → Outcome TokenResponse
unfolding token_reply maybe
refresh_token_v2 w now m = maybe m.login_info (failed auth_error m) (λ login.
    token_reply w now (w.on_oauth2_token m.requests)
      (record m { requests = oauth2_token ∷ m.requests }))

unfoldable pub check_code : TokenResponse → Manager → Outcome Unit
check_code response m =
    if eqb response.code 0
    then done tt m
    else failed (relogin_required (oauth2_rejected response.code)) m

unfoldable pub ensure_token_valid : World → ℕ → Manager → Outcome Unit
unfolding refresh_token_v2 check_code bind maybe
ensure_token_valid w now m =
    if leb (now + 300) m.expires_in
    then done tt m
    else maybe m.login_info (failed (relogin_required no_login_session) m)
        (λ login. bind (refresh_token_v2 w now m) check_code)

unfoldable pub authorized : CodeResponse → LoginResponseData → Manager → Manager
unfolding maybe
authorized response login m = maybe response.access_token m (λ token.
    if eqb response.code 0
    then record m { login_info = some (record login { access_token = token }) }
    else m)

unfoldable pub code_reply : Reply CodeResponse → LoginResponseData → Manager → Outcome Unit
unfolding authorized
code_reply (raised e) login m = failed e m
code_reply (answered response) login m = done tt (authorized response login m)

unfoldable pub fetch_authorization_token : World → Manager → Outcome Unit
unfolding code_reply maybe
fetch_authorization_token w m = maybe m.login_info (failed auth_error m) (λ login.
    code_reply (w.on_authorization_code m.requests) login
      (record m { requests = authorization_code ∷ m.requests }))

unfoldable pub jwt_reply : Reply JwtResponse → Manager → Outcome (Option MqttConnection)
jwt_reply (raised e) m = failed e m
jwt_reply (answered no_body) m = done none m
jwt_reply (answered (body connection)) m =
    done connection (record m { mqtt_credentials = connection })

-- `get_mqtt_credentials` inside its two decorators: the check of the token, then the request.
unfoldable pub fetch_mqtt_credentials : World → ℕ → Manager → Outcome (Option MqttConnection)
unfolding ensure_token_valid jwt_reply maybe
fetch_mqtt_credentials w now m = bind (ensure_token_valid w now m) (λ u m'.
    maybe m'.login_info (failed auth_error m') (λ login.
      jwt_reply (w.on_mqtt_jwt m'.requests) (record m' { requests = mqtt_jwt ∷ m'.requests })))

-- What `retry_on_network_error` tries again: TimeoutError and ClientError.
unfoldable pub is_retried : Error → Bool
is_retried timed_out = true
is_retried client_error = true
is_retried e = false

unfoldable pub retry_on_network_error :
    {A : Type 0} → ℕ → (Manager → Outcome A) → Manager → Outcome A
unfolding is_retried handle
retry_on_network_error zero func m = func m
retry_on_network_error (suc more) func m = handle (func m) (λ e m'.
    let again = retry_on_network_error more func m' in if is_retried e then again else failed e m')

unfoldable pub get_mqtt_credentials : World → ℕ → Manager → Outcome (Option MqttConnection)
unfolding fetch_mqtt_credentials retry_on_network_error
get_mqtt_credentials w now m = retry_on_network_error 2 (fetch_mqtt_credentials w now) m
