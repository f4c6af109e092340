-- ===== src/Auth/Tokens/Writes.antt =====
-- The single writes of TokenManager and of its token session, and predicates that they keep; an
-- operation is taken apart into its writes.
use py_mammotion.Base.{
  maybe, ℕ, zero, suc, ◌+◌, String, Bool, true, false, Option, none, some, ◌∷◌, string_keys,
  if◌then◌else◌, leb, eqb, arith,
}
use py_mammotion.Auth.{
  Error, Reason, http_refresh_rejected, exception_text, LoginResponseData, HttpCredentials,
  AliyunCredentials, MqttConnection, MqttCredentials, Gateway, TokenResponse, CodeResponse,
  JwtResponse, no_body, body, Decoded, undecodable, claims, Reply, answered, raised, Request, World,
  Manager, authorization_code, mqtt_jwt, Outcome, done, failed, state, bind, handle,
  is_transient_network_error,
}
use py_mammotion.Auth.Login.{
  on_http_login_refreshed, set_response, logged_in, exchanged, token_reply, refresh_token_v2,
  check_code, ensure_token_valid, authorized, code_reply, fetch_authorization_token, jwt_reply,
  fetch_mqtt_credentials, is_retried, retry_on_network_error, get_mqtt_credentials,
}
use py_mammotion.Auth.Tokens.{
  raise_if_reauth_required, first, mark_reauth_required, adopt_http, http_failed, refresh_http,
  raise_if_unavailable, held_creds,
}

-- The writes of the token session and of `refresh_http`.
pub record HttpClosed (P : Manager → Type 0) : Type 0 where
  pub asked : (q : Request) (m : Manager) → P m → P (record m { requests = q ∷ m.requests })
  pub logged_in :
      (l : Option LoginResponseData) (t : ℕ) (c : Option HttpCredentials) (m : Manager)
      → P m
      → P (record m { login_info = l; expires_in = t; http_creds = c })
  pub given :
      (c : Option MqttConnection) (m : Manager) → P m → P (record m { mqtt_credentials = c })
  pub reauth :
      (r : Reason) (m : Manager)
      → P m
      → P (record m { reauth_required = first m.reauth_required r })

-- The writes of `_refresh_mqtt`.
pub record MqttClosed (P : Manager → Type 0) : Type 0 where
  pub renewed : (c : MqttCredentials) (m : Manager) → P m → P (record m { mqtt_creds = some c })
  pub given_up :
      (r : Reason) (m : Manager)
      → P m
      → P (record m { mqtt_unavailable = first m.mqtt_unavailable r })

-- The writes of `_refresh_aliyun`.
pub record AliyunClosed (P : Manager → Type 0) : Type 0 where
  pub asked : (q : Request) (m : Manager) → P m → P (record m { requests = q ∷ m.requests })
  pub connected : (g : Gateway) (m : Manager) → P m → P (record m { cloud_gateway = some g })
  pub renewed :
      (c : AliyunCredentials) (t : String) (m : Manager)
      → P m
      → P (record m { aliyun_creds = some c; bind_token = some t })
  pub given_up :
      (r : Reason) (m : Manager)
      → P m
      → P (record m { aliyun_unavailable = first m.aliyun_unavailable r })

module _ {A : Type 0} (P : Manager → Type 0) where
  pub state-bind :
      {B : Type 0} (o : Outcome A) (k : A → Manager → Outcome B)
      → P (state o)
      → ((a : A) (m : Manager) → P m → P (state (k a m)))
      → P (state (bind o k))
  unfolding bind state
  state-bind (done a m) k p f = f a m p
  state-bind (failed e m) k p f = p

  pub state-handle :
      (o : Outcome A) (h : Error → Manager → Outcome A)
      → P (state o)
      → ((e : Error) (m : Manager) → P m → P (state (h e m)))
      → P (state (handle o h))
  unfolding handle state
  state-handle (done a m) h p f = p
  state-handle (failed e m) h p f = f e m p

  pub state-maybe :
      {B : Type 0} (o : Option B) (absent : Outcome A) (present : B → Outcome A)
      → P (state absent)
      → ((b : B) → P (state (present b)))
      → P (state (maybe o absent present))
  unfolding maybe
  state-maybe none absent present p f = p
  state-maybe (some b) absent present p f = f b

  pub state-if :
      (b : Bool) (x y : Outcome A) → P (state x) → P (state y) → P (state (if b then x else y))
  state-if true x y p q = p
  state-if false x y p q = q

  pub state-done : (a : A) (m : Manager) → P m → P (state (done a m))
  unfolding state
  state-done a m p = p

  pub state-held_creds : (o : Option A) (m : Manager) → P m → P (state (held_creds o m))
  unfolding held_creds state
  state-held_creds none m p = p
  state-held_creds (some creds) m p = p

module _ {A : Type 0} (P : Manager → Type 0) (func : Manager → Outcome A)
    (keeps : (m : Manager) → P m → P (state (func m))) where
  pub state-retry_on_network_error :
      (more : ℕ) (m : Manager) → P m → P (state (retry_on_network_error more func m))
  unfolding retry_on_network_error state
  state-retry_on_network_error zero m p = keeps m p
  state-retry_on_network_error (suc more) m p = state-handle P (func m) _ (keeps m p) (λ e m' p'.
      state-if P (is_retried e) (retry_on_network_error more func m') (failed e m')
        (state-retry_on_network_error more m' p') p')

module _ (P : Manager → Type 0) where
  pub state-failed : (A : Type 0) (e : Error) (m : Manager) → P m → P (state {A = A} (failed e m))
  unfolding state
  state-failed A e m p = p

  pub state-raise_if_reauth_required : (m : Manager) → P m → P (state (raise_if_reauth_required m))
  unfolding raise_if_reauth_required state
  state-raise_if_reauth_required m p = state-maybe P m.reauth_required _ _ p (λ r. p)

  pub state-raise_if_unavailable :
      (o : Option Reason) (m : Manager) → P m → P (state (raise_if_unavailable o m))
  unfolding raise_if_unavailable state
  state-raise_if_unavailable none m p = p
  state-raise_if_unavailable (some r) m p = p

module _ (P : Manager → Type 0) (c : HttpClosed P) where
  state-set_response :
      (d : Decoded) (r : TokenResponse) (l : LoginResponseData) (t : ℕ) (m : Manager)
      → P m
      → P (
          state (
            bind
              (set_response d (record m { login_info = some l; expires_in = t }))
              (λ u m'. done r (on_http_login_refreshed m'))))
  unfolding set_response on_http_login_refreshed maybe state bind
  state-set_response undecodable r l t m p = c.logged_in (some l) t m.http_creds m p
  state-set_response (claims exp) r l t m p = c.logged_in (some l) _ _ m p

  pub state-exchanged :
      (w : World) (now : ℕ) (r : TokenResponse) (m : Manager)
      → P m
      → P (state (exchanged w now r m))
  unfolding exchanged logged_in state
  state-exchanged w now r m p =
      state-maybe P r.content _ _ p
        (λ login. state-set_response (w.jwt_decode login.access_token) r login _ m p)

  pub state-token_reply :
      (w : World) (now : ℕ) (r : Reply TokenResponse) (m : Manager)
      → P m
      → P (state (token_reply w now r m))
  unfolding token_reply state
  state-token_reply w now (raised e) m p = p
  state-token_reply w now (answered r) m p = state-exchanged w now r m p

  pub state-refresh_token_v2 :
      (w : World) (now : ℕ) (m : Manager) → P m → P (state (refresh_token_v2 w now m))
  unfolding refresh_token_v2 state
  state-refresh_token_v2 w now m p =
      state-maybe P m.login_info _ _ p (λ login. state-token_reply w now _ _ (c.asked _ m p))

  pub state-ensure_token_valid :
      (w : World) (now : ℕ) (m : Manager) → P m → P (state (ensure_token_valid w now m))
  unfolding ensure_token_valid check_code state
  state-ensure_token_valid w now m p = state-if P (leb (now + 300) m.expires_in) _ _ p (
      state-maybe P m.login_info _ _ p (λ login.
        state-bind P (refresh_token_v2 w now m) check_code (state-refresh_token_v2 w now m p)
          (λ r m' p'. state-if P (eqb r.code 0) _ _ p' p')))

  pub state-code_reply :
      (r : Reply CodeResponse) (l : LoginResponseData) (m : Manager)
      → P m
      → P (state (code_reply r l m))
  unfolding code_reply authorized maybe state
  state-code_reply (raised e) l m p = p
  state-code_reply (answered r) l m p = go r.access_token (eqb r.code 0)
    where
      go :
          (o : Option String) (b : Bool)
          → P (
              maybe o m (λ token.
                if b
                then record m { login_info = some (record l { access_token = token }) }
                else m))
      go none b = p
      go (some token) true = c.logged_in _ _ _ m p
      go (some token) false = p

  pub state-fetch_authorization_token :
      (w : World) (m : Manager) → P m → P (state (fetch_authorization_token w m))
  unfolding fetch_authorization_token state
  state-fetch_authorization_token w m p = state-maybe P m.login_info _ _ p (λ login.
      state-code_reply (w.on_authorization_code m.requests) login _
        (c.asked authorization_code m p))

  pub state-jwt_reply : (r : Reply JwtResponse) (m : Manager) → P m → P (state (jwt_reply r m))
  unfolding jwt_reply state
  state-jwt_reply (raised e) m p = p
  state-jwt_reply (answered no_body) m p = p
  state-jwt_reply (answered (body connection)) m p = c.given connection m p

  pub state-get_mqtt_credentials :
      (w : World) (now : ℕ) (m : Manager) → P m → P (state (get_mqtt_credentials w now m))
  unfolding get_mqtt_credentials fetch_mqtt_credentials state
  state-get_mqtt_credentials w now m p =
      state-retry_on_network_error P (fetch_mqtt_credentials w now)
        (λ m1 p1.
          state-bind P (ensure_token_valid w now m1) _ (state-ensure_token_valid w now m1 p1)
            (λ u m2 p2.
              state-maybe P m2.login_info _ _ p2
                (λ login. state-jwt_reply (w.on_mqtt_jwt m2.requests) _ (c.asked mqtt_jwt m2 p2))))
        2 m p

  pub state-adopt_http :
      (now : ℕ) (r : TokenResponse) (m : Manager) → P m → P (state (adopt_http now r m))
  unfolding adopt_http mark_reauth_required state
  state-adopt_http now r m p = state-maybe P r.content _ _ (c.reauth _ m p) (λ login.
      state-if P (eqb r.code 0) _ _ (c.logged_in m.login_info m.expires_in _ m p) (c.reauth _ m p))

  pub state-http_failed : (e : Error) (m : Manager) → P m → P (state (http_failed e m))
  unfolding http_failed is_transient_network_error mark_reauth_required state
  state-http_failed e m p =
      ground (arith, p, c.reauth http_refresh_rejected m p, c.reauth exception_text m p)

  pub state-refresh_http :
      (w : World) (now : ℕ) (m : Manager) → P m → P (state (refresh_http w now m))
  unfolding refresh_http
  state-refresh_http w now m p =
      state-bind P (raise_if_reauth_required m) _ (state-raise_if_reauth_required P m p) (λ u m1 p1.
        state-handle P _ http_failed
          (state-bind P (refresh_token_v2 w now m1) (adopt_http now)
            (state-refresh_token_v2 w now m1 p1) (state-adopt_http now))
          state-http_failed)

-- The operations of the token session and of `refresh_http` that the other refreshes use keep P.
pub record HttpKeeps (P : Manager → Type 0) (w : World) : Type 0 where
  pub renews : (now : ℕ) (m : Manager) → P m → P (state (refresh_http w now m))
  pub fetches : (m : Manager) → P m → P (state (fetch_authorization_token w m))
  pub gets : (now : ℕ) (m : Manager) → P m → P (state (get_mqtt_credentials w now m))

pub closed_keeps : (P : Manager → Type 0) → HttpClosed P → (w : World) → HttpKeeps P w
closed_keeps P c w = record {
  renews = state-refresh_http P c w;
  fetches = state-fetch_authorization_token P c w;
  gets = state-get_mqtt_credentials P c w;
}
