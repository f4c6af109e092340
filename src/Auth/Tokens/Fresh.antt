-- ===== src/Auth/Tokens/Fresh.antt =====
-- The credentials that a getter returns.
use py_mammotion.Base.{
  ℕ, zero, suc, ◌+◌, ◌≤◌, ◌≡◌, ◌⊎◌, refl, Bool, true, false, Option, none, some, List, ◌∷◌,
  if◌then◌else◌,
}
use py_mammotion.Auth.{
  Error, timed_out, disconnected, client_error, unauthorized, relogin_required, session_expired,
  login_exception, auth_error, no_gateway_configured, other_error, Manager, World, Outcome, done,
  failed, Reply, answered, raised, JwtResponse, no_body, body, MqttConnection, MqttCredentials,
  Request, mqtt_jwt, is_transient_network_error,
}
use py_mammotion.Auth.Login.{
  ensure_token_valid, fetch_authorization_token, jwt_reply, fetch_mqtt_credentials,
  retry_on_network_error, get_mqtt_credentials, is_retried,
}
use py_mammotion.Auth.Tokens.{
  raise_if_reauth_required, raise_if_unavailable, refresh_http, jwt_expiry, set_mqtt_creds,
  second_jwt, retry_jwt, first_jwt, mqtt_failed, refresh_mqtt, mark_mqtt_unavailable,
}
use py_mammotion.Auth.Tokens.Health.{Ends, Ends-bind, Ends-handle, Ends-maybe}

abbrev pub Any : Error → Manager → Type 0
Any e m = Unit

-- A connection that the last request brought.
abbrev Brought : World → Option MqttConnection → Manager → Type 0
Brought w none m = Unit
Brought w (some c) m =
    (q : List Request) × (m.requests ≡ mqtt_jwt ∷ q) × (w.on_mqtt_jwt q ≡ answered (body (some c)))

-- Credentials that are made from the answer to the last request, and are held.
pub record Issued (w : World) (now : ℕ) (creds : MqttCredentials) (m : Manager) : Type 0 where
  pub earlier : List Request
  pub connection : MqttConnection
  pub asked : m.requests ≡ mqtt_jwt ∷ earlier
  pub answer : w.on_mqtt_jwt earlier ≡ answered (body (some connection))
  pub same_jwt : creds.jwt ≡ connection.jwt
  pub expiry : creds.expires_at ≡ jwt_expiry w now connection.jwt
  pub held : m.mqtt_creds ≡ some creds

module _ {A : Type 0} where
  pub Ends-Any : (o : Outcome A) → Ends (λ a m. Unit {0}) Any o
  Ends-Any (done a m) = tt
  Ends-Any (failed e m) = tt

module _ {A : Type 0} (Q : A → Manager → Type 0) (E : Error → Manager → Type 0) where
  pub Ends-if :
      (b : Bool) (x y : Outcome A) → Ends Q E x → Ends Q E y → Ends Q E (if b then x else y)
  Ends-if true x y p q = p
  Ends-if false x y p q = q

module _ {A : Type 0} (Q : A → Manager → Type 0) (func : Manager → Outcome A)
    (ends : (m : Manager) → Ends Q Any (func m)) where
  Ends-retry_on_network_error :
      (more : ℕ) (m : Manager) → Ends Q Any (retry_on_network_error more func m)
  unfolding retry_on_network_error
  Ends-retry_on_network_error zero m = ends m
  Ends-retry_on_network_error (suc more) m =
      Ends-handle Q Any Any (func m) _ (ends m)
        (λ e m' h. Ends-if Q Any (is_retried e) _ _ (Ends-retry_on_network_error more m') tt)

jwt_reply-Brought :
    (w : World) (q : List Request) (r : Reply JwtResponse) (m : Manager)
    → w.on_mqtt_jwt q ≡ r
    → m.requests ≡ mqtt_jwt ∷ q
    → Ends (Brought w) Any (jwt_reply r m)
unfolding jwt_reply
jwt_reply-Brought w q (raised e) m h s = tt
jwt_reply-Brought w q (answered no_body) m h s = tt
jwt_reply-Brought w q (answered (body none)) m h s = tt
jwt_reply-Brought w q (answered (body (some c))) m h s = (q, s, h)

get_mqtt_credentials-Brought :
    (w : World) (now : ℕ) (m : Manager) → Ends (Brought w) Any (get_mqtt_credentials w now m)
unfolding get_mqtt_credentials fetch_mqtt_credentials
get_mqtt_credentials-Brought w now m =
    Ends-retry_on_network_error (Brought w) (fetch_mqtt_credentials w now)
      (λ m1.
        Ends-bind (Brought w) Any (λ u m'. Unit {0}) (ensure_token_valid w now m1) _
          (Ends-Any (ensure_token_valid w now m1))
          (λ u m2 h.
            Ends-maybe (Brought w) Any m2.login_info _ _ (λ e. tt)
              (λ l e. jwt_reply-Brought w m2.requests (w.on_mqtt_jwt m2.requests) _ refl refl)))
      2 m

module _ (w : World) (now : ℕ) where
  set_mqtt_creds-Issued :
      (c : MqttConnection) (m : Manager)
      → Brought w (some c) m
      → Ends (Issued w now) Any (set_mqtt_creds w now c m)
  unfolding set_mqtt_creds
  set_mqtt_creds-Issued c m (q, s, h) = record {
    earlier = q;
    connection = c;
    asked = s;
    answer = h;
    same_jwt = refl;
    expiry = refl;
    held = refl;
  }

  second_jwt-Issued :
      (o : Option MqttConnection) (m : Manager)
      → Brought w o m
      → Ends (Issued w now) Any (second_jwt w now o m)
  unfolding second_jwt mark_mqtt_unavailable
  second_jwt-Issued none m h = tt
  second_jwt-Issued (some c) m h = set_mqtt_creds-Issued c m h

  first_jwt-Issued :
      (o : Option MqttConnection) (m : Manager)
      → Brought w o m
      → Ends (Issued w now) Any (first_jwt w now o m)
  unfolding first_jwt retry_jwt
  first_jwt-Issued none m h =
      Ends-bind (Issued w now) Any (λ u m'. Unit {0}) (refresh_http w now m) _ (Ends-Any _)
        (λ u m1 h1.
          Ends-bind (Issued w now) Any (λ u' m'. Unit {0}) (fetch_authorization_token w m1) _
            (Ends-Any _)
            (λ u' m2 h2.
              Ends-bind (Issued w now) Any (Brought w) (get_mqtt_credentials w now m2)
                (second_jwt w now) (get_mqtt_credentials-Brought w now m2) second_jwt-Issued))
  first_jwt-Issued (some c) m h = set_mqtt_creds-Issued c m h

  mqtt_failed-Issued : (e : Error) (m : Manager) → Ends (Issued w now) Any (mqtt_failed e m)
  unfolding mqtt_failed is_transient_network_error mark_mqtt_unavailable
  mqtt_failed-Issued timed_out m = tt
  mqtt_failed-Issued disconnected m = tt
  mqtt_failed-Issued client_error m = tt
  mqtt_failed-Issued unauthorized m = tt
  mqtt_failed-Issued (relogin_required r) m = tt
  mqtt_failed-Issued session_expired m = tt
  mqtt_failed-Issued login_exception m = tt
  mqtt_failed-Issued auth_error m = tt
  mqtt_failed-Issued no_gateway_configured m = tt
  mqtt_failed-Issued other_error m = tt

  pub refresh_mqtt-Issued : (m : Manager) → Ends (Issued w now) Any (refresh_mqtt w now m)
  unfolding refresh_mqtt
  refresh_mqtt-Issued m =
      Ends-bind (Issued w now) Any (λ u m'. Unit {0}) (raise_if_reauth_required m) _ (Ends-Any _)
        (λ u m1 h1.
          Ends-bind (Issued w now) Any (λ u' m'. Unit {0})
            (raise_if_unavailable m1.mqtt_unavailable m1) _ (Ends-Any _)
            (λ u' m2 h2.
              Ends-handle (Issued w now) Any Any _ mqtt_failed
                (Ends-bind (Issued w now) Any (Brought w) (get_mqtt_credentials w now m2)
                  (first_jwt w now) (get_mqtt_credentials-Brought w now m2) first_jwt-Issued)
                (λ e m' h. mqtt_failed-Issued e m')))

-- Held credentials that are good for 30 minutes, or credentials that were just issued.
abbrev pub Usable : World → ℕ → Manager → MqttCredentials → Manager → Type 0
Usable w now m creds m' =
    ((m' ≡ m) × (m.mqtt_creds ≡ some creds) × (now + 1800 ≤ creds.expires_at))
    ⊎ Issued w now creds m'
