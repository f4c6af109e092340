-- ===== src/Auth/Tokens/Outage.antt =====
-- Any operations of TokenManager against servers that reject nothing of the account's login.
use py_mammotion.Base.{ℕ, ◌+◌, ◌≡◌, ◌≢◌, refl, ◌∙◌, ap, true, List, [], ◌∷◌, arith, leb, eqb}
use py_mammotion.Auth.{
  Error, unauthorized, relogin_required, Manager, World, Outcome, done, failed, state, handle,
  Reply, answered, raised, JwtResponse, no_body, body, is_transient_network_error, timed_out,
  disconnected, client_error, session_expired, login_exception, auth_error, no_gateway_configured,
  other_error,
}
use py_mammotion.Auth.Login.{
  refresh_token_v2, check_code, ensure_token_valid, jwt_reply, fetch_mqtt_credentials,
  get_mqtt_credentials,
}
use py_mammotion.Auth.Tokens.{
  refresh_http, invoke_failed, renew_invoke_token, refresh_invoke_token, already_renewed,
}
use py_mammotion.Auth.Tokens.Writes.{
  HttpKeeps, MqttClosed, state-retry_on_network_error, state-maybe, state-if, state-bind,
  state-done, state-failed,
}
use py_mammotion.Auth.Tokens.Refreshes.{state-refresh_mqtt, state-get_mammotion_mqtt_credentials}
use py_mammotion.Auth.Tokens.Scope.{
  Op, http_renewal, invoke_renewal, mqtt_renewal, mqtt_wanted, aliyun_renewal, aliyun_wanted, apply,
  run, apply-Scoped, SameLogin,
}
use py_mammotion.Auth.Tokens.Health.{
  Ends, Ends-bind, Signed, Accepts, Transient, Renewed, refresh_token_v2-Signed,
  refresh_http-Signed, fetch_authorization_token-Signed, state-Ends, is_given,
}

jwt_reply-Signed : (r : Reply JwtResponse) (m : Manager) → Signed m → Signed (state (jwt_reply r m))
unfolding jwt_reply state
jwt_reply-Signed (raised e) m s = s
jwt_reply-Signed (answered no_body) m s = s
jwt_reply-Signed (answered (body c)) m s = s

invoke_failed-Signed :
    (e : Error) (m : Manager) → Signed m × (e ≢ unauthorized) → Signed (state (invoke_failed e m))
unfolding invoke_failed is_transient_network_error state
invoke_failed-Signed timed_out m h = h.0
invoke_failed-Signed disconnected m h = h.0
invoke_failed-Signed client_error m h = h.0
invoke_failed-Signed unauthorized m h = absurd (h.1 refl)
invoke_failed-Signed (relogin_required r) m h = h.0
invoke_failed-Signed session_expired m h = h.0
invoke_failed-Signed login_exception m h = h.0
invoke_failed-Signed auth_error m h = h.0
invoke_failed-Signed no_gateway_configured m h = h.0
invoke_failed-Signed other_error m h = h.0

transient_not_unauthorized : (e : Error) → is_transient_network_error e ≡ true → e ≢ unauthorized
unfolding is_transient_network_error
transient_not_unauthorized e h = λ x. absurd (ground (arith, h, x))

module _ {A : Type 0} where
  state-handle-Ends :
      (P : Manager → Type 0) (F : Error → Manager → Type 0) (o : Outcome A)
      → (h : Error → Manager → Outcome A) → Ends (λ x m. P m) F o
      → ((e : Error) (m : Manager) → F e m → P (state (h e m)))
      → P (state (handle o h))
  unfolding handle state
  state-handle-Ends P F (done x m) h p f = p
  state-handle-Ends P F (failed e m) h p f = f e m p

  Ends-raises :
      (Q : A → Manager → Type 0) (E F : Error → Manager → Type 0) (o : Outcome A)
      → Ends Q E o
      → ((e : Error) (m : Manager) → E e m → F e m)
      → Ends Q F o
  Ends-raises Q E F (done x m) p f = p
  Ends-raises Q E F (failed e m) p f = f e m p

abbrev Refused : Error → Manager → Type 0
Refused e m = Signed m × (e ≢ unauthorized)

module _ (w : World) (a : Accepts w) where
  ensure_token_valid-Signed :
      (now : ℕ) (m : Manager) → Signed m → Signed (state (ensure_token_valid w now m))
  unfolding ensure_token_valid check_code
  ensure_token_valid-Signed now m s =
      state-if Signed (leb (now + 300) m.expires_in) _ _ (state-done Signed tt m s) (
        state-maybe Signed m.login_info _ _ (state-failed Signed _ _ m s) (λ l.
          state-bind Signed (refresh_token_v2 w now m) check_code
            (state-Ends Signed Renewed Transient _ (refresh_token_v2-Signed w a now m s)
              (λ r m' h. h.0) (λ e m' h. h.0))
            (λ r m' s'.
              state-if Signed (eqb r.code 0) _ _ (state-done Signed tt m' s')
                (state-failed Signed _ _ m' s'))))

  get_mqtt_credentials-Signed :
      (now : ℕ) (m : Manager) → Signed m → Signed (state (get_mqtt_credentials w now m))
  unfolding get_mqtt_credentials fetch_mqtt_credentials
  get_mqtt_credentials-Signed now m s =
      state-retry_on_network_error Signed (fetch_mqtt_credentials w now)
        (λ m1 s1.
          state-bind Signed (ensure_token_valid w now m1) _ (ensure_token_valid-Signed now m1 s1)
            (λ u m2 s2.
              state-maybe Signed m2.login_info _ _ (state-failed Signed _ _ m2 s2)
                (λ l. jwt_reply-Signed (w.on_mqtt_jwt m2.requests) _ s2)))
        2 m s

  refresh_http-stays : (now : ℕ) (m : Manager) → Signed m → Signed (state (refresh_http w now m))
  refresh_http-stays now m s =
      state-Ends Signed (λ (u : Unit) m'. Signed m') Transient _ (refresh_http-Signed w a now m s)
        (λ u m' h. h) (λ e m' h. h.0)

  Signed-HttpKeeps : HttpKeeps Signed w
  Signed-HttpKeeps = record {
    renews = refresh_http-stays;
    fetches = λ m s.
        state-Ends Signed (λ (u : Unit) m'. Signed m') Refused _
          (fetch_authorization_token-Signed w a m s) (λ u m' h. h) (λ e m' h. h.0);
    gets = get_mqtt_credentials-Signed;
  }

  Signed-MqttClosed : MqttClosed Signed
  Signed-MqttClosed = record { renewed = λ c m s. s; given_up = λ r m s. s }

  renew_invoke_token-Signed :
      (now : ℕ) (m : Manager) → Signed m → Signed (state (renew_invoke_token w now m))
  unfolding renew_invoke_token
  renew_invoke_token-Signed now m s =
      state-handle-Ends Signed Refused _ invoke_failed
        (Ends-bind (λ (u : Unit) m'. Signed m') Refused (λ (u : Unit) m'. Signed m')
          (refresh_http w now m) _
          (Ends-raises (λ (u : Unit) m'. Signed m') Transient Refused _
            (refresh_http-Signed w a now m s) (λ e m' h. (h.0, transient_not_unauthorized e h.1)))
          (λ u m1 s1. fetch_authorization_token-Signed w a m1 s1))
        invoke_failed-Signed

  same-Signed : (m m' : Manager) → SameLogin m m' → Signed m → Signed m'
  same-Signed m m' (l, t, c, r) (s, g) = (r ∙ s, ap is_given l ∙ g)

  apply-Signed : (op : Op) (m : Manager) → Signed m → Signed (apply w op m)
  unfolding apply refresh_invoke_token
  apply-Signed (http_renewal now) m s = refresh_http-stays now m s
  apply-Signed (invoke_renewal now stale) m s =
      state-if Signed (already_renewed stale m) _ _ (state-done Signed tt m s)
        (renew_invoke_token-Signed now m s)
  apply-Signed (mqtt_renewal now) m s =
      state-refresh_mqtt Signed w Signed-HttpKeeps Signed-MqttClosed now m s
  apply-Signed (mqtt_wanted now) m s =
      state-get_mammotion_mqtt_credentials Signed w Signed-HttpKeeps Signed-MqttClosed now m s
  apply-Signed aliyun_renewal m s =
      same-Signed m (apply w aliyun_renewal m) (apply-Scoped w aliyun_renewal m).0 s
  apply-Signed (aliyun_wanted now) m s =
      same-Signed m (apply w (aliyun_wanted now) m) (apply-Scoped w (aliyun_wanted now) m).0 s

  -- If the login server accepts the refresh token of a logged-in account, with an access token that
  -- can be decoded, or cannot be reached, and never answers the request for an authorization code
  -- with UnauthorizedException, then no sequence of renewals and getters of credentials marks the
  -- account as in need of re-authentication or logs it out, whatever the servers of the two
  -- transports answer.
  pub run-Signed : (ops : List Op) (m : Manager) → Signed m → Signed (run w ops m)
  unfolding run
  run-Signed [] m s = s
  run-Signed (op ∷ ops) m s = run-Signed ops (apply w op m) (apply-Signed op m s)
