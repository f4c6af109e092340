-- ===== src/Auth/Tokens/Scope.antt =====
-- What the operations of TokenManager leave alone, over any sequence of them.
use py_mammotion.Base.{ℕ, String, ◌≡◌, refl, Option, some, List, [], ◌∷◌, arith}
use py_mammotion.Auth.{Reason, World, Manager, state}
use py_mammotion.Auth.Tokens.{
  first, refresh_http, refresh_mqtt, refresh_aliyun, refresh_invoke_token,
  get_mammotion_mqtt_credentials, get_aliyun_credentials,
}
use py_mammotion.Auth.Tokens.Writes.{
  HttpClosed, MqttClosed, AliyunClosed, closed_keeps, state-refresh_http,
}
use py_mammotion.Auth.Tokens.Refreshes.{
  state-refresh_mqtt, state-get_mammotion_mqtt_credentials, state-refresh_invoke_token,
  state-refresh_aliyun, state-get_aliyun_credentials,
}

-- An operation of the manager, with the time at which it starts.
pub data Op : Type 0 where
  http_renewal : ℕ → Op
  invoke_renewal : ℕ → Option String → Op
  mqtt_renewal : ℕ → Op
  mqtt_wanted : ℕ → Op
  aliyun_renewal : Op
  aliyun_wanted : ℕ → Op

unfoldable pub apply : World → Op → Manager → Manager
unfolding state
apply w (http_renewal now) m = state (refresh_http w now m)
apply w (invoke_renewal now stale_token) m = state (refresh_invoke_token w now stale_token m)
apply w (mqtt_renewal now) m = state (refresh_mqtt w now m)
apply w (mqtt_wanted now) m = state (get_mammotion_mqtt_credentials w now m)
apply w aliyun_renewal m = state (refresh_aliyun w m)
apply w (aliyun_wanted now) m = state (get_aliyun_credentials w now m)

unfoldable pub run : World → List Op → Manager → Manager
unfolding apply
run w [] m = m
run w (op ∷ ops) m = run w ops (apply w op m)

-- Every write keeps P.
pub record Closed (P : Manager → Type 0) : Type 0 where
  pub http : HttpClosed P
  pub mqtt : MqttClosed P
  pub aliyun : AliyunClosed P

pub apply-Closed :
    (P : Manager → Type 0) → Closed P → (w : World) (op : Op) (m : Manager) → P m → P (apply w op m)
unfolding apply
apply-Closed P c w (http_renewal now) m p = state-refresh_http P c.http w now m p
apply-Closed P c w (invoke_renewal now s) m p = state-refresh_invoke_token P c.http w now s m p
apply-Closed P c w (mqtt_renewal now) m p =
    state-refresh_mqtt P w (closed_keeps P c.http w) c.mqtt now m p
apply-Closed P c w (mqtt_wanted now) m p =
    state-get_mammotion_mqtt_credentials P w (closed_keeps P c.http w) c.mqtt now m p
apply-Closed P c w aliyun_renewal m p = state-refresh_aliyun P c.aliyun w m p
apply-Closed P c w (aliyun_wanted now) m p = state-get_aliyun_credentials P c.aliyun w now m p

pub run-Closed :
    (P : Manager → Type 0)
    → Closed P
    → (w : World) (ops : List Op) (m : Manager) → P m
    → P (run w ops m)
unfolding run
run-Closed P c w [] m p = p
run-Closed P c w (op ∷ ops) m p = run-Closed P c w ops (apply w op m) (apply-Closed P c w op m p)

-- A terminal reason that is held stays as it is.
abbrev pub Stays : Option Reason → Option Reason → Type 0
Stays o o' = (r : Reason) → o ≡ some r → o' ≡ some r

abbrev pub Kept : Manager → Manager → Type 0
Kept m m' =
    Stays m.reauth_required m'.reauth_required
    × Stays m.aliyun_unavailable m'.aliyun_unavailable
    × Stays m.mqtt_unavailable m'.mqtt_unavailable

first-Stays : (o o' : Option Reason) (x : Reason) → Stays o o' → Stays o (first o' x)
unfolding first
first-Stays o o' x k r e = ground (arith, k r e)

Kept-Closed : (m : Manager) → Closed (Kept m)
Kept-Closed m = record {
  http = record {
    asked = λ q m' k. k;
    logged_in = λ l t c m' k. k;
    given = λ c m' k. k;
    reauth = λ x m' (h, a, q). (first-Stays m.reauth_required m'.reauth_required x h, a, q);
  };
  mqtt = record {
    renewed = λ c m' k. k;
    given_up = λ x m' (h, a, q). (h, a, first-Stays m.mqtt_unavailable m'.mqtt_unavailable x q);
  };
  aliyun = record {
    asked = λ q m' k. k;
    connected = λ g m' k. k;
    renewed = λ c t m' k. k;
    given_up = λ x m' (h, a, q). (h, first-Stays m.aliyun_unavailable m'.aliyun_unavailable x a, q);
  };
}

-- Over any sequence of renewals and getters of credentials, a reason for which the account needs
-- re-authentication or a transport is unavailable stays as it was first marked.
pub run-Kept : (w : World) (ops : List Op) (m : Manager) → Kept m (run w ops m)
run-Kept w ops m = run-Closed (Kept m) (Kept-Closed m) w ops m (λ r e. e, λ r e. e, λ r e. e)

-- The parts of the state: the login, what the MQTT transport uses, and what the Aliyun one uses.
abbrev pub SameLogin : Manager → Manager → Type 0
SameLogin m m' =
    (m'.login_info ≡ m.login_info)
    × (m'.expires_in ≡ m.expires_in)
    × (m'.http_creds ≡ m.http_creds)
    × (m'.reauth_required ≡ m.reauth_required)

abbrev pub SameMqtt : Manager → Manager → Type 0
SameMqtt m m' = (m'.mqtt_creds ≡ m.mqtt_creds) × (m'.mqtt_unavailable ≡ m.mqtt_unavailable)

abbrev pub SameAliyun : Manager → Manager → Type 0
SameAliyun m m' =
    (m'.cloud_gateway ≡ m.cloud_gateway)
    × (m'.aliyun_creds ≡ m.aliyun_creds)
    × (m'.aliyun_unavailable ≡ m.aliyun_unavailable)
    × (m'.bind_token ≡ m.bind_token)

-- What an operation leaves alone.
abbrev pub Scoped : Op → Manager → Manager → Type 0
Scoped (http_renewal now) m m' = SameMqtt m m' × SameAliyun m m'
Scoped (invoke_renewal now s) m m' = SameMqtt m m' × SameAliyun m m'
Scoped (mqtt_renewal now) m m' = SameAliyun m m'
Scoped (mqtt_wanted now) m m' = SameAliyun m m'
Scoped aliyun_renewal m m' = SameLogin m m' × SameMqtt m m'
Scoped (aliyun_wanted now) m m' = SameLogin m m' × SameMqtt m m'

module _ (m : Manager) where
  http_scope : HttpClosed (λ m'. SameMqtt m m' × SameAliyun m m')
  http_scope = record {
    asked = λ q m' p. p;
    logged_in = λ l t c m' p. p;
    given = λ c m' p. p;
    reauth = λ r m' p. p;
  }

  http_in_mqtt_scope : HttpClosed (SameAliyun m)
  http_in_mqtt_scope = record {
    asked = λ q m' p. p;
    logged_in = λ l t c m' p. p;
    given = λ c m' p. p;
    reauth = λ r m' p. p;
  }

  mqtt_scope : MqttClosed (SameAliyun m)
  mqtt_scope = record { renewed = λ c m' p. p; given_up = λ r m' p. p }

  aliyun_scope : AliyunClosed (λ m'. SameLogin m m' × SameMqtt m m')
  aliyun_scope = record {
    asked = λ q m' p. p;
    connected = λ g m' p. p;
    renewed = λ c t m' p. p;
    given_up = λ r m' p. p;
  }

-- A renewal of the HTTP login or of the invoke token leaves the credentials and the flag of both
-- transports as they were; a renewal or getter of the MQTT credentials leaves those of Aliyun, with
-- the gateway, as they were; and one of the Aliyun credentials leaves the login, its flag, and the
-- credentials and the flag of MQTT as they were.
pub apply-Scoped : (w : World) (op : Op) (m : Manager) → Scoped op m (apply w op m)
unfolding apply
apply-Scoped w (http_renewal now) m =
    state-refresh_http (λ m'. SameMqtt m m' × SameAliyun m m') (http_scope m) w now m
      ((refl, refl), (refl, refl, refl, refl))
apply-Scoped w (invoke_renewal now s) m =
    state-refresh_invoke_token (λ m'. SameMqtt m m' × SameAliyun m m') (http_scope m) w now s m
      ((refl, refl), (refl, refl, refl, refl))
apply-Scoped w (mqtt_renewal now) m =
    state-refresh_mqtt (SameAliyun m) w (closed_keeps (SameAliyun m) (http_in_mqtt_scope m) w)
      (mqtt_scope m) now m (refl, refl, refl, refl)
apply-Scoped w (mqtt_wanted now) m =
    state-get_mammotion_mqtt_credentials (SameAliyun m) w
      (closed_keeps (SameAliyun m) (http_in_mqtt_scope m) w) (mqtt_scope m) now m
      (refl, refl, refl, refl)
apply-Scoped w aliyun_renewal m =
    state-refresh_aliyun (λ m'. SameLogin m m' × SameMqtt m m') (aliyun_scope m) w m
      ((refl, refl, refl, refl), (refl, refl))
apply-Scoped w (aliyun_wanted now) m =
    state-get_aliyun_credentials (λ m'. SameLogin m m' × SameMqtt m m') (aliyun_scope m) w now m
      ((refl, refl, refl, refl), (refl, refl))
