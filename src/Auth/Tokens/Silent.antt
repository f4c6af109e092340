-- ===== src/Auth/Tokens/Silent.antt =====
-- Operations on credentials that are terminally unrenewable.
use py_mammotion.Base.{
  maybe, ℕ, ◌≡◌, refl, ◌∙◌, ap, Bool, true, false, ◌||◌, Option, none, some, List, [], ◌∷◌,
  if◌then◌else◌, All, arith, Option-cases, Bool-cases, inl, inr,
}
use py_mammotion.Auth.{
  Reason, Manager, World, Outcome, done, failed, state, bind, handle, relogin_required,
  no_gateway_configured, Gateway, no_cloud_gateway,
}
use py_mammotion.Auth.Tokens.{
  raise_if_reauth_required, raise_if_unavailable, refresh_http, refresh_mqtt, refresh_aliyun,
  refresh_invoke_token, renew_invoke_token, invoke_failed, held_creds, mqtt_valid, aliyun_valid,
  get_mammotion_mqtt_credentials, get_aliyun_credentials, already_renewed,
}
use py_mammotion.Auth.Login.{fetch_authorization_token}
use py_mammotion.Auth.Tokens.Scope.{
  Op, http_renewal, invoke_renewal, mqtt_renewal, mqtt_wanted, aliyun_renewal, aliyun_wanted, apply,
  run,
}

abbrev pub is_some : Option Reason → Bool
is_some none = false
is_some (some r) = true

-- Whether the account, or the transport that the operation serves, is given up.
abbrev pub halted : Op → Manager → Bool
halted (http_renewal now) m = is_some m.reauth_required
halted (invoke_renewal now s) m = is_some m.reauth_required
halted (mqtt_renewal now) m = is_some m.reauth_required || is_some m.mqtt_unavailable
halted (mqtt_wanted now) m = is_some m.reauth_required || is_some m.mqtt_unavailable
halted aliyun_renewal m = is_some m.reauth_required || is_some m.aliyun_unavailable
halted (aliyun_wanted now) m = is_some m.reauth_required || is_some m.aliyun_unavailable

-- An operation ended with ReLoginRequiredError, and changed nothing.
abbrev pub Refused : {A : Type 0} → Outcome A → Manager → Type 0
Refused o m = (r : Reason) × (o ≡ failed (relogin_required r) m)

raise_if_reauth_required-Refused :
    (m : Manager) → is_some m.reauth_required ≡ true → Refused (raise_if_reauth_required m) m
unfolding raise_if_reauth_required maybe
raise_if_reauth_required-Refused m h = elim (Option-cases m.reauth_required) [
  | inl e ↦ absurd (ground (arith, h, e))
  | inr (r, e) ↦ (r, ground (arith, e))
]

raise_if_unavailable-Refused :
    (o : Option Reason) (m : Manager) → is_some o ≡ true → Refused (raise_if_unavailable o m) m
unfolding raise_if_unavailable
raise_if_unavailable-Refused none m h = absurd (cc h)
raise_if_unavailable-Refused (some r) m h = (r, refl)

module _ {A B : Type 0} where
  bind-Refused :
      (o : Outcome A) (k : A → Manager → Outcome B) (m : Manager)
      → Refused o m
      → Refused (bind o k) m
  unfolding bind
  bind-Refused o k m (r, e) = (r, ap (λ o'. bind o' k) e)

module _ {A B : Type 0} where
  maybe-Refused :
      (o : Option A) (absent : Outcome B) (present : A → Outcome B) (m : Manager)
      → Refused absent m
      → ((a : A) → Refused (present a) m)
      → Refused (maybe o absent present) m
  unfolding maybe
  maybe-Refused none absent present m p f = p
  maybe-Refused (some a) absent present m p f = f a

-- `raise_if_reauth_required` and `raise_if_unavailable` pass the state on unless they refuse.
module _ {B : Type 0} where
  bind-raise_if_reauth_required :
      (k : Unit → Manager → Outcome B) (m : Manager)
      → Refused (k tt m) m
      → Refused (bind (raise_if_reauth_required m) k) m
  unfolding raise_if_reauth_required maybe bind
  bind-raise_if_reauth_required k m (r, e) = elim (Option-cases m.reauth_required) [
    | inl n ↦ (r, ground (arith, n, e))
    | inr (x, h) ↦ (x, ground (arith, h))
  ]

  bind-raise_if_unavailable :
      (o : Option Reason) (k : Unit → Manager → Outcome B) (m : Manager)
      → Refused (k tt m) m
      → Refused (bind (raise_if_unavailable o m) k) m
  unfolding raise_if_unavailable bind
  bind-raise_if_unavailable none k m h = h
  bind-raise_if_unavailable (some x) k m h = (x, refl)

refresh_http-Refused :
    (w : World) (now : ℕ) (m : Manager)
    → is_some m.reauth_required ≡ true
    → Refused (refresh_http w now m) m
unfolding refresh_http
refresh_http-Refused w now m h =
    bind-Refused (raise_if_reauth_required m) _ m (raise_if_reauth_required-Refused m h)

refresh_mqtt-Refused :
    (w : World) (now : ℕ) (m : Manager)
    → (is_some m.reauth_required || is_some m.mqtt_unavailable) ≡ true
    → Refused (refresh_mqtt w now m) m
unfolding refresh_mqtt
refresh_mqtt-Refused w now m h = elim (Bool-cases (is_some m.reauth_required)) [
  | inl d ↦ bind-Refused (raise_if_reauth_required m) _ m (raise_if_reauth_required-Refused m d)
  | inr n ↦ bind-raise_if_reauth_required _ m (
      bind-Refused (raise_if_unavailable m.mqtt_unavailable m) _ m
        (raise_if_unavailable-Refused m.mqtt_unavailable m (ground (arith, h, n))))
]

refresh_aliyun-Refused :
    (w : World) (m : Manager)
    → (is_some m.reauth_required || is_some m.aliyun_unavailable) ≡ true
    → Refused (refresh_aliyun w m) m
unfolding refresh_aliyun
refresh_aliyun-Refused w m h =
    maybe-Refused m.cloud_gateway _ _ m (no_cloud_gateway, refl)
      (λ g. elim (Bool-cases (is_some m.aliyun_unavailable)) [
        | inl d ↦
            bind-Refused (raise_if_unavailable m.aliyun_unavailable m) _ m
              (raise_if_unavailable-Refused m.aliyun_unavailable m d)
        | inr n ↦ bind-raise_if_unavailable m.aliyun_unavailable _ m (
            bind-Refused (raise_if_reauth_required m) _ m
              (raise_if_reauth_required-Refused m (ground (arith, h, n))))
      ])

module _ {A : Type 0} where
  state-Refused : (o : Outcome A) (m : Manager) → Refused o m → state o ≡ m
  unfolding state
  state-Refused o m (r, e) = ap state e

  -- A getter: it returns what is held, or what the refused refresh leaves.
  state-getter-Refused :
      {B : Type 0} (b : Bool) (held : Option A) (o : Outcome B) (m : Manager)
      → (k : B → Manager → Outcome A) → Refused o m
      → state (if b then held_creds held m else bind o k) ≡ m
  unfolding held_creds state
  state-getter-Refused true none o m k h = refl
  state-getter-Refused true (some c) o m k h = refl
  state-getter-Refused false held o m k h = state-Refused (bind o k) m (bind-Refused o k m h)

renew_invoke_token-Refused :
    (w : World) (now : ℕ) (m : Manager)
    → is_some m.reauth_required ≡ true
    → Refused (renew_invoke_token w now m) m
unfolding renew_invoke_token handle bind invoke_failed
renew_invoke_token-Refused w now m h =
    let (r, e) = refresh_http-Refused w now m h in
    (r, ap (λ o. handle (bind o (λ u m'. fetch_authorization_token w m')) invoke_failed) e)

pub apply-halted : (w : World) (op : Op) (m : Manager) → halted op m ≡ true → apply w op m ≡ m
unfolding apply refresh_invoke_token get_mammotion_mqtt_credentials get_aliyun_credentials maybe
    state
apply-halted w (http_renewal now) m h = state-Refused _ m (refresh_http-Refused w now m h)
apply-halted w (invoke_renewal now s) m h = go (already_renewed s m)
  where
    go : (b : Bool) → state (if b then done tt m else renew_invoke_token w now m) ≡ m
    go true = refl
    go false = state-Refused _ m (renew_invoke_token-Refused w now m h)
apply-halted w (mqtt_renewal now) m h = state-Refused _ m (refresh_mqtt-Refused w now m h)
apply-halted w (mqtt_wanted now) m h =
    state-getter-Refused (mqtt_valid now m.mqtt_creds) m.mqtt_creds (refresh_mqtt w now m) m _
      (refresh_mqtt-Refused w now m h)
apply-halted w aliyun_renewal m h = state-Refused _ m (refresh_aliyun-Refused w m h)
apply-halted w (aliyun_wanted now) m h = go m.cloud_gateway
  where
    go :
        (o : Option Gateway)
        → state (
            maybe o (failed no_gateway_configured m) (λ gateway.
              if aliyun_valid now m.aliyun_creds
              then held_creds m.aliyun_creds m
              else bind (refresh_aliyun w m) (λ u m'. held_creds m'.aliyun_creds m')))
          ≡ m
    go none = refl
    go (some g) =
        state-getter-Refused (aliyun_valid now m.aliyun_creds) m.aliyun_creds (refresh_aliyun w m) m
          _ (refresh_aliyun-Refused w m h)

-- If the account needs re-authentication, or the transport that each of some renewals and getters
-- of credentials serves is marked as unavailable, then these operations change nothing and make no
-- request.
pub run-halted :
    (w : World) (ops : List Op) (m : Manager) → All (λ op. halted op m ≡ true) ops → run w ops m ≡ m
unfolding run
run-halted w [] m h = refl
run-halted w (op ∷ ops) m h = ap (run w ops) (apply-halted w op m h.0) ∙ run-halted w ops m h.1
