-- ===== src/Auth/Scheduler/Due.antt =====
-- When a credential is due.
use py_mammotion.Base.{
  maybe, ℕ, zero, suc, ◌+◌, ◌≤◌, ◌≡◌, ◌↔◌, Bool, true, false, ◌&&◌, ◌||◌, not, Option, none, some,
  List, [], ◌∷◌, ◌++◌, leb, eqb, any, arith, refl, eqb_iff,
}
use py_mammotion.Auth.{Manager}
use py_mammotion.Auth.Scheduler.{
  due_time, due_at, earliest, delay_until, seconds_until_next_refresh,
}

pub seconds_until_next_refresh_le :
    (now : ℕ) (m : Manager) → seconds_until_next_refresh now m ≤ 3600
unfolding seconds_until_next_refresh delay_until
seconds_until_next_refresh_le now m = go (due_at m)
  where
    go : (ts : List ℕ) → delay_until now ts ≤ 3600
    go [] = omega arith
    go (t ∷ ts) = ground arith

-- Some credential has an expiry that is within its lead of the clock.
abbrev expires_within : ℕ → ℕ → ℕ → Bool
expires_within now lead exp = not (eqb exp 0) && leb exp (now + lead)

unfoldable pub some_due : ℕ → Manager → Bool
unfolding maybe
some_due now m =
    expires_within now 300 m.expires_in
    || (maybe m.mqtt_creds false (λ c. expires_within now 1800 c.expires_at)
        || maybe m.aliyun_creds false (λ c. expires_within now 3600 c.iot_token_expires_at))

earliest-past :
    (now t : ℕ) (ts : List ℕ) → leb (earliest t ts) now ≡ (leb t now || any (λ x. leb x now) ts)
unfolding earliest any
earliest-past now t [] = ground arith
earliest-past now t (x ∷ xs) = ground (arith, earliest-past now x xs, earliest-past now t xs)

delay_until-zero : (now : ℕ) (ts : List ℕ) → eqb (delay_until now ts) 0 ≡ any (λ x. leb x now) ts
unfolding delay_until any
delay_until-zero now [] = ground arith
delay_until-zero now (t ∷ ts) = ground (arith, earliest-past now t ts)

any-append : (p : ℕ → Bool) (xs ys : List ℕ) → any p (xs ++ ys) ≡ (any p xs || any p ys)
unfolding any
any-append p [] ys = refl
any-append p (x ∷ xs) ys = ground (arith, any-append p xs ys)

any-due_time :
    (now lead exp : ℕ) → any (λ x. leb x now) (due_time lead exp) ≡ expires_within now lead exp
unfolding due_time any
any-due_time now lead zero = ground arith
any-due_time now lead (suc exp) = ground arith

module _ {A : Type 0} where
  any-maybe :
      (p : ℕ → Bool) (o : Option A) (f : A → List ℕ)
      → any p (maybe o [] f) ≡ maybe o false (λ a. any p (f a))
  unfolding maybe any
  any-maybe p none f = refl
  any-maybe p (some a) f = refl

any-due_at : (now : ℕ) (m : Manager) → any (λ x. leb x now) (due_at m) ≡ some_due now m
unfolding due_at some_due
any-due_at now m = simp (any-append, any-maybe, any-due_time) refl

-- The time until the next refresh is 0 exactly when the HTTP login, the MQTT or the Aliyun
-- credentials have an expiry that is not 0 and lies at most 300, 1800 or 3600 seconds ahead.
pub seconds_until-zero_iff :
    (now : ℕ) (m : Manager) → (seconds_until_next_refresh now m ≡ 0) ↔ (some_due now m ≡ true)
unfolding seconds_until_next_refresh
seconds_until-zero_iff now m = ground (
  arith,
  any-due_at now m,
  delay_until-zero now (due_at m),
  eqb_iff (delay_until now (due_at m)) 0,
)
