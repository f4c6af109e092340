-- ===== src/Auth/Scheduler/Passes.antt =====
-- The sleeps between the passes of the scheduler.
use py_mammotion.Base.{
  maybe, ℕ, ◌≤◌, ◌<◌, ◌≡◌, refl, Bool, true, false, ◌&&◌, Option, none, some, if◌then◌else◌, ltb,
  arith,
}
use py_mammotion.Auth.{
  timed_out, disconnected, client_error, unauthorized, relogin_required, session_expired,
  login_exception, auth_error, no_gateway_configured, other_error, Reason, World, Manager, Outcome,
  done, failed,
}
use py_mammotion.Auth.Scheduler.{
  seconds_until_next_refresh, refresh_due_credentials, Pass, stopped, asleep, awake, refreshed,
  scheduler_pass,
}
use py_mammotion.Auth.Scheduler.Due.{seconds_until_next_refresh_le}

-- The scheduler sleeps for a positive time, at most the cap, or it stops, or its next pass does one
-- of the two and refreshes nothing.
abbrev Resting : Pass → Type 0
Resting (stopped m) = Unit
Resting (asleep d m) = (0 < d) × (d ≤ 3600)
Resting (awake m) = ⊥

abbrev pub Rests : World → ℕ → Pass → Type 0
Rests w later (stopped m) = Unit
Rests w later (asleep d m) = (0 < d) × (d ≤ 3600)
Rests w later (awake m) = (n : ℕ) → Resting (scheduler_pass w later n m)

slept-Rests :
    (w : World) (later d : ℕ) (m : Manager) → 0 < d → d ≤ 3600 → Rests w later (asleep d m)
slept-Rests w later d m lo hi = (lo, hi)

next-Resting :
    (w : World) (later n : ℕ) (m : Manager)
    → ltb 0 (seconds_until_next_refresh later m) ≡ true
    → Resting (scheduler_pass w later n m)
unfolding scheduler_pass
next-Resting w later n m h = go m.reauth_required
  where
    go :
        (o : Option Reason)
        → Resting (
            maybe o
              (if ltb 0 (seconds_until_next_refresh later m)
                then asleep (seconds_until_next_refresh later m) m
                else refreshed n (refresh_due_credentials w later m))
              (λ reason. stopped m))
    go none = rw h (ground (arith, h), seconds_until_next_refresh_le later m)
    go (some r) = tt

if-Rests :
    (w : World) (later : ℕ) (b : Bool) (m : Manager)
    → (b ≡ true → ltb 0 (seconds_until_next_refresh later m) ≡ true)
    → Rests w later (if b then awake m else asleep 300 m)
if-Rests w later true m h = λ n. next-Resting w later n m (h refl)
if-Rests w later false m h = (omega arith, omega arith)

refreshed-Rests : (w : World) (later : ℕ) (o : Outcome Bool) → Rests w later (refreshed later o)
unfolding refreshed
refreshed-Rests w later (done ok m) =
    if-Rests w later (ok && ltb 0 (seconds_until_next_refresh later m)) m (λ h. ground (arith, h))
refreshed-Rests w later (failed (relogin_required r) m) = tt
refreshed-Rests w later (failed timed_out m) = (omega arith, omega arith)
refreshed-Rests w later (failed disconnected m) = (omega arith, omega arith)
refreshed-Rests w later (failed client_error m) = (omega arith, omega arith)
refreshed-Rests w later (failed unauthorized m) = (omega arith, omega arith)
refreshed-Rests w later (failed session_expired m) = (omega arith, omega arith)
refreshed-Rests w later (failed login_exception m) = (omega arith, omega arith)
refreshed-Rests w later (failed auth_error m) = (omega arith, omega arith)
refreshed-Rests w later (failed no_gateway_configured m) = (omega arith, omega arith)
refreshed-Rests w later (failed other_error m) = (omega arith, omega arith)

-- A pass of the refresh scheduler stops it, or sleeps for a time above 0 and of at most 3600
-- seconds, or is followed by a pass that stops it or sleeps so, if that one starts when the
-- refreshes have ended.
pub scheduler_pass-Rests :
    (w : World) (now later : ℕ) (m : Manager) → Rests w later (scheduler_pass w now later m)
unfolding scheduler_pass
scheduler_pass-Rests w now later m =
    go m.reauth_required (ltb 0 (seconds_until_next_refresh now m)) refl
  where
    go :
        (o : Option Reason) (b : Bool)
        → ltb 0 (seconds_until_next_refresh now m) ≡ b
        → Rests w later (
            maybe o
              (if b
                then asleep (seconds_until_next_refresh now m) m
                else refreshed later (refresh_due_credentials w now m))
              (λ reason. stopped m))
    go (some r) b h = tt
    go none true h = (ground (arith, h), seconds_until_next_refresh_le now m)
    go none false h = refreshed-Rests w later (refresh_due_credentials w now m)
