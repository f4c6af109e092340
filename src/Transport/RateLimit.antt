-- ===== src/Transport/RateLimit.antt =====
-- pymammotion/transport/base.py, class `Transport`: the send quota, the cloud ban, the error window
-- and the auth flags. `time.monotonic()` is an argument, in whole ticks; a comparison with
-- `now - window` is written with the window on the other side, since the clock starts above 0.
-- A deque is a list, oldest first. The window and the limit are parameters, as the code's class
-- attributes are; the theorems hold for all values.
pub mod Window
pub mod Quota
use py_mammotion.Base.{
  ℕ, zero, suc, ◌+◌, ◌-◌, Bool, true, false, ◌&&◌, ◌||◌, not, List, [], ◌∷◌, ◌++◌, if◌then◌else◌,
  ltb, leb, length,
}
use mathlib.Core.List.{reverse}

pub record Limits : Type 0 where
  pub send_window : ℕ
  pub send_limit : ℕ
  pub rate_limit_duration : ℕ
  pub error_retention : ℕ

abbrev pub defaults : Limits
defaults = record {
  send_window = 43200;
  send_limit = 600;
  rate_limit_duration = 43200;
  error_retention = 3600;
}

pub record Transport : Type 0 where
  pub limits : Limits
  pub open limits use *
  pub error_timestamps : List ℕ
  pub rate_limited_until : ℕ
  pub send_timestamps : List ℕ
  pub quota_warned : Bool
  pub last_send_monotonic : ℕ
  pub auth_failed : Bool
  pub unrecoverable_auth_failure : Bool

pub init : Limits → Transport
init l = record {
  limits = l;
  error_timestamps = [];
  rate_limited_until = 0;
  send_timestamps = [];
  quota_warned = false;
  last_send_monotonic = 0;
  auth_failed = false;
  unrecoverable_auth_failure = false;
}

-- `while ts and ts[0] < now - window: ts.popleft()`
pub pop_older : ℕ → ℕ → List ℕ → List ℕ
pop_older now window [] = []
pop_older now window (ts ∷ rest) =
    let popped = pop_older now window rest in if ltb (ts + window) now then popped else ts ∷ rest

-- The loop over `reversed(...)` that stops at the first older entry; its argument is reversed.
pub count_recent : ℕ → ℕ → List ℕ → ℕ
count_recent now window [] = 0
count_recent now window (ts ∷ older) =
    let more = count_recent now window older in if leb now (ts + window) then 1 + more else 0

unfoldable pub record_error : Transport → ℕ → Transport
unfolding pop_older
record_error t now = record t {
  error_timestamps = pop_older now t.error_retention (t.error_timestamps ++ now ∷ []);
}

unfoldable pub errors_in_window : Transport → ℕ → ℕ → ℕ
unfolding count_recent
errors_in_window t now window = count_recent now window (reverse t.error_timestamps)

unfoldable pub sends_in_window : Transport → ℕ → ℕ
unfolding count_recent
sends_in_window t now = count_recent now t.send_window (reverse t.send_timestamps)

unfoldable pub record_send : Transport → ℕ → Transport
unfolding pop_older
record_send t now =
    let sends = pop_older now t.send_window (t.send_timestamps ++ now ∷ []) in
    record t {
      last_send_monotonic = now;
      send_timestamps = sends;
      quota_warned = leb t.send_limit (length sends);
    }

unfoldable pub set_rate_limited : Transport → ℕ → Transport
set_rate_limited t now = record t { rate_limited_until = now + t.rate_limit_duration }

unfoldable pub is_rate_limited : Transport → ℕ → Bool
is_rate_limited t now =
    if ltb now t.rate_limited_until then true else leb t.send_limit (sends_in_window t now)

-- `version_is_rate_limited` is the verdict of `packaging.version` on the device's firmware.
unfoldable pub is_send_blocked : Transport → ℕ → Bool → Bool
is_send_blocked t now version_is_rate_limited = is_rate_limited t now && version_is_rate_limited

pub recent : ℕ → ℕ → List ℕ → List ℕ
recent now window [] = []
recent now window (ts ∷ rest) =
    let more = recent now window rest in if leb now (ts + window) then ts ∷ more else more

nth : List ℕ → ℕ → ℕ
nth [] i = 0
nth (x ∷ xs) zero = x
nth (x ∷ xs) (suc i) = nth xs i

max : ℕ → ℕ → ℕ
max a b = if ltb a b then b else a

quota_remaining : ℕ → ℕ → ℕ → List ℕ → ℕ
quota_remaining now window limit in_window =
    if leb limit (length in_window)
    then nth in_window (length in_window - limit) + window - now
    else 0

unfoldable pub seconds_until_send_available : Transport → ℕ → ℕ
unfolding recent nth max quota_remaining
seconds_until_send_available t now =
    max (t.rate_limited_until - now)
      (quota_remaining now t.send_window t.send_limit (recent now t.send_window t.send_timestamps))

unfoldable pub is_usable : Transport → Bool
is_usable t = not t.auth_failed && not t.unrecoverable_auth_failure

unfoldable pub mark_auth_failed : Transport → Transport
mark_auth_failed t = record t { auth_failed = true }

unfoldable pub clear_auth_failed : Transport → Transport
clear_auth_failed t = record t { auth_failed = false }

unfoldable pub mark_unrecoverable_auth_failure : Transport → Transport
mark_unrecoverable_auth_failure t = record t { unrecoverable_auth_failure = true }
