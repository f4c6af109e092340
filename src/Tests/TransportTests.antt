-- ===== src/Tests/TransportTests.antt =====
-- The send quota with two sends of a quota of two.
use py_mammotion.Base.{ℕ, ◌≡◌, ◌∷◌, [], List, true, false, refl, arith}
use py_mammotion.Transport.RateLimit.{
  Limits, Transport, sends_in_window, is_rate_limited, seconds_until_send_available,
}
use py_mammotion.Transport.RateLimit.Quota.{IsClocked, allowed_after}
use py_mammotion.Transport.EventBus.Subscriptions.{Op, subscribed}

abbrev limits_of_two : Limits
limits_of_two = record {
  send_window = 10;
  send_limit = 2;
  rate_limit_duration = 20;
  error_retention = 30;
}

-- Sends at 3, 5 and 9; at 14 the first has left the window of 10.
abbrev busy : Transport
busy = record {
  limits = limits_of_two;
  error_timestamps = [];
  rate_limited_until = 0;
  send_timestamps = 3 ∷ 5 ∷ 9 ∷ [];
  quota_warned = true;
  last_send_monotonic = 9;
  auth_failed = false;
  unrecoverable_auth_failure = false;
}

busy-IsClocked : IsClocked busy 14
busy-IsClocked = record {
  ascending = ((omega arith, (omega arith, tt)), ((omega arith, tt), (tt, tt)));
  past = (omega arith, (omega arith, (omega arith, tt)));
}

busy_sends : sends_in_window busy 14 ≡ 2
unfolding sends_in_window
busy_sends = refl

busy_available : seconds_until_send_available busy 14 ≡ 1
unfolding seconds_until_send_available
busy_available = refl

allowed_after_example : is_rate_limited busy 16 ≡ false
allowed_after_example =
    allowed_after busy 14 busy-IsClocked 16 (omega arith) (omega (arith, busy_available))

abbrev one_handler : List (Op ℕ)
one_handler = subscribed 5 ∷ []
