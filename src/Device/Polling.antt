-- ===== src/Device/Polling.antt =====
-- pymammotion/device/mqtt_loop.py, the loop that polls a silent device, with `device_mode` and
-- `in_no_request_mode` of pymammotion/device/handle.py.
--
-- What the other tasks make of the handle while the loop sleeps is a parameter: a round has the moment
-- at which it starts and, for the sleep that waits for the end of the interval, whether it was cut
-- short and the moment after it. Between two sleeps the loop does not await, so all its reads there are
-- of one moment. The intervals are a parameter, since the environment sets them. Times are whole ticks.
pub mod Spacing
use py_mammotion.Base.{
  maybe, ℕ, ◌+◌, Bool, true, false, ◌&&◌, not, Option, none, some, List, [], ◌∷◌, if◌then◌else◌,
  ltb, leb, elem, nat_keys,
}
use py_mammotion.Transport.RateLimit.{Transport, is_send_blocked, seconds_until_send_available}
use py_mammotion.Device.Sending.{Handle, has_usable_transport, ble_connected}

pub data DeviceMode : Type 0 where
  active : DeviceMode
  docked_charging : DeviceMode
  docked_full : DeviceMode
  idle : DeviceMode

pub record Intervals : Type 0 where
  pub when_active : ℕ
  pub when_docked_charging : ℕ
  pub when_docked_full : ℕ
  pub when_idle : ℕ

-- The tables without the environment's settings, in seconds.
abbrev pub mqtt_poll_interval : Intervals
mqtt_poll_interval = record {
  when_active = 900;
  when_docked_charging = 1800;
  when_docked_full = 3600;
  when_idle = 900;
}

abbrev pub mqtt_new_poll_interval : Intervals
mqtt_new_poll_interval = record {
  when_active = 600;
  when_docked_charging = 300;
  when_docked_full = 3600;
  when_idle = 600;
}

abbrev pub mowing_active_modes : List ℕ
mowing_active_modes = 13 ∷ 14 ∷ 19 ∷ 39 ∷ []

abbrev pub no_request_modes : List ℕ
no_request_modes = 31 ∷ 32 ∷ 34 ∷ 35 ∷ 16 ∷ 36 ∷ 16 ∷ 17 ∷ 20 ∷ []

pub record Report : Type 0 where
  pub sys_status : ℕ
  pub charge_state : ℕ
  pub battery_val : ℕ

-- `report` is none for a device without report data; `last_received` has the time of the last frame of
-- each transport.
pub record Moment : Type 0 where
  pub now : ℕ
  pub handle : Handle
  pub last_received : List ℕ
  pub report : Option Report
  pub ble_stream_active : Bool
  pub is_saga_active : Bool

unfoldable pub docked_mode : Report → DeviceMode
docked_mode r =
    if ltb 0 r.charge_state
    then if leb 100 r.battery_val then docked_full else docked_charging
    else idle

unfoldable pub device_mode : Option Report → DeviceMode
unfolding docked_mode elem
device_mode none = idle
device_mode (some r) = if elem r.sys_status mowing_active_modes then active else docked_mode r

unfoldable pub in_no_request_mode : Option Report → Bool
unfolding elem
in_no_request_mode none = false
in_no_request_mode (some r) = elem r.sys_status no_request_modes

unfoldable pub at_mode : Intervals → DeviceMode → ℕ
at_mode i active = i.when_active
at_mode i docked_charging = i.when_docked_charging
at_mode i docked_full = i.when_docked_full
at_mode i idle = i.when_idle

unfoldable pub poll_interval : Intervals → Intervals → Moment → ℕ
unfolding at_mode device_mode
poll_interval old new m =
    at_mode (if m.handle.version_is_rate_limited then old else new) (device_mode m.report)

unfoldable pub larger : ℕ → ℕ → ℕ
larger a b = if ltb a b then b else a

unfoldable pub latest : List ℕ → ℕ
unfolding larger
latest [] = 0
latest (t ∷ ts) = larger t (latest ts)

-- What a round ends with: a sleep of that length, another look at once, or a poll.
pub data Verdict : Type 0 where
  sleeps : ℕ → Verdict
  looks_again : Verdict
  polls : Moment → Verdict

unfoldable pub backoff : Transport → ℕ → ℕ
unfolding larger
backoff t now =
    let wait = larger 60 (seconds_until_send_available t now) in
    if ltb wait 43200 then wait else 43200

unfoldable pub registered : Handle → Bool
unfolding maybe
registered h =
    maybe h.aliyun (maybe h.mammotion (maybe h.ble false (λ b. true)) (λ t. true)) (λ t. true)

unfoldable pub cloud : Handle → Option Transport
unfolding maybe
cloud h = maybe h.aliyun h.mammotion (λ t. some t)

-- The cloud transport whose quota keeps the loop from polling.
unfoldable pub blocking : Moment → Option Transport
unfolding cloud ble_connected maybe
blocking m = maybe (cloud m.handle) none (λ t.
    if is_send_blocked t m.now m.handle.version_is_rate_limited && not (ble_connected m.handle.ble)
    then some t
    else none)

-- The checks from `if not handle._transports` on.
unfoldable pub quiet_checks : ℕ → Moment → Verdict
unfolding in_no_request_mode
quiet_checks interval m =
    if m.is_saga_active
    then sleeps interval
    else if in_no_request_mode m.report
    then sleeps interval
    else polls m

unfoldable pub checks : ℕ → Moment → Verdict
unfolding registered blocking backoff quiet_checks maybe
checks interval m =
    if registered m.handle
    then maybe (blocking m) (quiet_checks interval m) (λ t. sleeps (backoff t m.now))
    else sleeps interval

pub record Round : Type 0 where
  pub before : Moment
  pub rearmed : Bool
  pub after : Moment

-- `time.monotonic() - last_activity < interval`, and the part of the loop that waits for it.
unfoldable pub recent_activity : ℕ → ℕ → Moment → Bool
unfolding larger latest
recent_activity interval last_poll_sent_at m =
    ltb m.now (interval + larger (latest m.last_received) last_poll_sent_at)

unfoldable pub timed : ℕ → ℕ → Round → Verdict
unfolding recent_activity checks
timed interval last_poll_sent_at r =
    if recent_activity interval last_poll_sent_at r.before
    then if r.rearmed
      then looks_again
      else if recent_activity interval last_poll_sent_at r.after
      then looks_again
      else checks interval r.after
    else checks interval r.before

unfoldable pub round : Intervals → Intervals → ℕ → Round → Verdict
unfolding poll_interval has_usable_transport timed
round old new last_poll_sent_at r =
    let interval = poll_interval old new r.before in
    if r.before.ble_stream_active
    then sleeps 30
    else if has_usable_transport r.before.handle
    then timed interval last_poll_sent_at r
    else sleeps interval

-- The moments at which the loop polls, the first one first.
unfoldable pub polled : Verdict → (ℕ → List Moment) → ℕ → List Moment
polled (sleeps d) rest last = rest last
polled looks_again rest last = rest last
polled (polls m) rest last = m ∷ rest m.now

unfoldable pub mqtt_activity_loop : Intervals → Intervals → List Round → ℕ → List Moment
unfolding round polled
mqtt_activity_loop old new [] last = []
mqtt_activity_loop old new (r ∷ rs) last =
    polled (round old new last r) (mqtt_activity_loop old new rs) last
