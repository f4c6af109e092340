-- ===== src/Tests/DeviceTests.antt =====
-- A mower with the Aliyun transport and a BLE link that is out of reach, and a debounced bus.
use py_mammotion.Base.{List, ℕ, maybe, ◌≡◌, ◌↔◌, refl, true, false, none, some, [], ◌∷◌, arith}
use py_mammotion.Transport.RateLimit.{
  Transport, defaults, is_rate_limited, is_usable, is_send_blocked, sends_in_window,
}
use py_mammotion.Device.Sending.{
  TransportType, cloud_aliyun, ble, connected, disconnected, Handle, World, device_offline,
  transport_error, failed, active_transport, send_marked, command,
}
use py_mammotion.Device.Sending.Selection.{Ruled, active_transport_iff}
use py_mammotion.Device.Raw.{send_raw}
use py_mammotion.Device.Raw.Once.{Once, send_raw-Once}
use py_mammotion.Device.Raw.Offline.{handle_of, send_raw-flagged}
use py_mammotion.Device.Polling.{
  Moment, Round, mqtt_poll_interval, mqtt_new_poll_interval, mqtt_activity_loop,
}
use py_mammotion.Device.Polling.Spacing.{AtLeast, Spaced, mqtt_activity_loop-Spaced}
use py_mammotion.Device.Debounce.{init, emit, Reaches, started, given}
use py_mammotion.Device.Debounce.Timely.{OnTime, Reaches-OnTime}

abbrev fresh : Transport
fresh = record {
  limits = defaults;
  error_timestamps = [];
  rate_limited_until = 0;
  send_timestamps = [];
  quota_warned = false;
  last_send_monotonic = 0;
  auth_failed = false;
  unrecoverable_auth_failure = false;
}

abbrev banned : Transport
banned = record fresh { rate_limited_until = 500 }

abbrev mower : Handle
mower = record {
  aliyun = some fresh;
  mammotion = none;
  ble = some (record { is_connected = false; usable = false });
  availability = record { mqtt = connected; ble = disconnected; mqtt_reported_offline = false };
  last_aliyun_sync = 100;
  last_mammotion_sync = 0;
  version_is_rate_limited = false;
  unbound_migrating = false;
  attempts = [];
}

-- Every cloud send finds the device offline.
abbrev offline : World
offline = record {
  on_send =
      λ t f q. record { error = some device_offline; ble_up = false; notified = disconnected ∷ [] };
  on_connect =
      λ q. record { error = some transport_error; ble_up = false; notified = disconnected ∷ [] };
}

active_transport_iff_example :
    (active_transport mower ≡ some cloud_aliyun) ↔ Ruled mower cloud_aliyun
active_transport_iff_example = active_transport_iff mower cloud_aliyun

abbrev migrating : Handle
migrating = record mower {
  aliyun = some (record fresh { auth_failed = true });
  mammotion = some fresh;
}

send_raw-Once_example : Once 0 (send_raw offline 105 7 mower)
send_raw-Once_example = send_raw-Once offline 105 7 mower

chosen : active_transport mower ≡ some cloud_aliyun
unfolding active_transport is_usable
chosen = refl

abbrev attempted : Handle
attempted = record mower {
  aliyun = some (record fresh { error_timestamps = 105 ∷ [] });
  attempts =
      record { transport = cloud_aliyun; frame = command 7; error = some device_offline } ∷ [];
}

finds_offline : send_marked offline 105 cloud_aliyun 7 mower ≡ failed device_offline attempted
unfolding send_marked py_mammotion.Transport.RateLimit.is_send_blocked is_rate_limited
    py_mammotion.Transport.RateLimit.sends_in_window
finds_offline = refl

send_raw-flagged_example :
    ((handle_of (send_raw offline 105 7 mower)).availability.mqtt_reported_offline ≡ true)
    × ((x : TransportType)
        → active_transport (handle_of (send_raw offline 105 7 mower)) ≡ some x
        → x ≡ ble)
send_raw-flagged_example =
    send_raw-flagged offline 105 7 mower attempted cloud_aliyun chosen finds_offline

abbrev flagged_mower : Handle
flagged_mower = record mower {
  availability = record { mqtt = connected; ble = disconnected; mqtt_reported_offline = true };
}

-- Snapshots 1 and 2 at 10 and 11, with an interval of 3 and a longest wait of 5.
two_snapshots : Reaches 3 5 11 (some 2) (some 10) (emit 11 2 (emit 10 1 (init 3 5)))
unfolding init emit py_mammotion.Device.Debounce.suppress py_mammotion.Device.Debounce.burst_start
    maybe py_mammotion.Device.Debounce.since_after
two_snapshots = given 11 2 (given 10 1 started (omega arith) refl) (omega arith) refl

Reaches-OnTime_example : OnTime 5 11 (some 2) (some 10) (emit 11 2 (emit 10 1 (init 3 5)))
Reaches-OnTime_example = Reaches-OnTime 3 5 11 (some 2) (some 10) _ two_snapshots

-- An idle mower that was last heard at 100: a poll at 700, none at 1200, one at 1300.
abbrev silent_at : ℕ → Moment
silent_at t = record {
  now = t;
  handle = mower;
  last_received = 100 ∷ [];
  report = some (record { sys_status = 11; charge_state = 0; battery_val = 80 });
  ble_stream_active = false;
  is_saga_active = false;
}

abbrev rounds : List Round
rounds =
    record { before = silent_at 500; rearmed = false; after = silent_at 700 }
    ∷ record { before = silent_at 700; rearmed = true; after = silent_at 1200 }
    ∷ record { before = silent_at 1300; rearmed = false; after = silent_at 1300 }
    ∷ []

polls_twice :
    mqtt_activity_loop mqtt_poll_interval mqtt_new_poll_interval rounds 0
    ≡ silent_at 700 ∷ silent_at 1300 ∷ []
unfolding mqtt_activity_loop is_usable is_send_blocked is_rate_limited sends_in_window
polls_twice = refl

AtLeast-mqtt_poll_interval : AtLeast 300 mqtt_poll_interval
AtLeast-mqtt_poll_interval = (omega arith, omega arith, omega arith, omega arith)

AtLeast-mqtt_new_poll_interval : AtLeast 300 mqtt_new_poll_interval
AtLeast-mqtt_new_poll_interval = (omega arith, omega arith, omega arith, omega arith)

mqtt_activity_loop-Spaced_example :
    Spaced 300 0 (mqtt_activity_loop mqtt_poll_interval mqtt_new_poll_interval rounds 0)
mqtt_activity_loop-Spaced_example =
    mqtt_activity_loop-Spaced 300 mqtt_poll_interval mqtt_new_poll_interval rounds 0
      AtLeast-mqtt_poll_interval AtLeast-mqtt_new_poll_interval
