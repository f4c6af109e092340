-- ===== src/Tests/InboundTests.antt =====
-- A device that is a number, and whose messages are numbers.
use py_mammotion.Base.{
  ℕ, ◌+◌, ◌≡◌, ◌<◌, ◌↔◌, refl, true, false, none, some, [], ◌∷◌, List, eqb, arith,
}
use py_mammotion.Device.Sending.{cloud_aliyun, connected, disconnected}
use py_mammotion.Device.Raw.{is_connected, state_connected}
use py_mammotion.Device.Inbound.{
  DeviceModel, DeviceSnapshot, Inbox, differing, make_snapshot, Input, raw_message, status_message,
  tasks_run, run, run_tasks, on_raw_message, reduced,
}
use py_mammotion.Device.Inbound.Sequence.{published, IsNumbered, run-IsNumbered}
use py_mammotion.Device.Inbound.Diff.{Same, reduced-silent_iff}
use py_mammotion.Device.Inbound.Order.{flagged, on_raw_message-stale}

-- A message is the new state of the device.
abbrev numeric : DeviceModel ℕ ℕ
numeric = record {
  online = λ d. true;
  enabled = λ d. true;
  battery_val = λ d. 80;
  field_names = "report_data" ∷ [];
  identical = λ name a b. false;
  equal = λ name a b. eqb a b;
  reduce = λ d m. some m;
  has_report_data = λ m. true;
  names_areas = λ m. false;
  powers_off = λ m. none;
}

abbrev fresh : Inbox ℕ
fresh = record {
  machine = record {
    sequence = 4;
    current = record {
      sequence = 4;
      connection = state_connected;
      is_online = true;
      is_enabled = true;
      battery_level = 80;
      raw = 7;
    };
  };
  availability = record { mqtt = connected; ble = disconnected; mqtt_reported_offline = false };
  cloud_transport = some cloud_aliyun;
  stopping = false;
  last_report_at = 100;
  last_report_data_at = 100;
  tasks = [];
  emitted = [];
  restarts = 0;
  map_updates = 0;
  shutdowns = [];
  report_requests = 0;
}

fresh-IsNumbered : IsNumbered fresh
unfolding published
fresh-IsNumbered n = ground arith

abbrev goes_and_comes : List (Input ℕ ℕ)
goes_and_comes =
    status_message 200 false (λ d. d) ∷ raw_message 210 cloud_aliyun false (some 8) ∷ tasks_run ∷ []

run-IsNumbered_example : IsNumbered (run numeric goes_and_comes fresh)
run-IsNumbered_example = run-IsNumbered numeric goes_and_comes fresh fresh-IsNumbered

reduced-silent_iff_example :
    ((reduced numeric cloud_aliyun 8 (some 8) fresh).emitted ≡ fresh.emitted)
    ↔ Same numeric fresh.machine.current
        (make_snapshot numeric (fresh.machine.sequence + 1) 8 fresh.availability)
reduced-silent_iff_example = reduced-silent_iff numeric cloud_aliyun 8 8 fresh refl refl

on_raw_message-stale_example :
    (old new : DeviceSnapshot ℕ) × ((run_tasks (
        on_raw_message numeric 210 cloud_aliyun false
          (some 8)
          (flagged numeric disconnected fresh))).emitted
      ≡ old ∷ new ∷ fresh.emitted)
    × (old.sequence < new.sequence)
    × (old.raw ≡ fresh.machine.current.raw)
    × ◌≡◌ {A = ℕ} new.raw 8
unfolding is_connected differing
on_raw_message-stale_example =
    on_raw_message-stale numeric 210 cloud_aliyun 8 disconnected 8 fresh (λ e. absurd (cc e)) refl
      refl refl refl
