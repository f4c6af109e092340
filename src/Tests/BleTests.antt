-- ===== src/Tests/BleTests.antt =====
-- A BLE transport with a threshold of three failures, and the item of a saga.
use py_mammotion.Base.{
  ℕ, ◌+◌, ◌≡◌, refl, true, false, none, some, [], ◌∷◌, arith, ◌==◌, nat_keys, if◌then◌else◌,
}
use py_mammotion.Transport.Ble.{BleTransport, Radio, bleak, connect}
use py_mammotion.Transport.Ble.Cooldown.{
  NeverSyncs, connects, state, threshold-connects, sync_failures_never_cool_down,
}
use py_mammotion.Messaging.CommandQueue.{
  CommandQueue, WorkResult, success, gateway_timeout, run_work,
}
use py_mammotion.Messaging.SagaItem.{Hooks, over, interrupted, run_result, process_saga}
use py_mammotion.Messaging.SagaItem.Released.{IsReleased, process_saga-IsReleased}

abbrev radio_dead : Radio
radio_dead = record {
  discovered = none;
  establish = some bleak;
  start_notify = none;
  ble_sync = none;
}

-- The link comes up, and the first write fails.
abbrev write_fails : Radio
write_fails = record {
  discovered = none;
  establish = none;
  start_notify = none;
  ble_sync = some bleak;
}

abbrev link : BleTransport
link = record {
  config = record {
    self_managed_scanning = false;
    connect_failure_threshold = 3;
    connect_cooldown_seconds = 120;
    min_rssi = 38;
  };
  ble_device = some 7;
  is_connected = false;
  consecutive_failures = 0;
  connect_cooldown_until = 0;
  last_rssi = none;
}

threshold-connects_example :
    ((connects ((10, radio_dead) ∷ (20, radio_dead) ∷ []) link).connect_cooldown_until ≡ 0)
    × ((state (
          connect 30 radio_dead
            (connects ((10, radio_dead) ∷ (20, radio_dead) ∷ []) link))).connect_cooldown_until
        ≡ 30 + 120)
threshold-connects_example =
    threshold-connects 7 30 radio_dead ((10, radio_dead) ∷ (20, radio_dead) ∷ []) link refl refl
      refl refl (refl, (refl, tt)) (omega arith, (omega arith, tt)) (omega arith) refl

never : (now : ℕ) → NeverSyncs (now, write_fails)
never now = (bleak, refl, refl, refl, λ e. absurd (cc e))

sync_failures_never_cool_down_example :
    (connects
      ((10, write_fails) ∷ (20, write_fails) ∷ (30, write_fails) ∷ [])
      link).connect_cooldown_until
    ≡ 0
sync_failures_never_cool_down_example =
    sync_failures_never_cool_down 7 ((10, write_fails) ∷ (20, write_fails) ∷ (30, write_fails) ∷ [])
      link refl refl (omega arith) (never 10, (never 20, (never 30, tt)))
      (omega arith, (omega arith, (omega arith, tt)))

abbrev idle : CommandQueue
idle = record {
  queue = [];
  exclusive_free = true;
  transport_gate = true;
  seq = 1;
  pending_dedup_keys = [];
}

abbrev all_hooks : Hooks
all_hooks = record {
  starts = true;
  ends = true;
  completes = true;
  on_start = λ n. over;
  on_end = λ n. over;
  on_success = λ n. if n == 2 then interrupted else over;
}

abbrev second_time : ℕ → WorkResult
second_time n = if n == 1 then gateway_timeout else success

process_saga-IsReleased_example :
    IsReleased all_hooks idle
      (run_work (run_result all_hooks second_time))
      (process_saga all_hooks second_time idle)
process_saga-IsReleased_example = process_saga-IsReleased all_hooks second_time idle
