-- ===== src/Device/Inbound/Order.antt =====
-- The order in which snapshots are published.
use py_mammotion.Base.{
  ℕ, ◌<◌, ◌≡◌, ◌≢◌, refl, ap, ◌∙◌, Bool, true, false, ◌&&◌, not, none, some, [], ◌∷◌, arith,
  is_empty,
}
use py_mammotion.Device.Sending.{
  TransportType, cloud_aliyun, cloud_mammotion, ble, TransportAvailability, connected, connecting,
  disconnected, unknown, DeviceAvailability,
}
use py_mammotion.Device.Raw.{is_connected, connection_state}
use py_mammotion.Device.Inbound.{
  DeviceModel, DeviceSnapshot, apply, is_ble, stamped, update_availability, emit_state,
  restart_keep_alive, Inbox, differing, diff, applied, emit_if, run_tasks, count_map_update,
  shut_down, reduced, received, on_raw_message,
}
use py_mammotion.Device.Inbound.Diff.{is_empty-append}

module _ {D M : Type 0} (model : DeviceModel D M) where
  -- The MQTT transport is up, the cloud has reported the device offline, and no task waits.
  abbrev pub flagged : TransportAvailability → Inbox D → Inbox D
  flagged b x = record x {
    availability = record { mqtt = connected; ble = b; mqtt_reported_offline = true };
    tasks = [];
    stopping = false;
  }

  abbrev back : TransportAvailability → DeviceAvailability
  back b = record { mqtt = connected; ble = b; mqtt_reported_offline = false }

  -- The snapshot that the cleared flag makes, in a task.
  abbrev waiting : TransportAvailability → Inbox D → Inbox D
  waiting b x =
      let m = apply model x.machine.current.raw (back b) x.machine in
      record x {
        machine = m;
        availability = back b;
        stopping = false;
        tasks = emit_state m.current ∷ restart_keep_alive ∷ [];
      }

  received-flagged :
      (now : ℕ) (t : TransportType) (msg : M) (b : TransportAvailability) (x : Inbox D)
      → t ≢ ble
      → is_connected b ≡ false
      → received model now t false msg (flagged b x) ≡ waiting b (stamped model now msg x)
  unfolding received stamped update_availability connection_state is_ble
  received-flagged now ble msg b x cloud off = absurd (cloud refl)
  received-flagged now t msg connected x cloud off = absurd (cc)
  received-flagged now cloud_aliyun msg connecting x cloud off = refl
  received-flagged now cloud_aliyun msg disconnected x cloud off = refl
  received-flagged now cloud_aliyun msg unknown x cloud off = refl
  received-flagged now cloud_mammotion msg connecting x cloud off = refl
  received-flagged now cloud_mammotion msg disconnected x cloud off = refl
  received-flagged now cloud_mammotion msg unknown x cloud off = refl

  abbrev stale : TransportAvailability → Inbox D → DeviceSnapshot D
  stale b x = (apply model x.machine.current.raw (back b) x.machine).current

  diff-new :
      (a c : DeviceSnapshot D)
      → is_empty (differing model model.field_names a.raw c.raw) ≡ false
      → is_empty (diff model a c) ≡ false
  unfolding diff
  diff-new a c new = simp (is_empty-append) (ground (arith, new))

  run_tasks-counted :
      (n : Bool) (b : TransportAvailability) (d : D) (x : Inbox D)
      → (run_tasks (count_map_update n (emit_if true (applied model d (waiting b x))))).emitted
        ≡ stale b x ∷ (applied model d (waiting b x)).machine.current ∷ x.emitted
  unfolding count_map_update emit_if run_tasks applied
  run_tasks-counted true b d x = refl
  run_tasks-counted false b d x = refl

  -- The frame's snapshot goes to the bus, and the one in the task after it.
  reduced-waiting :
      (t : TransportType) (msg : M) (b : TransportAvailability) (d : D) (x : Inbox D)
      → is_empty (differing model model.field_names x.machine.current.raw d) ≡ false
      → model.powers_off msg ≡ none
      → (run_tasks (reduced model t msg (some d) (waiting b x))).emitted
        ≡ stale b x ∷ (applied model d (waiting b x)).machine.current ∷ x.emitted
  unfolding reduced shut_down applied apply
  reduced-waiting t msg b d x new p =
      let y = applied model d (waiting b x) in
      let e = is_empty (diff model (stale b x) y.machine.current) in
      ap
        (λ o.
          (run_tasks (
            shut_down model t o
              (count_map_update (model.names_areas msg) (emit_if (not e && true) y)))).emitted)
        p
      ∙ ap
          (λ c.
            (run_tasks
              (count_map_update (model.names_areas msg) (emit_if (not c && true) y))).emitted)
          (diff-new (stale b x) y.machine.current new)
      ∙ run_tasks-counted (model.names_areas msg) b d x

  -- If MQTT is connected, BLE is not, the cloud has reported the device offline, the handle is not
  -- stopping, no task waits, and the handlers of the broker do not suspend: a frame over the cloud
  -- that the reducer turns into another device, and that announces no power-off, has two snapshots
  -- handed to the bus of the state, and the last one is the older one, with the device as it was
  -- before the frame.
  pub on_raw_message-stale :
      (now : ℕ) (t : TransportType) (msg : M) (b : TransportAvailability) (d : D) (x : Inbox D)
      → t ≢ ble
      → is_connected b ≡ false
      → model.reduce x.machine.current.raw msg ≡ some d
      → is_empty (differing model model.field_names x.machine.current.raw d) ≡ false
      → model.powers_off msg ≡ none
      → (old new : DeviceSnapshot D) × ((run_tasks
            (on_raw_message model now t false (some msg) (flagged b x))).emitted
          ≡ old ∷ new ∷ x.emitted)
        × (old.sequence < new.sequence)
        × (old.raw ≡ x.machine.current.raw)
        × (new.raw ≡ d)
  unfolding on_raw_message applied apply stamped
  on_raw_message-stale now t msg b d x cloud off r new p =
      let s = stamped model now msg x in
      (
        stale b s,
        (applied model d (waiting b s)).machine.current,
        ap
              (λ y.
                (run_tasks
                  (reduced model t msg (model.reduce y.machine.current.raw msg) y)).emitted)
              (received-flagged now t msg b x cloud off)
            ∙ ap (λ o. (run_tasks (reduced model t msg o (waiting b s))).emitted) r
            ∙ reduced-waiting t msg b d s new p,
        omega arith,
        refl,
        refl,
      )
