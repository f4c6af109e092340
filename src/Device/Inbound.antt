-- ===== src/Device/Inbound.antt =====
-- pymammotion/device/handle.py, class `DeviceHandle`: what it does with a frame, a status, properties
-- and an event of the device, `update_availability` with what it publishes, and `DeviceStateMachine` of
-- pymammotion/state/device_state.py.
--
-- The device and the messages are types `D` and `M`; what the state reducer makes of a message,
-- what its fields are and whether two devices have the same object or equal values in one, and what
-- the handle reads of a message are a parameter. The reducer returns none where it raises one of
-- the errors that the handle catches. A task that is created runs when the handler next suspends or
-- has ended; whether the broker's handlers suspend is a parameter of a frame. `emitted` has what is
-- handed to the bus of the state, the last first; each time is a whole tick.
pub mod Sequence
pub mod Diff
pub mod Order
use py_mammotion.Base.{
  maybe, ℕ, suc, ◌+◌, ◌-◌, String, Bool, true, false, ◌&&◌, ◌||◌, not, Option, none, some, List, [],
  ◌∷◌, ◌++◌, ◌==◌, nat_keys, if◌then◌else◌, ltb, is_empty,
}
use py_mammotion.Device.Sending.{
  TransportType, cloud_aliyun, cloud_mammotion, ble, TransportAvailability, unknown,
  DeviceAvailability, updated,
}
use py_mammotion.Device.Raw.{
  ConnectionState, state_connected, state_connecting, state_unavailable, connection_state,
}

pub record DeviceModel (D M : Type 0) : Type 0 where
  pub online : D → Bool
  pub enabled : D → Bool
  pub battery_val : D → ℕ
  pub field_names : List String
  pub identical : String → D → D → Bool
  pub equal : String → D → D → Bool
  pub reduce : D → M → Option D
  pub has_report_data : M → Bool
  pub names_areas : M → Bool
  pub powers_off : M → Option ℕ

pub record DeviceSnapshot (D : Type 0) : Type 0 where
  pub sequence : ℕ
  pub connection : ConnectionState
  pub is_online : Bool
  pub is_enabled : Bool
  pub battery_level : ℕ
  pub raw : D

pub record DeviceStateMachine (D : Type 0) : Type 0 where
  pub sequence : ℕ
  pub current : DeviceSnapshot D

pub data Task (D : Type 0) : Type 0 where
  emit_state : DeviceSnapshot D → Task D
  restart_keep_alive : Task D

-- `cloud_transport` is the type of the registered cloud transport, if any.
pub record Inbox (D : Type 0) : Type 0 where
  pub machine : DeviceStateMachine D
  pub availability : DeviceAvailability
  pub cloud_transport : Option TransportType
  pub stopping : Bool
  pub last_report_at : ℕ
  pub last_report_data_at : ℕ
  pub tasks : List (Task D)
  pub emitted : List (DeviceSnapshot D)
  pub restarts : ℕ
  pub map_updates : ℕ
  pub shutdowns : List ℕ
  pub report_requests : ℕ

unfoldable pub state_eq : ConnectionState → ConnectionState → Bool
state_eq state_connected state_connected = true
state_eq state_connecting state_connecting = true
state_eq state_unavailable state_unavailable = true
state_eq a b = false

unfoldable pub bool_eq : Bool → Bool → Bool
bool_eq true b = b
bool_eq false b = not b

unfoldable pub name_if : Bool → String → List String
name_if true name = name ∷ []
name_if false name = []

unfoldable pub no_availability : DeviceAvailability
no_availability = record { mqtt = unknown; ble = unknown; mqtt_reported_offline = false }

unfoldable pub is_reconnected : ConnectionState → ConnectionState → Bool
is_reconnected state_connected new = false
is_reconnected old state_connected = true
is_reconnected old new = false

unfoldable pub is_ble : TransportType → Bool
is_ble ble = true
is_ble cloud_aliyun = false
is_ble cloud_mammotion = false

module _ {D : Type 0} where
  unfoldable pub emit_current : Inbox D → Inbox D
  emit_current x = record x { emitted = x.machine.current ∷ x.emitted }

  unfoldable pub emit_if : Bool → Inbox D → Inbox D
  unfolding emit_current
  emit_if true x = emit_current x
  emit_if false x = x

  unfoldable pub create_task : Task D → Inbox D → Inbox D
  create_task t x = record x { tasks = x.tasks ++ t ∷ [] }

  unfoldable pub run_task : Task D → Inbox D → Inbox D
  run_task (emit_state s) x = record x { emitted = s ∷ x.emitted }
  run_task restart_keep_alive x = record x { restarts = x.restarts + 1 }

  unfoldable pub run_all : List (Task D) → Inbox D → Inbox D
  unfolding run_task
  run_all [] x = x
  run_all (t ∷ ts) x = run_all ts (run_task t x)

  -- What runs while a handler is suspended, or after it has ended.
  unfoldable pub run_tasks : Inbox D → Inbox D
  unfolding run_all
  run_tasks x = run_all x.tasks (record x { tasks = [] })

  unfoldable pub schedule_state : Inbox D → Inbox D
  unfolding create_task
  schedule_state x = create_task (emit_state x.machine.current) x

  unfoldable pub keep_alive_if : Bool → Inbox D → Inbox D
  unfolding create_task
  keep_alive_if true x = create_task restart_keep_alive x
  keep_alive_if false x = x

  unfoldable pub suspended_if : Bool → Inbox D → Inbox D
  unfolding run_tasks
  suspended_if true x = run_tasks x
  suspended_if false x = x

  unfoldable pub count_map_update : Bool → Inbox D → Inbox D
  count_map_update true x = record x { map_updates = x.map_updates + 1 }
  count_map_update false x = x

  unfoldable pub request_if : Bool → Inbox D → Inbox D
  request_if true x = record x { report_requests = x.report_requests + 1 }
  request_if false x = x

module _ {D M : Type 0} (model : DeviceModel D M) where
  -- `_make_snapshot`, `_diff`, `apply` and `restore`.
  unfoldable pub make_snapshot : ℕ → D → DeviceAvailability → DeviceSnapshot D
  unfolding connection_state
  make_snapshot n device a = record {
    sequence = n;
    connection = connection_state a;
    is_online = model.online device;
    is_enabled = model.enabled device;
    battery_level = model.battery_val device;
    raw = device;
  }

  unfoldable pub differing : List String → D → D → List String
  unfolding name_if
  differing [] old new = []
  differing (name ∷ names) old new =
      name_if (not (model.identical name old new) && not (model.equal name old new)) name
      ++ differing names old new

  unfoldable pub diff : DeviceSnapshot D → DeviceSnapshot D → List String
  unfolding state_eq bool_eq name_if differing
  diff old new =
      name_if (not (state_eq old.connection new.connection)) "connection_state"
      ++ (name_if (not (bool_eq old.is_online new.is_online)) "online"
          ++ (name_if (not (bool_eq old.is_enabled new.is_enabled)) "enabled"
              ++ (name_if (not (old.battery_level == new.battery_level)) "battery_level"
                  ++ differing model.field_names old.raw new.raw)))

  unfoldable pub apply : D → DeviceAvailability → DeviceStateMachine D → DeviceStateMachine D
  unfolding make_snapshot
  apply device a m = record {
    sequence = m.sequence + 1;
    current = make_snapshot (m.sequence + 1) device a;
  }

  unfoldable pub restore : D → DeviceStateMachine D → DeviceStateMachine D
  unfolding make_snapshot no_availability
  restore device m = record m { current = make_snapshot m.sequence device no_availability }

  -- The new snapshot is the current one; the handler decides whether it goes to the bus.
  unfoldable pub applied : D → Inbox D → Inbox D
  unfolding apply
  applied device x = record x { machine = apply device x.availability x.machine }

  -- `update_availability`: a change of the connection state is published by a task.
  unfoldable pub publish : ConnectionState → Inbox D → Inbox D
  unfolding state_eq applied schedule_state is_reconnected keep_alive_if connection_state
  publish old x =
      if not (state_eq old (connection_state x.availability)) && not x.stopping
      then keep_alive_if (is_reconnected old (connection_state x.availability))
          (schedule_state (applied x.machine.current.raw x))
      else x

  unfoldable pub update_availability :
      TransportType → TransportAvailability → Option Bool → Inbox D → Inbox D
  unfolding publish updated
  update_availability t v flag x =
      publish (connection_state x.availability)
        (record x { availability = updated t v flag x.availability })

  unfoldable pub flag_offline : Bool → Inbox D → Inbox D
  unfolding update_availability maybe
  flag_offline offline x =
      maybe x.cloud_transport x (λ t. update_availability t x.availability.mqtt (some offline) x)

  -- `on_raw_message`, from the frame that `LubaMsg().parse` gives.
  unfoldable pub stamped : ℕ → M → Inbox D → Inbox D
  stamped now msg x = record x {
    last_report_at = now;
    last_report_data_at = if model.has_report_data msg then now else x.last_report_data_at;
  }

  unfoldable pub clear_flag : TransportType → Inbox D → Inbox D
  unfolding update_availability is_ble
  clear_flag t x =
      if x.availability.mqtt_reported_offline && not (is_ble t)
      then update_availability t x.availability.mqtt (some false) x
      else x

  unfoldable pub shut_down : TransportType → Option ℕ → Inbox D → Inbox D
  unfolding update_availability
  shut_down t none x = x
  shut_down t (some power_type) x =
      let x' = update_availability t x.availability.mqtt (some true) x in
      record x' { shutdowns = power_type ∷ x'.shutdowns }

  unfoldable pub reduced : TransportType → M → Option D → Inbox D → Inbox D
  unfolding applied emit_if diff count_map_update shut_down
  reduced t msg none x = x
  reduced t msg (some device) x =
      let x' = applied device x in
      shut_down t (model.powers_off msg) (
        count_map_update (model.names_areas msg) (
          emit_if (not (is_empty (diff x.machine.current x'.machine.current)) && not x.stopping)
            x'))

  unfoldable pub received : ℕ → TransportType → Bool → M → Inbox D → Inbox D
  unfolding stamped clear_flag suspended_if
  received now t broker_suspends msg x =
      suspended_if broker_suspends (clear_flag t (stamped now msg x))

  unfoldable pub on_raw_message : ℕ → TransportType → Bool → Option M → Inbox D → Inbox D
  unfolding received reduced
  on_raw_message now t broker_suspends none x = x
  on_raw_message now t broker_suspends (some msg) x =
      let x' = received now t broker_suspends msg x in
      reduced t msg (model.reduce x'.machine.current.raw msg) x'

  -- `on_status_message`; `change` puts the status into the device.
  unfoldable pub settle_flag : Bool → Bool → Inbox D → Inbox D
  unfolding bool_eq flag_offline
  settle_flag was_offline online x =
      if bool_eq was_offline (not online) then x else flag_offline (not online) x

  unfoldable pub on_status_message : ℕ → Bool → (D → D) → Inbox D → Inbox D
  unfolding applied emit_if request_if settle_flag
  on_status_message now online change x =
      let x' = emit_if (not x.stopping) (applied (change x.machine.current.raw) x) in
      let was_offline = x'.availability.mqtt_reported_offline in
      settle_flag was_offline online (
        request_if (was_offline && online && (not x'.stopping && ltb (x'.last_report_at + 60) now))
          x')

  -- `on_mammotion_properties`, and the like of `on_device_properties` and `on_device_event`: the flag
  -- is cleared, and the device that results is published.
  unfoldable pub clear_cloud_flag : Inbox D → Inbox D
  unfolding flag_offline
  clear_cloud_flag x = if x.availability.mqtt_reported_offline then flag_offline false x else x

  unfoldable pub on_properties : (D → D) → Inbox D → Inbox D
  unfolding clear_cloud_flag applied emit_if
  on_properties change x =
      let x' = clear_cloud_flag x in
      emit_if (not x.stopping) (applied (change x'.machine.current.raw) x')

  unfoldable pub restore_device : D → Inbox D → Inbox D
  unfolding restore
  restore_device device x = record x { machine = restore device x.machine }

-- What the handle is called with, by the transports and by a restore, and the tasks that run between.
pub data Input (D M : Type 0) : Type 0 where
  raw_message : ℕ → TransportType → Bool → Option M → Input D M
  status_message : ℕ → Bool → (D → D) → Input D M
  properties : (D → D) → Input D M
  availability : TransportType → TransportAvailability → Input D M
  restored : D → Input D M
  tasks_run : Input D M

module _ {D M : Type 0} (model : DeviceModel D M) where
  unfoldable pub step : Input D M → Inbox D → Inbox D
  unfolding on_raw_message on_status_message on_properties update_availability restore_device
      run_tasks
  step (raw_message now t suspends msg) x = on_raw_message model now t suspends msg x
  step (status_message now online change) x = on_status_message model now online change x
  step (properties change) x = on_properties model change x
  step (availability t v) x = update_availability model t v none x
  step (restored device) x = restore_device model device x
  step tasks_run x = run_tasks x

  unfoldable pub run : List (Input D M) → Inbox D → Inbox D
  unfolding step
  run [] x = x
  run (i ∷ is) x = run is (step i x)
