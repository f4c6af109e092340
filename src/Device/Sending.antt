-- ===== src/Device/Sending.antt =====
-- pymammotion/device/handle.py, class `DeviceHandle`: `active_transport`, `send_raw` and what they
-- call, with `send` of pymammotion/transport/mqtt.py and aliyun_mqtt.py.
--
-- What the network does with a frame that is handed over is the parameter `World`; it may depend on
-- all attempts before, which the handle lists, the last first. A reply says also whether the BLE link
-- is up when the send has ended, and which availabilities BLE reported to its listener meanwhile, each
-- of which goes through `update_availability`. The background tasks that reconnect
-- BLE, the emission of the snapshots that an availability makes and the logging are left out.
pub mod Selection
pub mod Accepted
use py_mammotion.Base.{
  maybe, ℕ, zero, suc, ◌+◌, ◌-◌, Bool, true, false, ◌&&◌, ◌||◌, not, Option, none, some, List, [],
  ◌∷◌, if◌then◌else◌, ltb,
}
use py_mammotion.Transport.RateLimit as RateLimit
use py_mammotion.Transport.RateLimit.{
  Transport, is_rate_limited, is_send_blocked, record_send, record_error, set_rate_limited,
  is_usable,
}

pub data TransportType : Type 0 where
  cloud_aliyun : TransportType
  cloud_mammotion : TransportType
  ble : TransportType

pub data TransportAvailability : Type 0 where
  connected : TransportAvailability
  connecting : TransportAvailability
  disconnected : TransportAvailability
  unknown : TransportAvailability

pub record DeviceAvailability : Type 0 where
  pub mqtt : TransportAvailability
  pub ble : TransportAvailability
  pub mqtt_reported_offline : Bool

-- `transport_error` stands for the other subclasses of TransportError, `other_error` for an exception
-- that is none.
pub data SendError : Type 0 where
  rate_limited : SendError
  no_transport_available : SendError
  transport_error : SendError
  too_many_requests : SendError
  device_offline : SendError
  device_unbound : SendError
  other_error : SendError

-- A keep-alive `todev_ble_sync(3)`, or the payload of a command.
pub data Frame : Type 0 where
  sync : Frame
  command : ℕ → Frame

pub record Attempt : Type 0 where
  pub transport : TransportType
  pub frame : Frame
  pub error : Option SendError

pub record Reply : Type 0 where
  pub error : Option SendError
  pub ble_up : Bool
  pub notified : List TransportAvailability

pub record World : Type 0 where
  pub on_send : TransportType → Frame → List Attempt → Reply
  pub on_connect : List Attempt → Reply

pub record BleLink : Type 0 where
  pub is_connected : Bool
  pub usable : Bool

pub record Handle : Type 0 where
  pub aliyun : Option Transport
  pub mammotion : Option Transport
  pub ble : Option BleLink
  pub availability : DeviceAvailability
  pub last_aliyun_sync : ℕ
  pub last_mammotion_sync : ℕ
  pub version_is_rate_limited : Bool
  pub unbound_migrating : Bool
  pub attempts : List Attempt

pub data Outcome : Type 0 where
  done : Handle → Outcome
  failed : SendError → Handle → Outcome

-- `_pick_cloud_transport`, `_cloud_transport_usable` and `active_transport`.
unfoldable pub pick_cloud_transport : Handle → Option TransportType
unfolding maybe
pick_cloud_transport h =
    maybe h.aliyun (maybe h.mammotion none (λ t. some cloud_mammotion)) (λ t. some cloud_aliyun)

unfoldable pub link_usable : Option Transport → Bool
link_usable none = false
link_usable (some t) = is_usable t

unfoldable pub cloud_transport_usable : Handle → TransportType → Bool
unfolding link_usable
cloud_transport_usable h cloud_aliyun =
    link_usable h.aliyun && not h.availability.mqtt_reported_offline
cloud_transport_usable h cloud_mammotion =
    link_usable h.mammotion && not h.availability.mqtt_reported_offline
cloud_transport_usable h ble = false

unfoldable pub ble_connected : Option BleLink → Bool
ble_connected none = false
ble_connected (some l) = l.is_connected

unfoldable pub ble_usable : Option BleLink → Bool
ble_usable none = false
ble_usable (some l) = l.usable

unfoldable pub or_ble : Bool → Option TransportType
or_ble true = some ble
or_ble false = none

unfoldable pub usable_cloud : Handle → Option TransportType
unfolding pick_cloud_transport cloud_transport_usable maybe
usable_cloud h =
    maybe (pick_cloud_transport h) none (λ t. if cloud_transport_usable h t then some t else none)

unfoldable pub active_transport : Handle → Option TransportType
unfolding ble_connected ble_usable or_ble usable_cloud maybe
active_transport h =
    if ble_connected h.ble
    then some ble
    else maybe (usable_cloud h) (or_ble (ble_usable h.ble)) (λ t. some t)

unfoldable pub has_usable_transport : Handle → Bool
unfolding active_transport maybe
has_usable_transport h = maybe (active_transport h) false (λ t. true)

-- The link of a cloud transport, and the time of the last sync on it.
unfoldable pub cloud_link : Handle → TransportType → Option Transport
cloud_link h cloud_aliyun = h.aliyun
cloud_link h cloud_mammotion = h.mammotion
cloud_link h ble = none

unfoldable pub set_cloud_link : TransportType → Transport → Handle → Handle
set_cloud_link cloud_aliyun t h = record h { aliyun = some t }
set_cloud_link cloud_mammotion t h = record h { mammotion = some t }
set_cloud_link ble t h = h

unfoldable pub last_sync : Handle → TransportType → ℕ
last_sync h cloud_aliyun = h.last_aliyun_sync
last_sync h cloud_mammotion = h.last_mammotion_sync
last_sync h ble = 0

unfoldable pub stamp_sync : TransportType → ℕ → Handle → Handle
stamp_sync cloud_aliyun now h = record h { last_aliyun_sync = now }
stamp_sync cloud_mammotion now h = record h { last_mammotion_sync = now }
stamp_sync ble now h = h

-- A frame is handed over, and the reply comes back.
unfoldable pub with_ble : Bool → Option BleLink → Option BleLink
with_ble up none = none
with_ble up (some l) = some (record l { is_connected = up })

-- `update_availability`; without a flag, the one that is held stays.
unfoldable pub set_availability :
    TransportType → TransportAvailability → Bool → DeviceAvailability → DeviceAvailability
set_availability ble v offline a = record a { ble = v; mqtt_reported_offline = offline }
set_availability t v offline a = record a { mqtt = v; mqtt_reported_offline = offline }

unfoldable pub updated :
    TransportType → TransportAvailability → Option Bool → DeviceAvailability → DeviceAvailability
unfolding set_availability maybe
updated t v flag a = set_availability t v (maybe flag a.mqtt_reported_offline (λ b. b)) a

-- The listener of BLE, for each change that its transport reports.
unfoldable pub heard : List TransportAvailability → DeviceAvailability → DeviceAvailability
unfolding updated
heard [] a = a
heard (v ∷ vs) a = heard vs (updated ble v none a)

unfoldable pub noted : TransportType → Frame → Reply → Handle → Handle
unfolding with_ble heard
noted t frame r h = record h {
  ble = with_ble r.ble_up h.ble;
  availability = heard r.notified h.availability;
  attempts = record { transport = t; frame = frame; error = r.error } ∷ h.attempts;
}

-- What `_invoke` counts against the health of the Aliyun transport.
unfoldable pub counted : TransportType → Option SendError → ℕ → Handle → Handle
unfolding set_cloud_link record_error maybe
counted cloud_aliyun (some device_unbound) now h = h
counted cloud_aliyun (some e) now h =
    maybe h.aliyun h (λ t. set_cloud_link cloud_aliyun (record_error t now) h)
counted t e now h = h

unfoldable pub ended : Option SendError → Handle → Outcome
ended none h = done h
ended (some e) h = failed e h

unfoldable pub invoke : World → ℕ → TransportType → Frame → Handle → Outcome
unfolding noted counted ended
invoke w now t frame h =
    let r = w.on_send t frame h.attempts in
    ended r.error (counted t r.error now (noted t frame r h))

unfoldable pub bind : Outcome → (Handle → Outcome) → Outcome
bind (done h) k = k h
bind (failed e h) k = failed e h

-- `send`: the Aliyun transport refuses by `is_rate_limited`, the other by `is_send_blocked`.
unfoldable pub refuses : TransportType → Transport → ℕ → Bool → Bool
refuses cloud_aliyun t now version = is_rate_limited t now
refuses cloud_mammotion t now version = is_send_blocked t now version
refuses ble t now version = false

unfoldable pub counted_send : TransportType → ℕ → Handle → Outcome
unfolding cloud_link set_cloud_link maybe
counted_send t now h =
    maybe (cloud_link h t) (done h) (λ l. done (set_cloud_link t (record_send l now) h))

unfoldable pub send : World → ℕ → TransportType → Frame → Handle → Outcome
unfolding invoke bind refuses counted_send cloud_link maybe
send w now t frame h = maybe (cloud_link h t) (invoke w now t frame h) (λ l.
    if refuses t l now h.version_is_rate_limited
    then failed rate_limited h
    else bind (invoke w now t frame h) (counted_send t now))

-- `_send_mqtt_sync` and `_send_marked`.
unfoldable pub send_mqtt_sync : World → ℕ → TransportType → Handle → Outcome
unfolding invoke bind stamp_sync
send_mqtt_sync w now t h = bind (invoke w now t sync h) (λ h'. done (stamp_sync t now h'))

unfoldable pub sync_first : World → ℕ → TransportType → Handle → Outcome
unfolding send_mqtt_sync last_sync
sync_first w now t h = if ltb (last_sync h t + 7) now then send_mqtt_sync w now t h else done h

unfoldable pub send_marked : World → ℕ → TransportType → ℕ → Handle → Outcome
unfolding sync_first send cloud_link bind maybe
send_marked w now t payload h = maybe (cloud_link h t) (send w now t (command payload) h) (λ l.
    if is_send_blocked l now h.version_is_rate_limited
    then failed rate_limited h
    else bind (sync_first w now t h) (send w now t (command payload)))
