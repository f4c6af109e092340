-- ===== src/Device/Raw.antt =====
-- pymammotion/device/handle.py, class `DeviceHandle`: `send_raw`, with what it does on each error,
-- and `update_availability`, with what `DeviceAvailability` of pymammotion/state/device_state.py
-- answers. The reconnect in the background that `send_raw` may schedule first does not change which
-- transport it takes and is left out; `on_device_unbound` is taken to be set. No frame comes from
-- the device while a send is awaited.
pub mod Once
pub mod Offline
use py_mammotion.Base.{
  maybe, ℕ, zero, suc, ◌+◌, Bool, true, false, ◌&&◌, ◌||◌, not, Option, none, some, List, [], ◌∷◌,
  if◌then◌else◌,
}
use py_mammotion.Transport.RateLimit.{Transport, set_rate_limited}
use py_mammotion.Device.Sending.{
  TransportType, cloud_aliyun, cloud_mammotion, ble, TransportAvailability, connected, connecting,
  disconnected, unknown, DeviceAvailability, SendError, rate_limited, no_transport_available,
  transport_error, too_many_requests, device_offline, device_unbound, other_error, Reply, World,
  BleLink, Handle, Outcome, done, failed, bind, active_transport, pick_cloud_transport,
  cloud_transport_usable, cloud_link, set_cloud_link, send_marked, with_ble, updated, heard,
  ble_connected, ended, usable_cloud,
}

unfoldable pub is_connected : TransportAvailability → Bool
is_connected connected = true
is_connected a = false

unfoldable pub is_connecting : TransportAvailability → Bool
is_connecting connecting = true
is_connecting a = false

-- `DeviceAvailability.is_available` and `connection_state`.
unfoldable pub is_available : DeviceAvailability → Bool
unfolding is_connected
is_available a = is_connected a.ble || (is_connected a.mqtt && not a.mqtt_reported_offline)

pub data ConnectionState : Type 0 where
  state_connected : ConnectionState
  state_connecting : ConnectionState
  state_unavailable : ConnectionState

unfoldable pub connection_state : DeviceAvailability → ConnectionState
unfolding is_available is_connecting
connection_state a =
    if is_available a
    then state_connected
    else if is_connecting a.mqtt || is_connecting a.ble
    then state_connecting
    else state_unavailable

unfoldable pub update_availability :
    TransportType → TransportAvailability → Option Bool → Handle → Handle
unfolding updated
update_availability t v flag h = record h { availability = updated t v flag h.availability }

-- What `on_raw_message` does to the flag when a frame comes.
unfoldable pub frame_arrived : TransportType → Handle → Handle
unfolding update_availability
frame_arrived ble h = h
frame_arrived t h =
    if h.availability.mqtt_reported_offline
    then update_availability t h.availability.mqtt (some false) h
    else h

-- The BLE fallback of `_on_device_offline` and `_on_device_unbound`.
unfoldable pub retry_over_ble : World → ℕ → ℕ → SendError → Handle → Outcome
unfolding ble_connected
retry_over_ble w now payload e h =
    if ble_connected h.ble then send_marked w now ble payload h else failed e h

unfoldable pub on_device_offline : TransportType → Handle → Handle
unfolding update_availability
on_device_offline t h = update_availability t h.availability.mqtt (some true) h

unfoldable pub detach_transport : TransportType → Handle → Handle
detach_transport cloud_aliyun h = record h { aliyun = none }
detach_transport cloud_mammotion h = record h { mammotion = none }
detach_transport ble h = record h { ble = none }

unfoldable pub is_registered : TransportType → Handle → Bool
unfolding maybe
is_registered cloud_aliyun h = maybe h.aliyun false (λ t. true)
is_registered cloud_mammotion h = maybe h.mammotion false (λ t. true)
is_registered ble h = maybe h.ble false (λ t. true)

unfoldable pub on_device_unbound : TransportType → Handle → Handle
unfolding update_availability detach_transport is_registered
on_device_unbound t h =
    if is_registered t h
    then record (update_availability t disconnected none (detach_transport t h)) {
      unbound_migrating = true;
    }
    else h

unfoldable pub ban : ℕ → TransportType → Handle → Handle
unfolding cloud_link set_cloud_link maybe
ban now t h = maybe (cloud_link h t) h (λ l. set_cloud_link t (set_rate_limited l now) h)

-- A failure over BLE goes to a usable cloud transport, another is raised.
unfoldable pub retry_over_cloud : World → ℕ → TransportType → ℕ → SendError → Handle → Outcome
unfolding usable_cloud maybe
retry_over_cloud w now ble payload e h =
    maybe (usable_cloud h) (failed e h) (λ t. send_marked w now t payload h)
retry_over_cloud w now t payload e h = failed e h

-- The `except` clauses of `send_raw`.
unfoldable pub recovered : World → ℕ → TransportType → ℕ → Outcome → Outcome
unfolding ban retry_over_ble on_device_offline on_device_unbound retry_over_cloud
recovered w now t payload (done h) = done h
recovered w now t payload (failed rate_limited h) = done h
recovered w now t payload (failed too_many_requests h) = done (ban now t h)
recovered w now t payload (failed device_offline h) =
    retry_over_ble w now payload device_offline (on_device_offline t h)
recovered w now t payload (failed device_unbound h) =
    retry_over_ble w now payload device_unbound (on_device_unbound t h)
recovered w now t payload (failed transport_error h) =
    retry_over_cloud w now t payload transport_error h
recovered w now t payload (failed no_transport_available h) =
    retry_over_cloud w now t payload no_transport_available h
recovered w now t payload (failed other_error h) = failed other_error h

unfoldable pub send_on : World → ℕ → ℕ → Handle → Outcome
unfolding recovered maybe
send_on w now payload h =
    maybe (active_transport h) (failed no_transport_available h)
      (λ t. recovered w now t payload (send_marked w now t payload h))

-- `await ble.connect()` before a second look for a transport.
unfoldable pub may_connect : Option BleLink → Bool
may_connect none = false
may_connect (some l) = not l.is_connected && l.usable

unfoldable pub connect : World → Handle → Outcome
unfolding ended with_ble heard
connect w h =
    let r = w.on_connect h.attempts in
    ended r.error
      (record h { ble = with_ble r.ble_up h.ble; availability = heard r.notified h.availability })

unfoldable pub send_raw : World → ℕ → ℕ → Handle → Outcome
unfolding send_on connect may_connect bind maybe recovered
send_raw w now payload h =
    maybe (active_transport h)
      (if may_connect h.ble
        then bind (connect w h) (send_on w now payload)
        else failed no_transport_available h)
      (λ t. recovered w now t payload (send_marked w now t payload h))
