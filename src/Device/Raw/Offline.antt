-- ===== src/Device/Raw/Offline.antt =====
-- What `send_raw` does when the cloud reports the device offline, and while the flag stands.
use py_mammotion.Base.{
  maybe, ℕ, ◌+◌, ◌≤◌, ◌≡◌, ◌≢◌, refl, ◌∙◌, ap, true, false, Option, none, some, List, [], ◌∷◌,
  arith,
}
use py_mammotion.Transport.RateLimit.{Transport, is_usable, is_rate_limited, is_send_blocked}
use py_mammotion.Device.Sending.{
  TransportType, TransportAvailability, ble, DeviceAvailability, set_availability, updated, heard,
  SendError, no_transport_available, device_offline, command, World, Handle, Outcome, done, failed,
  bind, pick_cloud_transport, link_usable, cloud_transport_usable, ble_connected, ble_usable,
  or_ble, usable_cloud, active_transport, cloud_link, last_sync, noted, counted, ended, invoke,
  refuses, send, sync_first, send_marked,
}
use py_mammotion.Device.Raw.{
  update_availability, frame_arrived, retry_over_ble, on_device_offline, recovered, may_connect,
  send_raw,
}

unfoldable pub handle_of : Outcome → Handle
handle_of (done h) = h
handle_of (failed e h) = h

availability-ended :
    (e : Option SendError) (t : TransportType) (now : ℕ) (h : Handle)
    → t ≡ ble
    → (handle_of (ended e (counted t e now h))).availability ≡ h.availability
unfolding ended counted handle_of
availability-ended none t now h b = ground (arith, b)
availability-ended (some e) t now h b = ground (arith, b)

-- What BLE reports leaves the flag as it is.
heard_flag :
    (vs : List TransportAvailability) (a : DeviceAvailability)
    → (heard vs a).mqtt_reported_offline ≡ a.mqtt_reported_offline
unfolding heard updated set_availability maybe
heard_flag [] a = refl
heard_flag (v ∷ vs) a = heard_flag vs _

send_marked_flag :
    (w : World) (now payload : ℕ) (h : Handle)
    → (handle_of (send_marked w now ble payload h)).availability.mqtt_reported_offline
      ≡ h.availability.mqtt_reported_offline
unfolding send_marked send invoke cloud_link noted maybe
send_marked_flag w now payload h =
    let r = w.on_send ble (command payload) h.attempts in
    ap (λ (v : DeviceAvailability). v.mqtt_reported_offline)
      (availability-ended r.error ble now (noted ble (command payload) r h) refl)
    ∙ heard_flag r.notified h.availability

retry_over_ble_flag :
    (w : World) (now payload : ℕ) (e : SendError) (h : Handle)
    → (handle_of (retry_over_ble w now payload e h)).availability.mqtt_reported_offline
      ≡ h.availability.mqtt_reported_offline
unfolding retry_over_ble handle_of
retry_over_ble_flag w now payload e h = ground (arith, send_marked_flag w now payload h)

flagged :
    (t : TransportType) (h : Handle)
    → (on_device_offline t h).availability.mqtt_reported_offline ≡ true
unfolding on_device_offline update_availability updated set_availability maybe
flagged t h = ground arith

send_raw_flag :
    (w : World) (now payload : ℕ) (h h' : Handle) (t : TransportType)
    → active_transport h ≡ some t
    → send_marked w now t payload h ≡ failed device_offline h'
    → (handle_of (send_raw w now payload h)).availability.mqtt_reported_offline ≡ true
unfolding send_raw recovered maybe
send_raw_flag w now payload h h' t a f = rw a (
    rw f (retry_over_ble_flag w now payload device_offline (on_device_offline t h') ∙ flagged t h'))

flagged_takes_ble :
    (h : Handle) (x : TransportType)
    → h.availability.mqtt_reported_offline ≡ true
    → active_transport h ≡ some x
    → x ≡ ble
unfolding active_transport usable_cloud cloud_transport_usable pick_cloud_transport or_ble maybe
flagged_takes_ble h x f a = ground (arith, f, a)

-- If the send on the transport that active_transport takes ends with DeviceOfflineException, and no
-- frame comes from the device meanwhile, then after send_raw, whatever becomes of the retry over
-- BLE and whatever changes BLE reports in it, the device is flagged as reported offline, and
-- active_transport takes BLE or none.
pub send_raw-flagged :
    (w : World) (now payload : ℕ) (h h' : Handle) (t : TransportType)
    → active_transport h ≡ some t
    → send_marked w now t payload h ≡ failed device_offline h'
    → ((handle_of (send_raw w now payload h)).availability.mqtt_reported_offline ≡ true)
      × ((x : TransportType)
          → active_transport (handle_of (send_raw w now payload h)) ≡ some x
          → x ≡ ble)
send_raw-flagged w now payload h h' t a f =
    let still = send_raw_flag w now payload h h' t a f in
    (still, λ x. flagged_takes_ble (handle_of (send_raw w now payload h)) x still)

pub offline_unsent :
    (w : World) (now payload : ℕ) (h : Handle)
    → h.availability.mqtt_reported_offline ≡ true
    → ble_connected h.ble ≡ false
    → ble_usable h.ble ≡ false
    → send_raw w now payload h ≡ failed no_transport_available h
unfolding send_raw active_transport usable_cloud cloud_transport_usable or_ble may_connect
    ble_usable maybe
offline_unsent w now payload h f c u = ground (arith, f, c, u)

-- If the cloud transport that counts is usable and BLE is not connected, then after a frame has
-- arrived over a cloud transport, active_transport takes that cloud transport, even if the device
-- was flagged as reported offline.
pub active_transport-frame_arrived :
    (h : Handle) (t x : TransportType) (l : Transport)
    → t ≢ ble
    → ble_connected h.ble ≡ false
    → pick_cloud_transport h ≡ some x
    → cloud_link h x ≡ some l
    → is_usable l ≡ true
    → active_transport (frame_arrived t h) ≡ some x
unfolding active_transport usable_cloud cloud_transport_usable link_usable cloud_link
    pick_cloud_transport frame_arrived update_availability updated set_availability maybe
active_transport-frame_arrived h t x l n c p e u = ground (arith, n, c, p, e, u)

-- If Aliyun is usable and rate-limited, the device is not reported offline, its firmware is exempt
-- from the quota, BLE is not connected, and the last sync is at most 7 seconds old, then send_raw
-- returns without an error, hands nothing over and leaves the handle as it was.
pub exempt_dropped :
    (w : World) (now payload : ℕ) (h : Handle) (l : Transport)
    → h.aliyun ≡ some l
    → is_usable l ≡ true
    → h.availability.mqtt_reported_offline ≡ false
    → ble_connected h.ble ≡ false
    → h.version_is_rate_limited ≡ false
    → is_rate_limited l now ≡ true
    → now ≤ h.last_aliyun_sync + 7
    → send_raw w now payload h ≡ done h
unfolding send_raw active_transport usable_cloud cloud_transport_usable link_usable
    pick_cloud_transport recovered send_marked sync_first last_sync send refuses cloud_link bind
    maybe is_send_blocked
exempt_dropped w now payload h l e u f c v r s = ground (arith, e, u, f, c, v, r, s)
