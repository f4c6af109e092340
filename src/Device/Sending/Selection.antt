-- ===== src/Device/Sending/Selection.antt =====
-- The transport that `active_transport` takes.
use py_mammotion.Base.{maybe, ◌≡◌, ◌↔◌, ◌⊎◌, Bool, true, false, none, some, arith}
use py_mammotion.Transport.RateLimit.{Transport, is_usable}
use py_mammotion.Device.Sending.{
  TransportType, cloud_aliyun, cloud_mammotion, ble, Handle, pick_cloud_transport, link_usable,
  cloud_transport_usable, ble_connected, ble_usable, or_ble, usable_cloud, active_transport,
}

-- Whether the one cloud transport that counts is usable: Aliyun's if there is one.
unfoldable pub first_cloud_usable : Handle → Bool
unfolding link_usable maybe
first_cloud_usable h = maybe h.aliyun (link_usable h.mammotion) (λ t. is_usable t)

-- The transport that the rules name: a connected BLE link, else a usable cloud transport, Aliyun
-- before the other, else a usable BLE link.
abbrev pub Ruled : Handle → TransportType → Type 0
Ruled h cloud_aliyun =
    (ble_connected h.ble ≡ false)
    × (link_usable h.aliyun ≡ true)
    × (h.availability.mqtt_reported_offline ≡ false)
Ruled h cloud_mammotion =
    (ble_connected h.ble ≡ false)
    × (h.aliyun ≡ none)
    × (link_usable h.mammotion ≡ true)
    × (h.availability.mqtt_reported_offline ≡ false)
Ruled h ble =
    (ble_connected h.ble ≡ true)
    ⊎ ((ble_usable h.ble ≡ true)
        × ((h.availability.mqtt_reported_offline ≡ true) ⊎ (first_cloud_usable h ≡ false)))

-- active_transport takes Aliyun exactly when BLE is not connected, Aliyun is usable and the cloud
-- has not reported the device offline; the other cloud transport exactly when besides there is no
-- Aliyun and it is usable; and BLE exactly when it is connected, or it is usable and either the
-- device is reported offline or the one cloud transport that counts, Aliyun if there is one, is not
-- usable.
pub active_transport_iff :
    (h : Handle) (t : TransportType) → (active_transport h ≡ some t) ↔ Ruled h t
unfolding active_transport usable_cloud pick_cloud_transport cloud_transport_usable link_usable
    or_ble maybe first_cloud_usable
active_transport_iff h cloud_aliyun = ground arith
active_transport_iff h cloud_mammotion = ground arith
active_transport_iff h ble = ground arith

-- If Aliyun is registered and not usable, the other cloud transport is registered and usable, and
-- BLE is neither connected nor usable, then active_transport finds no transport.
pub unusable_aliyun_hides :
    (h : Handle) (a m : Transport)
    → h.aliyun ≡ some a
    → is_usable a ≡ false
    → h.mammotion ≡ some m
    → is_usable m ≡ true
    → ble_connected h.ble ≡ false
    → ble_usable h.ble ≡ false
    → active_transport h ≡ none
unfolding active_transport usable_cloud pick_cloud_transport cloud_transport_usable link_usable
    or_ble maybe
unusable_aliyun_hides h a m e u k v c d = ground (arith, e, u, c, d)
