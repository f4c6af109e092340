-- ===== src/Transport/Ble.antt =====
-- pymammotion/transport/ble.py, class `BLETransport`: the cached device, the cooldown after failures,
-- and `connect`. What the radio does during one call of `connect` is the parameter `Radio`. A device
-- is its address; an RSSI is counted from -128 dBm, the least that the radio reports; times are whole
-- seconds. An empty `ble_address` makes a scan find nothing.
pub mod Cooldown
use py_mammotion.Base.{
  maybe, ℕ, zero, suc, ◌+◌, Bool, true, false, ◌&&◌, ◌||◌, not, Option, none, some, if◌then◌else◌,
  ltb, leb, eqb,
}

pub record BleConfig : Type 0 where
  pub self_managed_scanning : Bool
  pub connect_failure_threshold : ℕ
  pub connect_cooldown_seconds : ℕ
  pub min_rssi : ℕ

pub record BleTransport : Type 0 where
  pub config : BleConfig
  pub ble_device : Option ℕ
  pub is_connected : Bool
  pub consecutive_failures : ℕ
  pub connect_cooldown_until : ℕ
  pub last_rssi : Option ℕ

-- `slots` is BleakOutOfConnectionSlotsError, `bleak` another BleakError, `os` TimeoutError or OSError.
pub data RadioError : Type 0 where
  slots : RadioError
  bleak : RadioError
  os : RadioError

-- What the scan finds, and how `establish_connection`, `start_notify` and `_ble_sync` end. A notify
-- that is already acquired is a success; `establish` raises no `os` that the code would catch.
pub record Radio : Type 0 where
  pub discovered : Option ℕ
  pub establish : Option RadioError
  pub start_notify : Option RadioError
  pub ble_sync : Option RadioError

pub data ConnectEnd : Type 0 where
  up : BleTransport → ConnectEnd
  ble_unavailable : BleTransport → ConnectEnd
  no_address_known : BleTransport → ConnectEnd
  propagated : BleTransport → ConnectEnd

unfoldable pub set_ble_device : ℕ → Option ℕ → BleTransport → BleTransport × Bool
unfolding maybe
set_ble_device address rssi t = (
  record t { ble_device = some address; last_rssi = maybe rssi t.last_rssi (λ r. some r) },
  maybe t.ble_device true (λ previous. not (eqb previous address)),
)

unfoldable pub clear_ble_device : BleTransport → BleTransport
clear_ble_device t = record t {
  ble_device = none;
  consecutive_failures = 0;
  connect_cooldown_until = 0;
  last_rssi = none;
}

unfoldable pub is_usable : ℕ → BleTransport → Bool
unfolding maybe
is_usable now t =
    maybe t.ble_device false (λ device. true)
    && (maybe t.last_rssi true (λ rssi. leb t.config.min_rssi rssi)
        && leb t.connect_cooldown_until now)

unfoldable pub is_immediate : Option RadioError → Bool
is_immediate (some slots) = true
is_immediate e = false

unfoldable pub record_connect_failure : ℕ → Option RadioError → BleTransport → BleTransport
unfolding is_immediate
record_connect_failure now e t =
    if not (is_immediate e) && ltb (t.consecutive_failures + 1) t.config.connect_failure_threshold
    then record t { consecutive_failures = t.consecutive_failures + 1 }
    else record t {
      consecutive_failures = 0;
      connect_cooldown_until = now + t.config.connect_cooldown_seconds;
    }

-- `exc if isinstance(exc, BleakError) else None`
unfoldable pub as_bleak : RadioError → Option RadioError
as_bleak os = none
as_bleak e = some e

unfoldable pub torn_down : ℕ → RadioError → BleTransport → ConnectEnd
unfolding record_connect_failure as_bleak
torn_down now e t =
    ble_unavailable (record_connect_failure now (as_bleak e) (record t { is_connected = false }))

-- The steps on the established link; the counter is reset before the first write.
unfoldable pub set_up : ℕ → Radio → BleTransport → ConnectEnd
unfolding torn_down maybe
set_up now radio t =
    maybe radio.start_notify
      (maybe radio.ble_sync (up (record t { consecutive_failures = 0 }))
        (λ e. torn_down now e (record t { consecutive_failures = 0 })))
      (λ e. torn_down now e t)

unfoldable pub not_established : ℕ → RadioError → BleTransport → ConnectEnd
unfolding record_connect_failure
not_established now os t = propagated t
not_established now e t = ble_unavailable (record_connect_failure now (some e) t)

unfoldable pub establish_link : ℕ → Radio → BleTransport → ConnectEnd
unfolding set_up not_established maybe
establish_link now radio t =
    if t.is_connected
    then up t
    else maybe radio.establish (set_up now radio (record t { is_connected = true }))
        (λ e. not_established now e t)

unfoldable pub discover : Radio → BleTransport → BleTransport
unfolding maybe
discover radio t =
    maybe t.ble_device
      (if t.config.self_managed_scanning
        then maybe radio.discovered t (λ device. record t { ble_device = some device })
        else t)
      (λ device. t)

unfoldable pub with_device : ℕ → Radio → BleTransport → ConnectEnd
unfolding establish_link maybe
with_device now radio t =
    maybe t.ble_device (no_address_known t) (λ device. establish_link now radio t)

unfoldable pub connect : ℕ → Radio → BleTransport → ConnectEnd
unfolding discover with_device
connect now radio t =
    if ltb now t.connect_cooldown_until
    then ble_unavailable t
    else with_device now radio (discover radio t)
