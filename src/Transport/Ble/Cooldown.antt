-- ===== src/Transport/Ble/Cooldown.antt =====
-- When failures of `connect` put the transport into its cooldown.
use py_mammotion.Base.{
  maybe, ℕ, suc, ◌+◌, ◌≤◌, ◌<◌, ◌≡◌, ◌≢◌, refl, ◌∙◌, ap, false, none, some, List, [], ◌∷◌, arith,
  length, All,
}
use py_mammotion.Transport.Ble.{
  BleTransport, RadioError, slots, bleak, os, Radio, ConnectEnd, up, ble_unavailable,
  no_address_known, propagated, is_usable, is_immediate, record_connect_failure, as_bleak,
  torn_down, set_up, not_established, establish_link, discover, with_device, connect,
}

unfoldable pub state : ConnectEnd → BleTransport
state (up t) = t
state (ble_unavailable t) = t
state (no_address_known t) = t
state (propagated t) = t

-- Calls of `connect`, each at its time.
unfoldable pub connects : List (ℕ × Radio) → BleTransport → BleTransport
unfolding state
connects [] t = t
connects ((now, radio) ∷ calls) t = connects calls (state (connect now radio t))

pub refuses_in_cooldown :
    (now : ℕ) (radio : Radio) (t : BleTransport)
    → now < t.connect_cooldown_until
    → (connect now radio t ≡ ble_unavailable t) × (is_usable now t ≡ false)
unfolding connect is_usable
refuses_in_cooldown now radio t h = (ground (arith, h), ground (arith, h))

-- A call in which the device refuses the link with an ordinary error.
abbrev pub Fails : ℕ × Radio → Type 0
Fails (now, radio) = radio.establish ≡ some bleak

abbrev pub Past : ℕ → ℕ × Radio → Type 0
Past until (now, radio) = until ≤ now

-- A call in which the first write fails, but not for the lack of a connection slot.
abbrev pub NeverSyncs : ℕ × Radio → Type 0
NeverSyncs (now, radio) =
    (e : RadioError) × (radio.establish ≡ none)
    × (radio.start_notify ≡ none)
    × (radio.ble_sync ≡ some e)
    × (e ≢ slots)

fails_once :
    (now device : ℕ) (radio : Radio) (t : BleTransport)
    → t.ble_device ≡ some device
    → t.is_connected ≡ false
    → t.connect_cooldown_until ≤ now
    → radio.establish ≡ some bleak
    → state (connect now radio t) ≡ record_connect_failure now (some bleak) t
unfolding connect with_device discover establish_link not_established state maybe
fails_once now device radio t d c p e = ground (arith, d, c, p, e)

NeverSyncs-once :
    (now device : ℕ) (radio : Radio) (t : BleTransport)
    → t.ble_device ≡ some device
    → t.is_connected ≡ false
    → t.connect_cooldown_until ≤ now
    → 2 ≤ t.config.connect_failure_threshold
    → NeverSyncs (now, radio)
    → state (connect now radio t) ≡ record t { consecutive_failures = 1 }
unfolding connect with_device discover establish_link set_up torn_down record_connect_failure
    as_bleak is_immediate state maybe
NeverSyncs-once now device radio t d c p two (slots, e, n, s, other) = absurd (other refl)
NeverSyncs-once now device radio t d c p two (bleak, e, n, s, other) =
    ground (arith, d, c, p, two, e, n, s)
NeverSyncs-once now device radio t d c p two (os, e, n, s, other) =
    ground (arith, d, c, p, two, e, n, s)

counts_failure :
    (now : ℕ) (t : BleTransport)
    → t.consecutive_failures + 1 < t.config.connect_failure_threshold
    → record_connect_failure now (some bleak) t
      ≡ record t { consecutive_failures = t.consecutive_failures + 1 }
unfolding record_connect_failure is_immediate
counts_failure now t h = ground (arith, h)

starts_cooldown :
    (now : ℕ) (t : BleTransport)
    → t.config.connect_failure_threshold ≤ t.consecutive_failures + 1
    → (record_connect_failure now (some bleak) t).connect_cooldown_until
      ≡ now + t.config.connect_cooldown_seconds
unfolding record_connect_failure is_immediate
starts_cooldown now t h = ground (arith, h)

-- What every call of a series finds: a cached device, no link, and the cooldown over.
abbrev Ready : ℕ → BleTransport → Type 0
Ready device t = (t.ble_device ≡ some device) × (t.is_connected ≡ false)

below_threshold :
    (device : ℕ) (calls : List (ℕ × Radio)) (t : BleTransport)
    → Ready device t
    → All Fails calls
    → All (Past t.connect_cooldown_until) calls
    → t.consecutive_failures + length calls < t.config.connect_failure_threshold
    → connects calls t ≡ record t { consecutive_failures = t.consecutive_failures + length calls }
unfolding connects
below_threshold device [] t r f p h =
    ap (λ (n : ℕ). record t { consecutive_failures = n }) (omega arith)
below_threshold device ((now, radio) ∷ calls) t r f p h =
    ap (connects calls)
      (fails_once now device radio t r.0 r.1 p.0 f.0 ∙ counts_failure now t (omega (arith, h)))
    ∙ below_threshold device calls (record t { consecutive_failures = t.consecutive_failures + 1 })
        r f.1 p.1 (omega (arith, h))
    ∙ ap (λ (n : ℕ). record t { consecutive_failures = n }) (omega arith)

-- On a BLE transport with a cached device, no link, no failure counted, and no cooldown in force at
-- any of the calls: one call of connect fewer than the threshold, each refused by the device,
-- leaves the cooldown as it was, and one more such call sets it to the configured time after that
-- call.
pub threshold-connects :
    (device now : ℕ) (radio : Radio) (calls : List (ℕ × Radio)) (t : BleTransport)
    → t.ble_device ≡ some device
    → t.is_connected ≡ false
    → t.consecutive_failures ≡ 0
    → suc (length calls) ≡ t.config.connect_failure_threshold
    → All Fails calls
    → All (Past t.connect_cooldown_until) calls
    → t.connect_cooldown_until ≤ now
    → radio.establish ≡ some bleak
    → ((connects calls t).connect_cooldown_until ≡ t.connect_cooldown_until)
      × ((state (connect now radio (connects calls t))).connect_cooldown_until
          ≡ now + t.config.connect_cooldown_seconds)
threshold-connects device now radio calls t d c z n f p past e =
    let b = below_threshold device calls t (d, c) f p (omega (arith, z, n)) in
    (
      ap (λ (x : BleTransport). x.connect_cooldown_until) b,
      ap (λ (x : BleTransport). (state (connect now radio x)).connect_cooldown_until) b
          ∙ ap (λ (x : BleTransport). x.connect_cooldown_until)
              (fails_once now device radio
                (record t { consecutive_failures = t.consecutive_failures + length calls }) d c past
                e)
          ∙ starts_cooldown now
              (record t { consecutive_failures = t.consecutive_failures + length calls })
              (omega (arith, z, n)),
    )

-- On a BLE transport with a cached device, no link, a threshold of at least 2, and no cooldown in
-- force at any of the calls: no number of calls of connect that establish the link and the
-- notifications and then fail at the first write, with an error other than the lack of a connection
-- slot, changes the cooldown.
pub sync_failures_never_cool_down :
    (device : ℕ) (calls : List (ℕ × Radio)) (t : BleTransport)
    → t.ble_device ≡ some device
    → t.is_connected ≡ false
    → 2 ≤ t.config.connect_failure_threshold
    → All NeverSyncs calls
    → All (Past t.connect_cooldown_until) calls
    → (connects calls t).connect_cooldown_until ≡ t.connect_cooldown_until
unfolding connects
sync_failures_never_cool_down device [] t d c two f p = refl
sync_failures_never_cool_down device ((now, radio) ∷ calls) t d c two f p =
    ap (λ (x : BleTransport). (connects calls x).connect_cooldown_until)
      (NeverSyncs-once now device radio t d c p.0 two f.0)
    ∙ sync_failures_never_cool_down device calls (record t { consecutive_failures = 1 }) d c two f.1
        p.1
