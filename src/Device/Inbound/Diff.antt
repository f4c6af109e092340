-- ===== src/Device/Inbound/Diff.antt =====
-- When the state machine reports a change, and a frame is published.
use py_mammotion.Base.{
  ◌+◌, ◌≡◌, ◌↔◌, refl, sym, ap, ◌∙◌, String, Bool, true, false, ◌&&◌, ◌||◌, not, All, none, some,
  List, [], ◌∷◌, ◌++◌, nat_keys, eqb_iff, arith, is_empty, length,
}
use py_mammotion.Device.Sending.{TransportType}
use py_mammotion.Device.Raw.{ConnectionState, state_connected, state_connecting, state_unavailable}
use py_mammotion.Device.Inbound.{
  DeviceModel, DeviceSnapshot, Inbox, state_eq, bool_eq, name_if, differing, diff, make_snapshot,
  apply, applied, emit_if, count_map_update, shut_down, reduced,
}

pub is_empty-append {ℓ} :
    {A : Type ℓ} (l r : List A) → is_empty (l ++ r) ≡ (is_empty l && is_empty r)
is_empty-append [] r = refl
is_empty-append (x ∷ l) r = refl

state_eq_iff : (a b : ConnectionState) → (state_eq a b ≡ true) ↔ (a ≡ b)
unfolding state_eq
state_eq_iff state_connected state_connected = ground arith
state_eq_iff state_connected state_connecting = ground arith
state_eq_iff state_connected state_unavailable = ground arith
state_eq_iff state_connecting state_connected = ground arith
state_eq_iff state_connecting state_connecting = ground arith
state_eq_iff state_connecting state_unavailable = ground arith
state_eq_iff state_unavailable state_connected = ground arith
state_eq_iff state_unavailable state_connecting = ground arith
state_eq_iff state_unavailable state_unavailable = ground arith

bool_eq_iff : (a b : Bool) → (bool_eq a b ≡ true) ↔ (a ≡ b)
unfolding bool_eq
bool_eq_iff true b = ground arith
bool_eq_iff false b = ground arith

is_empty-name_if : (b : Bool) (name : String) → is_empty (name_if (not b) name) ≡ b
unfolding name_if
is_empty-name_if true name = refl
is_empty-name_if false name = refl

module _ {D M : Type 0} (model : DeviceModel D M) where
  -- The fields that subscribers can see are the same.
  abbrev pub Same : DeviceSnapshot D → DeviceSnapshot D → Type 0
  Same old new =
      (old.connection ≡ new.connection)
      × (old.is_online ≡ new.is_online)
      × (old.is_enabled ≡ new.is_enabled)
      × (old.battery_level ≡ new.battery_level)
      × All
          (λ name.
            (model.identical name old.raw new.raw || model.equal name old.raw new.raw) ≡ true)
          model.field_names

  is_empty-differing_iff :
      (names : List String) (old new : D)
      → (is_empty (differing model names old new) ≡ true)
        ↔ All (λ name. (model.identical name old new || model.equal name old new) ≡ true) names
  unfolding differing name_if
  is_empty-differing_iff [] old new = (λ e. tt, λ e. refl)
  is_empty-differing_iff (name ∷ names) old new =
      let rest = is_empty-differing_iff names old new in
      go (model.identical name old new) (model.equal name old new) rest
    where
      go :
          (a b : Bool)
          → (is_empty (differing model names old new) ≡ true)
            ↔ All (λ n. (model.identical n old new || model.equal n old new) ≡ true) names
          → (is_empty (name_if (not a && not b) name ++ differing model names old new) ≡ true) ↔ (
              ((a || b) ≡ true)
              × All (λ n. (model.identical n old new || model.equal n old new) ≡ true) names)
      go true b r = (λ e. (refl, r.0 e), λ e. r.1 e.1)
      go false true r = (λ e. (refl, r.0 e), λ e. r.1 e.1)
      go false false r = (λ e. absurd (cc e), λ e. absurd (cc (e.0)))

  pub is_empty-diff_iff :
      (old new : DeviceSnapshot D) → (is_empty (diff model old new) ≡ true) ↔ Same old new
  unfolding diff
  is_empty-diff_iff old new =
      simp (is_empty-append, is_empty-name_if)
        (ground (
          arith,
          state_eq_iff old.connection new.connection,
          bool_eq_iff old.is_online new.is_online,
          bool_eq_iff old.is_enabled new.is_enabled,
          eqb_iff old.battery_level new.battery_level,
          is_empty-differing_iff model.field_names old.raw new.raw,
        ))

  emitted-count_map_update : (b : Bool) (x : Inbox D) → (count_map_update b x).emitted ≡ x.emitted
  unfolding count_map_update
  emitted-count_map_update true x = refl
  emitted-count_map_update false x = refl

  emit_if-silent_iff :
      (b : Bool) (x : Inbox D) → ((emit_if (not b) x).emitted ≡ x.emitted) ↔ (b ≡ true)
  unfolding emit_if
  emit_if-silent_iff true x = (λ _. refl, λ _. refl)
  emit_if-silent_iff false x = (λ e. absurd (omega (arith, ap length e)), λ e. absurd (cc))

  emitted-reduced :
      (t : TransportType) (msg : M) (d : D) (x : Inbox D)
      → x.stopping ≡ false
      → model.powers_off msg ≡ none
      → (reduced model t msg (some d) x).emitted
        ≡ (emit_if
            (not (is_empty (diff model x.machine.current (applied model d x).machine.current)))
            (applied model d x)).emitted
  unfolding reduced shut_down
  emitted-reduced t msg d x st p =
      let y = applied model d x in
      let changed = not (is_empty (diff model x.machine.current y.machine.current)) in
      ap
        (λ o.
          (shut_down model t o (
            count_map_update (model.names_areas msg)
              (emit_if (changed && not x.stopping) y))).emitted)
        p
      ∙ emitted-count_map_update (model.names_areas msg) (emit_if (changed && not x.stopping) y)
      ∙ ap (λ b. (emit_if b y).emitted) (ground (arith, st))

  -- If the handle is not stopping and the message announces no power-off, a message that the
  -- reducer turns into a device leaves the bus without a snapshot exactly when the connection
  -- state, the online and enabled flags and the battery level are the same as before and each field
  -- of the device is the same object or compares equal.
  pub reduced-silent_iff :
      (t : TransportType) (msg : M) (d : D) (x : Inbox D)
      → x.stopping ≡ false
      → model.powers_off msg ≡ none
      → ((reduced model t msg (some d) x).emitted ≡ x.emitted)
        ↔ Same x.machine.current (make_snapshot model (x.machine.sequence + 1) d x.availability)
  unfolding applied apply
  reduced-silent_iff t msg d x st p =
      let y = applied model d x in
      let e = emitted-reduced t msg d x st p in
      let b = is_empty (diff model x.machine.current y.machine.current) in
      let i = emit_if-silent_iff b y in
      let j = is_empty-diff_iff x.machine.current y.machine.current in
      (λ q. j.0 (i.0 (sym e ∙ q)), λ q. e ∙ i.1 (j.1 q))
