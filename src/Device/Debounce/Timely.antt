-- ===== src/Device/Debounce/Timely.antt =====
-- When the debounced bus passes a snapshot on.
use py_mammotion.Base.{
  maybe, ℕ, ◌+◌, ◌-◌, ◌≤◌, ◌≡◌, ◌⊎◌, inl, inr, refl, sym, true, false, Option, Bool-cases, none,
  some, List, [], ◌∷◌, leb, arith, length, ◌==◌, nat_keys, eqb_iff, ap, suc,
}
use py_mammotion.Device.Debounce.{
  DebouncedBus, init, min, burst_start, suppress, emit, debounce_emit, Reaches, started, given,
  woken, since_after,
}

abbrev pub first_of : List ℕ → Option ℕ
first_of [] = none
first_of (s ∷ rest) = some s

-- The pending snapshot, the time of its task, the time now and the start of the burst.
abbrev Waits : ℕ → ℕ → ℕ → Option ℕ → Option ℕ → Type 0
Waits wait now start none none = Unit
Waits wait now start none (some due) = ⊥
Waits wait now start (some s) none = ⊥
Waits wait now start (some s) (some due) = (start ≤ now) × (now ≤ due) × (due ≤ start + wait)

-- A pending snapshot has a task that is due within the longest wait from the start of the burst; the
-- newest snapshot is the pending one, or else the last that was passed on.
record IsTimely (interval wait now : ℕ) (newest : Option ℕ) (b : DebouncedBus) : Type 0 where
  interval_kept : b.debounce_interval ≡ interval
  wait_kept : b.max_debounce_wait ≡ wait
  immediate : leb b.debounce_interval 0 ≡ true → b.pending_snapshot ≡ none
  waits : Waits wait now b.first_suppressed_at b.pending_snapshot b.task_due
  newest_kept : newest ≡ maybe b.pending_snapshot (first_of b.emitted) (λ s. some s)

burst_start_le :
    (wait now start later : ℕ) (p d : Option ℕ)
    → Waits wait now start p d
    → now ≤ later
    → maybe p later (λ s. start) ≤ later
unfolding maybe
burst_start_le wait now start later none d v le = omega arith
burst_start_le wait now start later (some s) none v le = absurd v
burst_start_le wait now start later (some s) (some due) v le = omega (arith, v.0, le)

suppress-IsTimely :
    (interval wait now start s : ℕ) (b : DebouncedBus)
    → b.debounce_interval ≡ interval
    → b.max_debounce_wait ≡ wait
    → leb b.debounce_interval 0 ≡ false
    → start ≤ now
    → IsTimely interval wait now (some s) (suppress now start s b)
unfolding suppress min maybe
suppress-IsTimely interval wait now start s b i k z le =
    elim (Bool-cases (leb b.max_debounce_wait (now - start))) [
      | inl e ↦ rw e (record {
        interval_kept = i;
        wait_kept = k;
        immediate = λ h. refl;
        waits = tt;
        newest_kept = refl;
      })
      | inr e ↦ rw e (record {
        interval_kept = i;
        wait_kept = k;
        immediate = λ h. absurd (cc (h, z));
        waits = (le, ground arith, ground (arith, k, e, le));
        newest_kept = refl;
      })
    ]

plain-IsTimely :
    (interval wait now later s : ℕ) (newest : Option ℕ) (b : DebouncedBus)
    → IsTimely interval wait now newest b
    → leb b.debounce_interval 0 ≡ true
    → IsTimely interval wait later (some s) (record b { emitted = s ∷ b.emitted })
unfolding maybe
plain-IsTimely interval wait now later s newest b t z = record {
  interval_kept = t.interval_kept;
  wait_kept = t.wait_kept;
  immediate = t.immediate;
  waits = idle b.pending_snapshot b.task_due (t.immediate z) t.waits;
  newest_kept = rw (t.immediate z) refl;
}
  where
    idle :
        (p d : Option ℕ)
        → p ≡ none
        → Waits wait now b.first_suppressed_at p d
        → Waits wait later b.first_suppressed_at p d
    idle none none e v = tt
    idle none (some due) e v = v
    idle (some x) d e v = absurd (cc e)

emit-IsTimely :
    (interval wait now later s : ℕ) (newest : Option ℕ) (b : DebouncedBus)
    → IsTimely interval wait now newest b
    → now ≤ later
    → IsTimely interval wait later (some s) (emit later s b)
unfolding emit burst_start
emit-IsTimely interval wait now later s newest b t le =
    elim (Bool-cases (leb b.debounce_interval 0)) [
      | inl z ↦ rw z (plain-IsTimely interval wait now later s newest b t z)
      | inr z ↦ rw z (
          suppress-IsTimely interval wait later _ s b t.interval_kept t.wait_kept z (
            burst_start_le wait now b.first_suppressed_at later b.pending_snapshot b.task_due
              t.waits le))
    ]

debounce_emit-IsTimely :
    (interval wait now due : ℕ) (newest : Option ℕ) (b : DebouncedBus)
    → IsTimely interval wait now newest b
    → b.task_due ≡ some due
    → IsTimely interval wait due newest (debounce_emit b)
unfolding debounce_emit maybe
debounce_emit-IsTimely interval wait now due newest b t e =
    go b.pending_snapshot b.task_due e t.waits t.newest_kept
  where
    go :
        (p d : Option ℕ)
        → d ≡ some due
        → Waits wait now b.first_suppressed_at p d
        → newest ≡ maybe p (first_of b.emitted) (λ s. some s)
        → IsTimely interval wait due newest (
            maybe p
              (record b { task_due = none })
              (λ s. record b { pending_snapshot = none; task_due = none; emitted = s ∷ b.emitted }))
    go none none x v n = absurd (cc x)
    go none (some d) x v n = absurd v
    go (some s) d x v n = record {
      interval_kept = t.interval_kept;
      wait_kept = t.wait_kept;
      immediate = λ h. refl;
      waits = tt;
      newest_kept = n;
    }

Reaches-IsTimely :
    (interval wait now : ℕ) (newest held_since : Option ℕ) (b : DebouncedBus)
    → Reaches interval wait now newest held_since b
    → IsTimely interval wait now newest b
unfolding init maybe
Reaches-IsTimely interval wait _ _ _ _ started = record {
  interval_kept = refl;
  wait_kept = refl;
  immediate = λ h. refl;
  waits = tt;
  newest_kept = refl;
}
Reaches-IsTimely interval wait _ _ _ _ (given {now} {newest} {held_since} {b} later s r le v) =
    emit-IsTimely interval wait now later s newest b
      (Reaches-IsTimely interval wait now newest held_since b r) le
Reaches-IsTimely interval wait _ _ _ _ (woken {now} {newest} {held_since} {b} due r e) =
    debounce_emit-IsTimely interval wait now due newest b
      (Reaches-IsTimely interval wait now newest held_since b r) e

length_grows : (s : ℕ) (l : List ℕ) → length l == length (s ∷ l) ≡ false
length_grows s l = ground (arith, eqb_iff (length l) (suc (length l)))

length_same : (l : List ℕ) → length l == length l ≡ true
length_same l = ground (arith, eqb_iff (length l) (length l))

-- The wait of a pending snapshot, as the bus records it.
abbrev Recorded : Option ℕ → DebouncedBus → Type 0
Recorded held_since b = held_since ≡ maybe b.pending_snapshot none (λ s. some b.first_suppressed_at)

suppress-Recorded :
    (later s : ℕ) (held_since : Option ℕ) (b : DebouncedBus)
    → Recorded held_since b
    → Recorded
        (since_after held_since later b (suppress later (burst_start later b) s b))
        (suppress later (burst_start later b) s b)
unfolding suppress since_after maybe burst_start
suppress-Recorded later s held_since b h =
    elim (Bool-cases (leb b.max_debounce_wait (later - burst_start later b))) [
      | inl e ↦ rw (e, length_grows s b.emitted) refl
      | inr e ↦ rw (e, length_same b.emitted) (ap some (start b.pending_snapshot h))
    ]
  where
    start :
        (p : Option ℕ)
        → held_since ≡ maybe p none (λ x. some b.first_suppressed_at)
        → maybe held_since later (λ since. since) ≡ maybe p later (λ x. b.first_suppressed_at)
    start none e = ap (λ o. maybe o later (λ since. since)) e
    start (some x) e = ap (λ o. maybe o later (λ since. since)) e

emit-Recorded :
    (later s : ℕ) (held_since : Option ℕ) (b : DebouncedBus)
    → (leb b.debounce_interval 0 ≡ true → b.pending_snapshot ≡ none)
    → Recorded held_since b
    → Recorded (since_after held_since later b (emit later s b)) (emit later s b)
unfolding emit since_after maybe
emit-Recorded later s held_since b immediate h = elim (Bool-cases (leb b.debounce_interval 0)) [
  | inl z ↦ rw (z, length_grows s b.emitted, immediate z) refl
  | inr z ↦ rw z (suppress-Recorded later s held_since b h)
]

debounce_emit-Recorded : (b : DebouncedBus) → Recorded none (debounce_emit b)
unfolding debounce_emit maybe
debounce_emit-Recorded b = go b.pending_snapshot
  where
    go :
        (p : Option ℕ)
        → Recorded none (
            maybe p
              (record b { pending_snapshot = p; task_due = none })
              (λ s. record b { pending_snapshot = none; task_due = none; emitted = s ∷ b.emitted }))
    go none = refl
    go (some s) = refl

Reaches-Recorded :
    (interval wait now : ℕ) (newest held_since : Option ℕ) (b : DebouncedBus)
    → Reaches interval wait now newest held_since b
    → Recorded held_since b
unfolding init maybe
Reaches-Recorded interval wait _ _ _ _ started = refl
Reaches-Recorded interval wait _ _ _ _ (given {now} {newest} {held_since} {b} later s r le v) =
    emit-Recorded later s held_since b
      (Reaches-IsTimely interval wait now newest held_since b r).immediate
      (Reaches-Recorded interval wait now newest held_since b r)
Reaches-Recorded interval wait _ _ _ _ (woken {now} {newest} {held_since} {b} due r e) =
    debounce_emit-Recorded b

-- Nothing waits and the newest snapshot has been passed on, or the newest snapshot is pending and is
-- passed on in time from the start of the wait.
abbrev pub OnTime : ℕ → ℕ → Option ℕ → Option ℕ → DebouncedBus → Type 0
OnTime wait now newest held_since b =
    ((b.pending_snapshot ≡ none) × (held_since ≡ none) × (first_of b.emitted ≡ newest))
    ⊎ ((due since : ℕ) × (b.pending_snapshot ≡ newest)
        × (held_since ≡ some since)
        × (b.task_due ≡ some due)
        × (now ≤ due)
        × (due ≤ since + wait))

-- In every state that a new debounced bus comes to by snapshots and by wake-ups of its task that
-- are on time, either no snapshot is held back and the newest one was the last to be passed on, or
-- the newest snapshot is pending and its task is due, no earlier than now and at most the longest
-- wait after the first snapshot was given since the bus last held none back.
pub Reaches-OnTime :
    (interval wait now : ℕ) (newest held_since : Option ℕ) (b : DebouncedBus)
    → Reaches interval wait now newest held_since b
    → OnTime wait now newest held_since b
unfolding maybe
Reaches-OnTime interval wait now newest held_since b r =
    let t = Reaches-IsTimely interval wait now newest held_since b r in
    go b.pending_snapshot b.task_due t.waits t.newest_kept
      (Reaches-Recorded interval wait now newest held_since b r)
  where
    go :
        (p d : Option ℕ)
        → Waits wait now b.first_suppressed_at p d
        → newest ≡ maybe p (first_of b.emitted) (λ s. some s)
        → held_since ≡ maybe p none (λ s. some b.first_suppressed_at)
        → ((p ≡ none) × (held_since ≡ none) × (first_of b.emitted ≡ newest))
          ⊎ ((due since : ℕ) × (p ≡ newest)
              × (held_since ≡ some since)
              × (d ≡ some due)
              × (now ≤ due)
              × (due ≤ since + wait))
    go none none v n h = inl (refl, h, sym n)
    go none (some due) v n h = absurd v
    go (some s) none v n h = absurd v
    go (some s) (some due) v n h = inr (due, b.first_suppressed_at, sym n, h, refl, v.1, v.2)
