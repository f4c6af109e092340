-- ===== src/Device/Debounce.antt =====
-- pymammotion/device/handle.py, class `_DebouncedBus`. A snapshot is its number; `task_due` is the time
-- at which the task of `_debounce_emit` wakes, none if there is no such task; `emitted` has what the
-- bus behind has been given, the last first. Times are whole ticks.
pub mod Timely
use py_mammotion.Base.{
  maybe, ℕ, zero, suc, ◌+◌, ◌-◌, ◌≤◌, ◌≡◌, Bool, true, false, Option, none, some, List, [], ◌∷◌,
  if◌then◌else◌, ltb, leb, length, ◌==◌, nat_keys,
}

pub record DebouncedBus : Type 0 where
  pub debounce_interval : ℕ
  pub max_debounce_wait : ℕ
  pub pending_snapshot : Option ℕ
  pub task_due : Option ℕ
  pub first_suppressed_at : ℕ
  pub emitted : List ℕ

unfoldable pub init : ℕ → ℕ → DebouncedBus
init interval wait = record {
  debounce_interval = interval;
  max_debounce_wait = wait;
  pending_snapshot = none;
  task_due = none;
  first_suppressed_at = 0;
  emitted = [];
}

unfoldable pub min : ℕ → ℕ → ℕ
min a b = if ltb b a then b else a

-- The start of the burst that a snapshot given at `now` belongs to.
unfoldable pub burst_start : ℕ → DebouncedBus → ℕ
unfolding maybe
burst_start now b = maybe b.pending_snapshot now (λ s. b.first_suppressed_at)

unfoldable pub suppress : ℕ → ℕ → ℕ → DebouncedBus → DebouncedBus
unfolding min
suppress now start s b =
    if leb b.max_debounce_wait (now - start)
    then record b {
      pending_snapshot = none;
      task_due = none;
      first_suppressed_at = start;
      emitted = s ∷ b.emitted;
    }
    else record b {
      pending_snapshot = some s;
      task_due = some (now + min b.debounce_interval (b.max_debounce_wait - (now - start)));
      first_suppressed_at = start;
    }

unfoldable pub emit : ℕ → ℕ → DebouncedBus → DebouncedBus
unfolding burst_start suppress
emit now s b =
    if leb b.debounce_interval 0
    then record b { emitted = s ∷ b.emitted }
    else suppress now (burst_start now b) s b

unfoldable pub debounce_emit : DebouncedBus → DebouncedBus
unfolding maybe
debounce_emit b =
    maybe b.pending_snapshot (record b { task_due = none })
      (λ s. record b { pending_snapshot = none; task_due = none; emitted = s ∷ b.emitted })

unfoldable pub stop : DebouncedBus → DebouncedBus
stop b = record b { pending_snapshot = none; task_due = none }

-- The start of the wait after a snapshot at `later`: nothing waits if it, or the one before, has been
-- passed on with it; else the wait goes on from where it started.
unfoldable pub since_after : Option ℕ → ℕ → DebouncedBus → DebouncedBus → Option ℕ
unfolding maybe
since_after held_since later before after =
    if length before.emitted == length after.emitted
    then some (maybe held_since later (λ since. since))
    else none

-- What a bus can come to: the time, the newest snapshot, the time at which the first of the snapshots
-- was given of which none has been passed on yet, and the state. The task wakes when it is due, before
-- anything later happens.
pub data Reaches (interval wait : ℕ) : ℕ → Option ℕ → Option ℕ → DebouncedBus → Type 0 where
  started : Reaches interval wait 0 none none (init interval wait)
  given :
      {now : ℕ} {newest held_since : Option ℕ} {b : DebouncedBus} (later s : ℕ)
      → Reaches interval wait now newest held_since b
      → now ≤ later
      → maybe b.task_due true (λ due. leb later due) ≡ true
      → Reaches interval wait later
          (some s)
          (since_after held_since later b (emit later s b))
          (emit later s b)
  woken :
      {now : ℕ} {newest held_since : Option ℕ} {b : DebouncedBus} (due : ℕ)
      → Reaches interval wait now newest held_since b
      → b.task_due ≡ some due
      → Reaches interval wait due newest none (debounce_emit b)
