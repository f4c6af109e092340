-- ===== src/Messaging/CommandQueue/Dispatch.antt =====
-- What `enqueue` accepts, and when `_process` runs an item.
use py_mammotion.Base.{
  ℕ, ◌+◌, ◌≤◌, ◌<◌, ◌≡◌, ◌↔◌, ◌⊎◌, Bool, true, false, Option, [], ◌∷◌, arith, String, length,
  length-append,
}
use py_mammotion.Messaging.CommandQueue.{
  QueueItem, CommandQueue, Priority, emergency, exclusive, normal, background, rank, is_pending,
  enqueue, new_item, may_skip, put, start, advance, expired, running, dropped, waits_for_saga,
  pass_saga, pass_gate,
}

length-put :
    (q : CommandQueue) (now work : ℕ) (p : Priority) (skip : Bool) (key : Option String)
    → length (put q now work p skip key).queue ≡ length q.queue + 1
unfolding put
length-put q now work p skip key =
    omega (arith, length-append q.queue (new_item q now work p skip key ∷ []))

-- enqueue makes the queue one item longer exactly when the dedup key is none or not pending, and
-- the item does not ask to be skipped, or no saga runs, or its priority is EMERGENCY or EXCLUSIVE.
pub length-enqueue_iff :
    (q : CommandQueue) (now work : ℕ) (p : Priority) (skip : Bool) (key : Option String)
    → (length (enqueue q now work p skip key).queue ≡ length q.queue + 1) ↔ (
        (is_pending key q.pending_dedup_keys ≡ false)
        × ((skip ≡ false) ⊎ (q.exclusive_free ≡ true) ⊎ (rank p ≤ rank exclusive)))
unfolding enqueue put
length-enqueue_iff q now work p skip key =
    ground (arith, length-put q now work p (may_skip p skip) key)

-- A dequeued EMERGENCY item is run at once, whatever its age, whether or not a saga runs, and
-- whether or not the transport gate is open.
pub emergency_runs :
    (q : CommandQueue) (item : QueueItem) (now : ℕ)
    → item.priority ≡ emergency
    → advance q item (start item now) ≡ running
unfolding advance start expired pass_saga pass_gate
emergency_runs q item now e = ground arith

-- An item that waits for the exclusive slot goes on to run exactly when no saga runs or its
-- priority is EMERGENCY or EXCLUSIVE, and the transport gate is open or its priority is EMERGENCY.
pub advance-running_iff :
    (q : CommandQueue) (item : QueueItem)
    → (advance q item waits_for_saga ≡ running) ↔ (
        ((q.exclusive_free ≡ true) ⊎ (rank item.priority ≤ 1))
        × ((q.transport_gate ≡ true) ⊎ (item.priority ≡ emergency)))
unfolding advance pass_saga pass_gate
advance-running_iff q item = ground arith

-- A dequeued item is dropped for its age exactly when it is NORMAL or BACKGROUND and more than 120
-- seconds have passed since it was enqueued.
pub start-dropped_iff :
    (item : QueueItem) (now : ℕ)
    → (start item now ≡ dropped)
      ↔ (((item.priority ≡ normal) ⊎ (item.priority ≡ background)) × (item.enqueued_at + 120 < now))
unfolding start expired
start-dropped_iff item now = ground arith
