-- ===== src/Messaging/CommandQueue/Dedup/Run.antt =====
-- The invariant of the dedup keys through `enqueue`, the dequeue of `_process`, the transport gate and
-- the start and end of a saga.
use py_mammotion.Base.{
  ℕ, ◌+◌, ◌≤◌, ◌≡◌, refl, Bool, true, false, Option, none, some, List, [], ◌∷◌, arith, string_keys,
  String, elem, nodup, All-mono, All-append, sym, ◌∙◌, inl, inr, ◌⊎◌,
}
use py_mammotion.Messaging.CommandQueue.{
  QueueItem, CommandQueue, Priority, init, new_item, may_skip, put, enqueue, taken, dequeue,
  pop_min, is_pending, discard_key, pause_for_reconnect, resume_after_reconnect,
}
use py_mammotion.Messaging.CommandQueue.Order.{Picked, pop_min-IsNext}
use py_mammotion.Messaging.CommandQueue.Dedup.{
  IsKeyed, keys_of, elem-add_key, elem-discard_key, elem-keys_of-append, nodup-snoc, Picked-elem,
  Picked-nodup, Picked-All,
}

pub init-IsKeyed : IsKeyed init
unfolding init keys_of nodup
init-IsKeyed = record { exact = λ k. refl; distinct = refl; numbered = tt }

put-IsKeyed :
    (q : CommandQueue) (now work : ℕ) (p : Priority) (skip' : Bool) (key : Option String)
    → is_pending key (keys_of q.queue) ≡ false
    → IsKeyed q
    → IsKeyed (put q now work p skip' key)
unfolding put keys_of elem
put-IsKeyed q now work p skip' key free w =
    let item : QueueItem = new_item q now work p skip' key in
    record {
      exact = λ k. ground (
        arith,
        elem-keys_of-append k q.queue (item ∷ []),
        elem-add_key k key q.pending_dedup_keys,
        elem-add_key k key [],
        w.exact k,
      );
      distinct = nodup-snoc q.queue item w.distinct free;
      numbered =
          All-append _ q.queue (item ∷ [])
            (All-mono (λ i. i.sequence ≤ q.seq) (λ i. i.sequence ≤ q.seq + 1)
              (λ i h. omega (arith, h)) q.queue w.numbered)
            (omega arith, tt);
    }

exact-pending :
    (d : Option String) (q : CommandQueue)
    → IsKeyed q
    → is_pending d (keys_of q.queue) ≡ is_pending d q.pending_dedup_keys
exact-pending none q w = refl
exact-pending (some k) q w = sym (w.exact k)

-- What `enqueue` can do: nothing, or add the item, and the latter only if its key is free.
pub enqueue-cases :
    (q : CommandQueue) (now work : ℕ) (p : Priority) (skip' : Bool) (key : Option String)
    → (enqueue q now work p skip' key ≡ q)
      ⊎ ((is_pending key q.pending_dedup_keys ≡ false)
          × (enqueue q now work p skip' key ≡ put q now work p (may_skip p skip') key))
unfolding enqueue
enqueue-cases q now work p skip' key = ground arith

pub enqueue-IsKeyed :
    (q : CommandQueue) (now work : ℕ) (p : Priority) (skip' : Bool) (key : Option String)
    → IsKeyed q
    → IsKeyed (enqueue q now work p skip' key)
enqueue-IsKeyed q now work p skip' key w = elim (enqueue-cases q now work p skip' key) [
  | inl e ↦ rw e w
  | inr (free, e) ↦
      rw e (put-IsKeyed q now work p (may_skip p skip') key (exact-pending key q w ∙ free) w)
]

taken-IsKeyed :
    (q : CommandQueue) (m : QueueItem) (q' : CommandQueue) (o : Option (QueueItem × List QueueItem))
    → ((n : QueueItem) (rest : List QueueItem) → o ≡ some (n, rest) → Picked n q.queue rest)
    → taken q o ≡ some (m, q')
    → IsKeyed q
    → IsKeyed q'
unfolding taken
taken-IsKeyed q m q' none f e w = absurd (cc e)
taken-IsKeyed q m q' (some (n, rest)) f e w =
    let p : Picked n q.queue rest = f n rest refl in
    let q2 : CommandQueue = record q {
      queue = rest;
      pending_dedup_keys = discard_key n.dedup_key q.pending_dedup_keys;
    } in
    let same : q2 ≡ q' = cc e in
    let h : IsKeyed q2 = record {
      exact = λ k. ground (
        arith,
        Picked-elem k n q.queue rest p w.distinct,
        elem-discard_key k n.dedup_key q.pending_dedup_keys,
        w.exact k,
      );
      distinct = Picked-nodup n q.queue rest p w.distinct;
      numbered = Picked-All (λ i. i.sequence ≤ q.seq) n q.queue rest p w.numbered;
    } in
    rw (sym same) h

pub dequeue-IsKeyed :
    (q : CommandQueue) (m : QueueItem) (q' : CommandQueue)
    → dequeue q ≡ some (m, q')
    → IsKeyed q
    → IsKeyed q'
unfolding dequeue
dequeue-IsKeyed q m q' e w =
    taken-IsKeyed q m q' (pop_min q.queue) (λ n rest h. (pop_min-IsNext q.queue n rest h).picked) e
      w

-- The operations that change the queue, in any order.
pub data Op : Type 0 where
  enqueued : ℕ → ℕ → Priority → Bool → Option String → Op
  processed : Op
  paused : Op
  resumed : Op
  saga_started saga_ended : Op

after_dequeue : CommandQueue → Option (QueueItem × CommandQueue) → CommandQueue
after_dequeue q none = q
after_dequeue q (some (_, q')) = q'

unfoldable pub apply : CommandQueue → Op → CommandQueue
unfolding after_dequeue
apply q (enqueued now work p skip' key) = enqueue q now work p skip' key
apply q processed = after_dequeue q (dequeue q)
apply q paused = pause_for_reconnect q
apply q resumed = resume_after_reconnect q
apply q saga_started = record q { exclusive_free = false }
apply q saga_ended = record q { exclusive_free = true }

unfoldable pub run : CommandQueue → List Op → CommandQueue
run q [] = q
run q (o ∷ os) = run (apply q o) os

apply-IsKeyed : (q : CommandQueue) (o : Op) → IsKeyed q → IsKeyed (apply q o)
unfolding apply pause_for_reconnect resume_after_reconnect
apply-IsKeyed q (enqueued now work p skip' key) w = enqueue-IsKeyed q now work p skip' key w
apply-IsKeyed q processed w = go (dequeue q) refl
  where
    go : (o : Option (QueueItem × CommandQueue)) → dequeue q ≡ o → IsKeyed (after_dequeue q o)
    go none e = w
    go (some (m, q')) e = dequeue-IsKeyed q m q' e w
apply-IsKeyed q paused w = record { exact = w.exact; distinct = w.distinct; numbered = w.numbered }
apply-IsKeyed q resumed w = record { exact = w.exact; distinct = w.distinct; numbered = w.numbered }
apply-IsKeyed q saga_started w = record {
  exact = w.exact;
  distinct = w.distinct;
  numbered = w.numbered;
}
apply-IsKeyed q saga_ended w = record {
  exact = w.exact;
  distinct = w.distinct;
  numbered = w.numbered;
}

run-IsKeyed : (q : CommandQueue) (os : List Op) → IsKeyed q → IsKeyed (run q os)
unfolding run
run-IsKeyed q [] w = w
run-IsKeyed q (o ∷ os) w = run-IsKeyed (apply q o) os (apply-IsKeyed q o w)

-- After any sequence of enqueues, dequeues, pauses, resumptions and starts and ends of sagas from a
-- new queue, a key is in the pending set exactly when an item with that key waits, no two waiting
-- items share a key, and no waiting item has a sequence number above the counter.
pub run-init-IsKeyed : (os : List Op) → IsKeyed (run init os)
run-init-IsKeyed os = run-IsKeyed init os init-IsKeyed
