-- ===== src/Messaging/Broker/Delivery.antt =====
-- Where a message goes, and how a waiting call ends.
use py_mammotion.Base.{
  ℕ, ◌<◌, String, ◌≡◌, refl, false, Option, none, some, [], ◌∷◌, ◌++◌, arith, string_keys, nat_keys,
  eqb_iff,
}
use py_mammotion.Base.Dict.{Dict, lookup, insert, lookup-insert, lookup-erase}
use py_mammotion.Messaging.Broker.{
  Broker, Request, Event, Outcome, Future, send, message, timer, resume, cancel, returned, waiting,
  resolved, cancelled, finish, send_and_wait, expire, wake, on_message, step, is_waiting,
  cancel_future,
}
use py_mammotion.Messaging.Broker.Pending.{IsPaired}

module _ {M : Type 0} where
  delivered :
      (b : Broker M) (id : ℕ) (field : String) (m : M)
      → lookup field b.pending ≡ some id
      → lookup id b.futures ≡ some waiting
      → on_message b (some field) m ≡ record b { futures = insert id (resolved m) b.futures }
  unfolding on_message
  delivered b id field m q f = rw (q, on_message, f)

  resumed :
      (b : Broker M) (id : ℕ) (r : Request M) (m : M)
      → lookup id b.requests ≡ some r
      → r.outcome ≡ none
      → lookup id b.futures ≡ some (resolved m)
      → step b (resume id) ≡ finish b id r (returned m)
  unfolding step wake finish
  resumed b id r m q active f = ground arith

  -- In a broker where each waiting call owns the pending entry of its field: a message for the
  -- field of a call that has not ended and whose future waits, followed by the resumption of that
  -- call, ends the call with that message, removes its pending entry, and emits nothing.
  pub reply_reaches :
      (b : Broker M) (id : ℕ) (r : Request M) (m : M)
      → IsPaired b
      → lookup id b.requests ≡ some r
      → r.outcome ≡ none
      → lookup id b.futures ≡ some waiting
      → let b' = step (step b (message (some r.expected_field) m)) (resume id) in
        (lookup id b'.requests ≡ some (record r { outcome = some (returned m) }))
        × (lookup r.expected_field b'.pending ≡ none)
        × (b'.emitted ≡ b.emitted)
  unfolding step finish
  reply_reaches b id r m w q active f =
      let c : Broker M = record b { futures = insert id (resolved m) b.futures } in
      rw
        (
          delivered b id r.expected_field m (w.owned id r q active) f,
          resumed c id r m q active (ground (arith, lookup-insert id id (resolved m) b.futures)),
        )
        (
          ground (arith, lookup-insert id id (record r { outcome = some (returned m) }) b.requests),
          ground (
            arith,
            lookup-erase r.expected_field r.expected_field b.pending,
            string_keys.same_iff r.expected_field r.expected_field,
          ),
          refl,
        )

  -- If every call that is pending for a field has a future that is done, or no call is, then a
  -- message for that field is emitted at the end and changes nothing else.
  pub unsolicited_emitted :
      (b : Broker M) (field : String) (m : M)
      → ((id : ℕ) → lookup field b.pending ≡ some id → is_waiting (lookup id b.futures) ≡ false)
      → on_message b (some field) m ≡ record b { emitted = b.emitted ++ m ∷ [] }
  unfolding on_message
  unsolicited_emitted b field m h = go (lookup field b.pending) refl
    where
      go :
          (o : Option ℕ)
          → lookup field b.pending ≡ o
          → on_message b (some field) m ≡ record b { emitted = b.emitted ++ m ∷ [] }
      go none e = rw (e, on_message)
      go (some id) e = rw (e, on_message, h id e)

  lookup-cancel_future :
      (j id : ℕ) (futures : Dict ℕ (Future M)) (v : Future M)
      → lookup id futures ≡ some v
      → is_waiting (some v) ≡ false
      → lookup id (cancel_future j futures) ≡ some v
  lookup-cancel_future j id futures v q done =
      ground (arith, lookup-insert j id cancelled futures, eqb_iff j id)

  lookup-finish :
      (b : Broker M) (j id : ℕ) (r : Request M) (o : Outcome M) (v : Future M)
      → lookup id b.futures ≡ some v
      → is_waiting (some v) ≡ false
      → lookup id (finish b j r o).futures ≡ some v
  unfolding finish
  lookup-finish b j id r o v q done = lookup-cancel_future j id b.futures v q done

  -- If a future of a call that has been made is done, then any one send, message, timeout,
  -- resumption or cancellation leaves it with the same result.
  pub step-done :
      (b : Broker M) (e : Event M) (id : ℕ) (v : Future M)
      → id < b.next
      → lookup id b.futures ≡ some v
      → is_waiting (some v) ≡ false
      → lookup id (step b e).futures ≡ some v
  unfolding step send_and_wait expire wake on_message finish
  step-done b (send field retries) id v h q done = ground (
    arith,
    eqb_iff b.next id,
    lookup-insert b.next id waiting b.futures,
    lookup-cancel_future b.next id (insert b.next waiting b.futures) v,
  )
  step-done b (message none m) id v h q done = q
  step-done b (message (some f) m) id v h q done = stored (lookup f b.pending) refl
    where
      stored :
          (o : Option ℕ)
          → lookup f b.pending ≡ o
          → lookup id (on_message b (some f) m).futures ≡ some v
      stored none e = rw (e, on_message) q
      stored (some j) e =
          rw (e, on_message)
            (ground (arith, eqb_iff j id, lookup-insert j id (resolved m) b.futures))
  step-done b (timer j) id v h q done = ground (arith, lookup-cancel_future j id b.futures v)
  step-done b (resume j) id v h q done = ground (arith, lookup-cancel_future j id b.futures v)
  step-done b (cancel j) id v h q done = ground (arith, lookup-cancel_future j id b.futures v)
