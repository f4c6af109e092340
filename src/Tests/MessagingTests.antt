-- ===== src/Tests/MessagingTests.antt =====
-- A broker with one call in flight, and a queue with two items.
use py_mammotion.Base.{
  ℕ, ◌≡◌, ◌∷◌, [], List, false, none, some, refl, sym, suc, nat_keys, string_keys,
}
use py_mammotion.Base.Dict.{lookup, insert}
use py_mammotion.Messaging.Broker as Broker
use py_mammotion.Messaging.Broker.{
  Event, send, message, timer, resume, Request, Future, waiting, resolved, returned, step,
  on_message, is_waiting,
}
use py_mammotion.Messaging.Broker.Pending.{IsPaired, run-IsPaired, init-IsPaired, run-init-IsPaired}
use py_mammotion.Messaging.Broker.Delivery.{reply_reaches}
use py_mammotion.Messaging.Broker.Closing.{close_loses}
use py_mammotion.Messaging.CommandQueue as Queue
use py_mammotion.Messaging.CommandQueue.{
  CommandQueue, QueueItem, Priority, emergency, normal, background, rank, enqueue, pop_min, start,
  advance, running, dropped, waits_for_saga, WorkResult, success, gateway_timeout, run_work,
  is_pending,
}
use py_mammotion.Messaging.CommandQueue.Order.{IsNext, pop_min-IsNext}
use py_mammotion.Messaging.CommandQueue.Dedup.{IsKeyed}
use py_mammotion.Messaging.CommandQueue.Dedup.Run.{Op, enqueued, processed, run, run-init-IsKeyed}

abbrev one_call : List (Event ℕ)
one_call = send "toapp_gethash_ack" 3 ∷ []

abbrev call : Request ℕ
call = record { expected_field = "toapp_gethash_ack"; attempt = 1; retries = 3; outcome = none }

abbrev in_flight : Broker.Broker ℕ
in_flight = record {
  pending = ("toapp_gethash_ack", 0) ∷ [];
  futures = (0, waiting) ∷ [];
  requests = (0, call) ∷ [];
  next = 1;
  emitted = [];
}

in_flight_run : Broker.run Broker.init one_call ≡ in_flight
unfolding Broker.run Broker.init step Broker.send_and_wait lookup insert
in_flight_run = refl

abbrev first_id : ℕ
first_id = 0

run-init-IsPaired_example :
    (lookup call.expected_field (Broker.run Broker.init one_call).pending ≡ some first_id)
    × (first_id ≡ first_id)
unfolding lookup
run-init-IsPaired_example =
    run-init-IsPaired one_call first_id first_id call call (rw in_flight_run refl) refl
      (rw in_flight_run refl) refl refl

in_flight-IsPaired : IsPaired in_flight
in_flight-IsPaired = rw (sym in_flight_run) (run-IsPaired Broker.init one_call init-IsPaired)

reply_reaches_example :
    let b' = step (step in_flight (message (some call.expected_field) 42)) (resume first_id) in
    (lookup first_id b'.requests ≡ some (record call { outcome = some (returned 42) }))
    × (lookup call.expected_field b'.pending ≡ none)
    × (b'.emitted ≡ in_flight.emitted)
unfolding lookup
reply_reaches_example = reply_reaches in_flight first_id call 42 in_flight-IsPaired refl refl refl

-- The call has its answer and has not resumed yet.
abbrev answered : Broker.Broker ℕ
answered = record in_flight { futures = (0, resolved 42) ∷ [] }

close_loses_example :
    let b' =
      step (step (Broker.close in_flight) (send call.expected_field (suc 1))) (resume first_id) in
    (lookup in_flight.next b'.requests
      ≡ some (record {
        expected_field = call.expected_field;
        attempt = 1;
        retries = suc 1;
        outcome = none;
      }))
    × (lookup call.expected_field b'.pending ≡ none)
unfolding lookup
close_loses_example = close_loses in_flight first_id call 1 in_flight-IsPaired refl refl refl

abbrev item_of : Priority → ℕ → ℕ → QueueItem
item_of p n at = record {
  priority = p;
  sequence = n;
  work = n;
  skip_if_saga_active = false;
  dedup_key = none;
  enqueued_at = at;
}

abbrev two_items : List QueueItem
two_items = item_of normal 1 10 ∷ item_of emergency 2 11 ∷ []

two_items_least : pop_min two_items ≡ some (item_of emergency 2 11, item_of normal 1 10 ∷ [])
unfolding pop_min Queue.before
two_items_least = refl

pop_min-IsNext_example : IsNext two_items (item_of emergency 2 11) (item_of normal 1 10 ∷ [])
pop_min-IsNext_example =
    pop_min-IsNext two_items (item_of emergency 2 11) (item_of normal 1 10 ∷ []) two_items_least

abbrev sync_twice : List Op
sync_twice =
    enqueued 5 1 normal false (some "map_sync")
    ∷ enqueued 6 2 normal false (some "map_sync")
    ∷ processed
    ∷ []

run-init-IsKeyed_example : IsKeyed (run Queue.init sync_twice)
run-init-IsKeyed_example = run-init-IsKeyed sync_twice

-- A saga runs, and the transport gate is closed.
abbrev busy : CommandQueue
busy = record {
  queue = [];
  exclusive_free = false;
  transport_gate = false;
  seq = 4;
  pending_dedup_keys = "map_sync" ∷ [];
}
