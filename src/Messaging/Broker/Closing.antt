-- ===== src/Messaging/Broker/Closing.antt =====
-- `close` while calls wait.
use py_mammotion.Base.{
  ℕ, suc, ◌+◌, ◌≡◌, ◌≢◌, true, none, some, List, [], ◌∷◌, arith, elem, String, string_keys,
  nat_keys, eqb_iff,
}
use py_mammotion.Base.Dict.{Dict, lookup, values, insert, lookup-insert, lookup-erase}
use py_mammotion.Messaging.Broker.{
  Broker, Request, Future, send, resume, waiting, cancelled, was_cancelled, finish, send_and_wait,
  wake, step, close, cancel_all, cancel_future,
}
use py_mammotion.Messaging.Broker.Pending.{IsPaired}

elem-values :
    (f : String) (i : ℕ) (d : Dict String ℕ) → lookup f d ≡ some i → elem i (values d) ≡ true
unfolding elem values lookup
elem-values f i [] q = absurd (cc q)
elem-values f i ((g, j) ∷ d) q = ground (arith, elem-values f i d, eqb_iff j i)

module _ {M : Type 0} where
  cancel_all-cancelled :
      (i : ℕ) (ids : List ℕ) (futures : Dict ℕ (Future M))
      → lookup i futures ≡ some cancelled
      → lookup i (cancel_all ids futures) ≡ some cancelled
  unfolding cancel_all
  cancel_all-cancelled i [] futures q = q
  cancel_all-cancelled i (id ∷ ids) futures q =
      cancel_all-cancelled i ids (cancel_future id futures)
        (ground (arith, lookup-insert id i cancelled futures, eqb_iff id i))

  cancel_all-waiting :
      (i : ℕ) (ids : List ℕ) (futures : Dict ℕ (Future M))
      → lookup i futures ≡ some waiting
      → elem i ids ≡ true
      → lookup i (cancel_all ids futures) ≡ some cancelled
  unfolding cancel_all elem
  cancel_all-waiting i [] futures q h = absurd (cc h)
  cancel_all-waiting i (id ∷ ids) futures q h = ground (
    arith,
    cancel_all-waiting i ids (cancel_future id futures),
    cancel_all-cancelled i ids (cancel_future id futures),
    lookup-insert id i cancelled futures,
    eqb_iff id i,
  )

  new_call : String → ℕ → Request M
  new_call field retries = record {
    expected_field = field;
    attempt = 1;
    retries = retries;
    outcome = none;
  }

  -- The broker after `close` and a new call for a field.
  reopened : Broker M → String → ℕ → Broker M
  reopened b field retries = record b {
    pending = (field, b.next) ∷ [];
    futures = insert b.next waiting (cancel_all (values b.pending) b.futures);
    requests = insert b.next (new_call field retries) b.requests;
    next = b.next + 1;
  }

  step-close :
      (b : Broker M) (field : String) (retries : ℕ)
      → step (close b) (send field (suc retries)) ≡ reopened b field (suc retries)
  unfolding step close send_and_wait lookup insert reopened new_call
  step-close b field retries = ground arith

  step-resume_cancelled :
      (c : Broker M) (i : ℕ) (r : Request M)
      → lookup i c.requests ≡ some r
      → r.outcome ≡ none
      → lookup i c.futures ≡ some cancelled
      → step c (resume i) ≡ finish c i r was_cancelled
  unfolding step wake finish
  step-resume_cancelled c i r q active f = ground arith

  -- In a broker where each waiting call owns the pending entry of its field: if close is called
  -- while a call waits, a new call for the same field with at least one attempt is registered next,
  -- and then the closed call resumes, then the new call has not ended but no call is pending for
  -- its field.
  pub close_loses :
      (b : Broker M) (i : ℕ) (r : Request M) (retries : ℕ)
      → IsPaired b
      → lookup i b.requests ≡ some r
      → r.outcome ≡ none
      → lookup i b.futures ≡ some waiting
      → let b' = step (step (close b) (send r.expected_field (suc retries))) (resume i) in
        (lookup b.next b'.requests
          ≡ some (record {
            expected_field = r.expected_field;
            attempt = 1;
            retries = suc retries;
            outcome = none;
          }))
        × (lookup r.expected_field b'.pending ≡ none)
  unfolding finish reopened new_call
  close_loses b i r retries w q active f =
      let c : Broker M = reopened b r.expected_field (suc retries) in
      let apart : i ≢ b.next = λ e. absurd (cc (q, w.fresh i (omega (arith, e)))) in
      let held : lookup i c.requests ≡ some r = ground (
        arith,
        apart,
        q,
        lookup-insert b.next i (new_call r.expected_field (suc retries)) b.requests,
        eqb_iff b.next i,
      ) in
      let gone : lookup i c.futures ≡ some cancelled = ground (
        arith,
        apart,
        cancel_all-waiting i (values b.pending) b.futures f
            (elem-values r.expected_field i b.pending (w.owned i r q active)),
        lookup-insert b.next i waiting (cancel_all (values b.pending) b.futures),
        eqb_iff b.next i,
      ) in
      rw (step-close b r.expected_field retries, step-resume_cancelled c i r held active gone)
        (
          ground (
            arith,
            apart,
            eqb_iff i b.next,
            lookup-insert i b.next (record r { outcome = some was_cancelled }) c.requests,
            lookup-insert b.next b.next (new_call r.expected_field (suc retries)) b.requests,
          ),
          ground (
            arith,
            lookup-erase r.expected_field r.expected_field c.pending,
            string_keys.same_iff r.expected_field r.expected_field,
          ),
        )
