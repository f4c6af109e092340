-- ===== src/Messaging/Broker/Pending.antt =====
-- Which call owns an entry of the pending table.
use py_mammotion.Base.{
  ℕ, ◌+◌, ◌≤◌, String, ◌≡◌, refl, Option, none, some, List, [], ◌∷◌, arith, ◌==◌, string_keys,
  nat_keys, eqb_iff, Bool-cases, inl, inr, ltb,
}
use py_mammotion.Base.Dict.{lookup, insert, lookup-insert, lookup-erase}
use py_mammotion.Messaging.Broker.{
  Broker, Request, Event, Outcome, Future, send, message, timer, resume, cancel, nothing,
  command_timeout, returned, was_cancelled, waiting, resolved, cancelled, init, finish,
  send_and_wait, expire, wake, on_message, at_request, step, run,
}

module _ {M : Type 0} where
  pub record IsPaired (b : Broker M) : Type 0 where
    pub owned :
        (id : ℕ) (r : Request M)
        → lookup id b.requests ≡ some r
        → r.outcome ≡ none
        → lookup r.expected_field b.pending ≡ some id
    pub fresh : (id : ℕ) → b.next ≤ id → lookup id b.requests ≡ none

  finish-IsPaired :
      (b : Broker M) (id : ℕ) (r : Request M) (o : Outcome M)
      → lookup id b.requests ≡ some r
      → r.outcome ≡ none
      → IsPaired b
      → IsPaired (finish b id r o)
  unfolding finish
  finish-IsPaired b id r o q active w = record {
    owned = λ j s qs as'. ground (
      arith,
      lookup-insert id j (record r { outcome = some o }) b.requests,
      lookup-erase r.expected_field s.expected_field b.pending,
      string_keys.same_iff r.expected_field s.expected_field,
      eqb_iff id j,
      w.owned id r q active,
      w.owned j s,
    );
    fresh = λ j h. ground (
      arith,
      lookup-insert id j (record r { outcome = some o }) b.requests,
      eqb_iff id j,
      w.fresh j,
      w.fresh id,
    );
  }

  registered : Broker M → String → ℕ → Broker M
  registered b field retries = record b {
    pending = insert field b.next b.pending;
    futures = insert b.next waiting b.futures;
    requests =
        insert b.next
          (record { expected_field = field; attempt = 1; retries = retries; outcome = none })
          b.requests;
    next = b.next + 1;
  }

  registered-IsPaired :
      (b : Broker M) (field : String) (retries : ℕ)
      → lookup field b.pending ≡ none
      → IsPaired b
      → IsPaired (registered b field retries)
  unfolding registered
  registered-IsPaired b field retries q w = record {
    owned = λ j s qs as'. ground (
      arith,
      lookup-insert b.next j
          (record { expected_field = field; attempt = 1; retries = retries; outcome = none })
          b.requests,
      lookup-insert field s.expected_field b.next b.pending,
      string_keys.same_iff field s.expected_field,
      eqb_iff b.next j,
      w.owned j s,
    );
    fresh = λ j h. ground (
      arith,
      lookup-insert b.next j
          (record { expected_field = field; attempt = 1; retries = retries; outcome = none })
          b.requests,
      eqb_iff b.next j,
      w.fresh j,
    );
  }

  send-IsPaired :
      (b : Broker M) (field : String) (retries : ℕ)
      → IsPaired b
      → IsPaired (step b (send field retries))
  unfolding step send_and_wait registered
  send-IsPaired b field retries w = go (lookup field b.pending) refl
    where
      go : (o : Option ℕ) → lookup field b.pending ≡ o → IsPaired (step b (send field retries))
      go (some _) e = rw (e, step, send_and_wait) w
      go none e = elim (Bool-cases (retries == 0)) [
        | inl zero' ↦
            rw (e, step, send_and_wait, zero')
              (finish-IsPaired (registered b field retries) b.next _ nothing
                (ground (
                  arith,
                  lookup-insert b.next b.next
                      (record {
                        expected_field = field;
                        attempt = 1;
                        retries = retries;
                        outcome = none;
                      })
                      b.requests,
                ))
                refl (registered-IsPaired b field retries e w))
        | inr some' ↦ rw (e, step, send_and_wait, some') (registered-IsPaired b field retries e w)
      ]

  same-IsPaired :
      (b c : Broker M)
      → c.pending ≡ b.pending
      → c.requests ≡ b.requests
      → c.next ≡ b.next
      → IsPaired b
      → IsPaired c
  same-IsPaired b c p q n w = record {
    owned = λ id r at active. rw p (w.owned id r (rw q at at) active);
    fresh = λ id h. rw q (w.fresh id (rw n at h));
  }

  on_message-same :
      (b : Broker M) (f : Option String) (m : M)
      → ((on_message b f m).pending ≡ b.pending)
        × ((on_message b f m).requests ≡ b.requests)
        × ((on_message b f m).next ≡ b.next)
  unfolding on_message
  on_message-same b none m = (refl, refl, refl)
  on_message-same b (some f) m = ground arith

  expire-IsPaired :
      (b : Broker M) (id : ℕ) (r : Request M)
      → lookup id b.requests ≡ some r
      → r.outcome ≡ none
      → IsPaired b
      → IsPaired (expire b id r)
  unfolding expire
  expire-IsPaired b id r q active w = elim (Bool-cases (ltb r.attempt r.retries)) [
    | inl more ↦ rw more (record {
      owned = λ j s qs as'. ground (
        arith,
        lookup-insert id j (record r { attempt = r.attempt + 1 }) b.requests,
        eqb_iff id j,
        w.owned id r q active,
        w.owned j s,
      );
      fresh = λ j h. ground (
        arith,
        lookup-insert id j (record r { attempt = r.attempt + 1 }) b.requests,
        eqb_iff id j,
        w.fresh j,
        w.fresh id,
      );
    })
    | inr last ↦ rw last (finish-IsPaired b id r command_timeout q active w)
  ]

  wake-IsPaired :
      (b : Broker M) (id : ℕ) (r : Request M)
      → lookup id b.requests ≡ some r
      → r.outcome ≡ none
      → IsPaired b
      → IsPaired (wake b id r)
  unfolding wake
  wake-IsPaired b id r q active w = go (lookup id b.futures) refl
    where
      go : (o : Option (Future M)) → lookup id b.futures ≡ o → IsPaired (wake b id r)
      go none e = rw (e, wake) w
      go (some waiting) e = rw (e, wake) w
      go (some (resolved m)) e = rw (e, wake) (finish-IsPaired b id r (returned m) q active w)
      go (some cancelled) e = rw (e, wake) (finish-IsPaired b id r was_cancelled q active w)

  at_request-IsPaired :
      (b : Broker M) (id : ℕ) (f : Request M → Broker M) (o : Option (Request M))
      → ((r : Request M) → o ≡ some r → r.outcome ≡ none → IsPaired (f r))
      → IsPaired b
      → IsPaired (at_request b id f o)
  at_request-IsPaired b id f none keep w = w
  at_request-IsPaired b id f (some r) keep w = go r.outcome refl
    where
      go : (o : Option (Outcome M)) → r.outcome ≡ o → IsPaired (at_request b id f (some r))
      go none e = rw (e, at_request) (keep r refl e)
      go (some _) e = rw (e, at_request) w

  pub step-IsPaired : (b : Broker M) (e : Event M) → IsPaired b → IsPaired (step b e)
  unfolding step
  step-IsPaired b (send field retries) w = send-IsPaired b field retries w
  step-IsPaired b (message f m) w =
      same-IsPaired b (on_message b f m) (on_message-same b f m).0 (on_message-same b f m).1
        (on_message-same b f m).2 w
  step-IsPaired b (timer id) w =
      at_request-IsPaired b id _ (lookup id b.requests) (λ r q a. expire-IsPaired b id r q a w) w
  step-IsPaired b (resume id) w =
      at_request-IsPaired b id _ (lookup id b.requests) (λ r q a. wake-IsPaired b id r q a w) w
  step-IsPaired b (cancel id) w =
      at_request-IsPaired b id _ (lookup id b.requests)
        (λ r q a. finish-IsPaired b id r was_cancelled q a w) w

  pub run-IsPaired : (b : Broker M) (es : List (Event M)) → IsPaired b → IsPaired (run b es)
  unfolding run
  run-IsPaired b [] w = w
  run-IsPaired b (e ∷ es) w = run-IsPaired (step b e) es (step-IsPaired b e w)

  pub init-IsPaired : IsPaired (init {M = M})
  unfolding init lookup
  init-IsPaired = record { owned = λ id r q a. absurd (cc q); fresh = λ id h. refl }

  -- From a new broker, after any sends, messages, timeouts, resumptions and cancellations, if calls
  -- i and j have not ended and wait for the same field, then the pending entry of that field is
  -- call i and i is j.
  pub run-init-IsPaired :
      (es : List (Event M)) (i j : ℕ) (r s : Request M)
      → lookup i (run init es).requests ≡ some r
      → r.outcome ≡ none
      → lookup j (run init es).requests ≡ some s
      → s.outcome ≡ none
      → r.expected_field ≡ s.expected_field
      → (lookup r.expected_field (run init es).pending ≡ some i) × (i ≡ j)
  run-init-IsPaired es i j r s qr ar qs as' same =
      let w = run-IsPaired init es init-IsPaired in
      ground (arith, w.owned i r qr ar, w.owned j s qs as')
