-- ===== src/Messaging/SagaItem/Released.antt =====
-- What the item of a saga leaves, however the saga and its callbacks end.
use py_mammotion.Base.{
  ℕ, zero, suc, ◌+◌, ◌-◌, ◌≤◌, ◌≡◌, refl, ◌∙◌, ap, Bool, true, false, ◌||◌, [], arith, All,
}
use py_mammotion.Messaging.CommandQueue.{
  CommandQueue, WorkResult, success, gateway_timeout, cancelled, failed, Processed, done, given_up,
  reported, stopped, log_level, is_critical, attempts, run_work,
}
use py_mammotion.Messaging.SagaItem.{
  Hooks, SagaRun, is_success, released, run_result, saga_calls, Finished, saga_attempts,
  process_saga,
}
use py_mammotion.Messaging.SagaItem.Calls.{
  completions, Guarded, one_if, is_settled, freed, completed, if_completed, not_completed,
  queue-saga_calls, saga_calls-Guarded, completions-saga_calls,
}

abbrev pub is_done : Processed → Bool
is_done (done n) = true
is_done (given_up n) = false
is_done (reported n l c) = false
is_done stopped = false

abbrev pub is_stopped : Processed → Bool
is_stopped (done n) = false
is_stopped (given_up n) = false
is_stopped (reported n l c) = false
is_stopped stopped = true

-- The queue is free, the item has ended in that way, the saga never ran beside other work, and
-- `on_complete` was called at most once: always if the item is done, and else only if it is stopped.
pub record IsReleased (hooks : Hooks) (q : CommandQueue) (p : Processed) (x : Finished)
    : Type 0 where
  pub queue_free : x.run.queue ≡ freed q
  pub same_end : x.processed ≡ p
  pub guarded : All Guarded x.run.calls
  pub once : completions x.run.calls ≤ 1
  pub when_done : is_done p ≡ true → completions x.run.calls ≡ one_if hooks.completes
  pub only_then : completions x.run.calls ≡ 1 → (is_done p || is_stopped p) ≡ true

-- What an attempt that ends the item leaves.
ended-IsReleased :
    (hooks : Hooks) (q : CommandQueue) (p : Processed) (r : SagaRun) (c : Bool)
    → r.queue ≡ freed q
    → All Guarded r.calls
    → completions r.calls ≡ one_if c
    → (is_done p ≡ true → c ≡ hooks.completes)
    → (c ≡ true → (is_done p || is_stopped p) ≡ true)
    → IsReleased hooks q p (record { run = r; processed = p })
ended-IsReleased hooks q p r c free guarded n d o = record {
  queue_free = free;
  same_end = refl;
  guarded = guarded;
  once = one_if_le c n;
  when_done = λ e. n ∙ ap one_if (d e);
  only_then = λ e. o (called c n e);
}
  where
    one_if_le : (b : Bool) → completions r.calls ≡ one_if b → completions r.calls ≤ 1
    one_if_le true e = omega (arith, e)
    one_if_le false e = omega (arith, e)

    called : (b : Bool) → completions r.calls ≡ one_if b → completions r.calls ≡ 1 → b ≡ true
    called true e x = refl
    called false e x = absurd (omega (arith, e, x))

module _ (hooks : Hooks) (saga : ℕ → WorkResult) (q : CommandQueue) where
  Ends : ℕ → ℕ → SagaRun → Type 0
  Ends left attempt r =
      IsReleased hooks q (attempts left attempt (run_result hooks saga))
        (saga_attempts hooks saga left attempt r)

  step :
      (left attempt : ℕ) (r : SagaRun)
      → freed r.queue ≡ freed q
      → completions r.calls ≡ 0
      → All Guarded r.calls
      → ((r' : SagaRun)
          → r'.queue ≡ freed q
          → completions r'.calls ≡ 0
          → All Guarded r'.calls
          → Ends left (attempt + 1) r')
      → Ends (suc left) attempt r
  unfolding Ends attempts saga_attempts run_result
  step left attempt r free none_yet guarded next = go (run_result hooks saga attempt) refl
    where
      r' : SagaRun
      r' = saga_calls hooks saga attempt r

      c : Bool
      c = completed hooks saga attempt

      free' : r'.queue ≡ freed q
      free' = queue-saga_calls hooks saga attempt r ∙ free

      guarded' : All Guarded r'.calls
      guarded' = saga_calls-Guarded hooks saga attempt r guarded

      count : completions r'.calls ≡ one_if c
      count = omega (arith, completions-saga_calls hooks saga attempt r, none_yet)

      go :
          (x : WorkResult)
          → run_result hooks saga attempt ≡ x
          → IsReleased hooks q
              (elim x [
                | success ↦ done attempt
                | gateway_timeout ↦ attempts left (attempt + 1) (run_result hooks saga)
                | cancelled ↦ stopped
                | failed e ↦ reported attempt (log_level e) (is_critical e)
              ])
              (elim x [
                | success ↦ record { run = r'; processed = done attempt }
                | cancelled ↦ record { run = r'; processed = stopped }
                | failed e ↦ record {
                  run = r';
                  processed = reported attempt (log_level e) (is_critical e);
                }
                | gateway_timeout ↦ saga_attempts hooks saga left (attempt + 1) r'
              ])
      go success e =
          ended-IsReleased hooks q (done attempt) r' c free' guarded' count
            (λ _.
              if_completed hooks.completes (hooks.on_success attempt) (released hooks saga attempt)
                (ap is_success e))
            (λ _. refl)
      go cancelled e =
          ended-IsReleased hooks q stopped r' c free' guarded' count (λ d. absurd (cc d))
            (λ _. refl)
      go (failed x) e =
          let none_called : c ≡ false =
            not_completed hooks.completes (hooks.on_success attempt) (released hooks saga attempt)
              (ap is_settled e) in
          ended-IsReleased hooks q (reported attempt (log_level x) (is_critical x)) r' c free'
            guarded' count (λ d. absurd (cc d)) (λ d. absurd (cc (none_called, d)))
      go gateway_timeout e =
          let none_called : c ≡ false =
            not_completed hooks.completes (hooks.on_success attempt) (released hooks saga attempt)
              (ap is_settled e) in
          next r' free' (count ∙ ap one_if none_called) guarded'

  rest :
      (left attempt : ℕ) (r : SagaRun)
      → r.queue ≡ freed q
      → completions r.calls ≡ 0
      → All Guarded r.calls
      → Ends left attempt r
  unfolding Ends attempts saga_attempts
  rest zero attempt r free zero_calls guarded =
      ended-IsReleased hooks q (given_up (attempt - 1)) r false free guarded zero_calls
        (λ d. absurd (cc d)) (λ d. absurd (cc d))
  rest (suc left) attempt r free zero_calls guarded =
      step left attempt r (ap freed free) zero_calls guarded (rest left (attempt + 1))

  -- However the attempts of a queued saga and the callbacks end, and whichever callbacks are set,
  -- the processing of its item ends as that of other work with the same results does, leaves the
  -- exclusive slot free and otherwise the queue as it was, never starts the saga while the
  -- exclusive slot is free, and calls on_complete at most once: once if it is set and the item is
  -- done, and else only if the item is stopped.
  pub process_saga-IsReleased :
      IsReleased hooks q (run_work (run_result hooks saga)) (process_saga hooks saga q)
  unfolding process_saga run_work Ends
  process_saga-IsReleased = step 2 1 (record { queue = q; calls = [] }) refl refl tt (rest 2 2)
