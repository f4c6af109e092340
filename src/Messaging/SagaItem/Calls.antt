-- ===== src/Messaging/SagaItem/Calls.antt =====
-- Which calls one attempt at the item of a saga adds, and what it leaves of the queue.
use py_mammotion.Base.{
  ℕ, ◌+◌, ◌≡◌, refl, ◌∙◌, ap, Bool, true, false, ◌&&◌, List, [], ◌∷◌, if◌then◌else◌, arith, All,
}
use py_mammotion.Messaging.CommandQueue.{
  CommandQueue, WorkResult, success, gateway_timeout, cancelled, failed,
}
use py_mammotion.Messaging.SagaItem.{
  Hook, on_saga_start, execute, on_saga_end, on_complete, CallbackEnd, over, interrupted, Call,
  Hooks, SagaRun, call, call_if, set_free, after_callback, is_success, lets_run, released,
  saga_calls,
}

abbrev completion : Hook → ℕ
completion on_saga_start = 0
completion execute = 0
completion on_saga_end = 0
completion on_complete = 1

-- How often `on_complete` is called.
abbrev pub completions : List Call → ℕ
completions [] = 0
completions (c ∷ calls) = completion c.hook + completions calls

-- The saga is not executed while other work may run.
abbrev pub Guarded : Call → Type 0
Guarded c = c.hook ≡ execute → c.exclusive_free ≡ false

abbrev pub one_if : Bool → ℕ
one_if true = 1
one_if false = 0

queue-call_if : (b : Bool) (hook : Hook) (r : SagaRun) → (call_if b hook r).queue ≡ r.queue
unfolding call_if call
queue-call_if true hook r = refl
queue-call_if false hook r = refl

Guarded-call_if :
    (b : Bool) (hook : Hook) (r : SagaRun)
    → (hook ≡ execute → r.queue.exclusive_free ≡ false)
    → All Guarded r.calls
    → All Guarded (call_if b hook r).calls
unfolding call_if call
Guarded-call_if true hook r g h = (g, h)
Guarded-call_if false hook r g h = h

completions-call_if :
    (b : Bool) (hook : Hook) (r : SagaRun)
    → completions (call_if b hook r).calls
      ≡ (if b then completion hook else 0) + completions r.calls
unfolding call_if call
completions-call_if true hook r = refl
completions-call_if false hook r = omega arith

-- What `on_complete` says of the result: it is called if the result is a success, and only then, or
-- if it is interrupted itself.
pub if_completed :
    (c : Bool) (e : CallbackEnd) (y : WorkResult)
    → (is_success (after_callback (c && is_success y) e y) ≡ true → (c && is_success y) ≡ c)
unfolding after_callback is_success
if_completed true over success h = refl
if_completed true interrupted success h = refl
if_completed false e success h = refl
if_completed true e gateway_timeout h = absurd (cc h)
if_completed false e gateway_timeout h = refl
if_completed true e cancelled h = absurd (cc h)
if_completed false e cancelled h = refl
if_completed true e (failed x) h = absurd (cc h)
if_completed false e (failed x) h = refl

abbrev pub is_settled : WorkResult → Bool
is_settled success = true
is_settled gateway_timeout = false
is_settled cancelled = true
is_settled (failed e) = false

pub not_completed :
    (c : Bool) (e : CallbackEnd) (y : WorkResult)
    → is_settled (after_callback (c && is_success y) e y) ≡ false
    → (c && is_success y) ≡ false
unfolding after_callback is_success
not_completed true over success h = absurd (cc h)
not_completed true interrupted success h = absurd (cc h)
not_completed false e success h = refl
not_completed c e gateway_timeout h = ground arith
not_completed c e cancelled h = ground arith
not_completed c e (failed x) h = ground arith

abbrev pub freed : CommandQueue → CommandQueue
freed q = record q { exclusive_free = true }

module _ (hooks : Hooks) (saga : ℕ → WorkResult) where
  abbrev pub completed : ℕ → Bool
  completed attempt = hooks.completes && is_success (released hooks saga attempt)

  pub queue-saga_calls :
      (attempt : ℕ) (r : SagaRun) → (saga_calls hooks saga attempt r).queue ≡ freed r.queue
  unfolding saga_calls set_free
  queue-saga_calls attempt r =
      let s0 = set_free false r in
      let s1 = call_if hooks.starts on_saga_start s0 in
      let s2 = call_if (lets_run hooks.starts (hooks.on_start attempt)) execute s1 in
      let s3 = set_free true s2 in
      queue-call_if (completed attempt) on_complete (call_if hooks.ends on_saga_end s3)
      ∙ queue-call_if hooks.ends on_saga_end s3
      ∙ ap freed (queue-call_if (lets_run hooks.starts (hooks.on_start attempt)) execute s1)
      ∙ ap freed (queue-call_if hooks.starts on_saga_start s0)

  pub saga_calls-Guarded :
      (attempt : ℕ) (r : SagaRun)
      → All Guarded r.calls
      → All Guarded (saga_calls hooks saga attempt r).calls
  unfolding saga_calls set_free
  saga_calls-Guarded attempt r g =
      let s0 = set_free false r in
      let s1 = call_if hooks.starts on_saga_start s0 in
      let s2 = call_if (lets_run hooks.starts (hooks.on_start attempt)) execute s1 in
      let s3 = set_free true s2 in
      Guarded-call_if (completed attempt) on_complete (call_if hooks.ends on_saga_end s3)
        (λ e. absurd (cc e))
        (Guarded-call_if hooks.ends on_saga_end s3 (λ e. absurd (cc e))
          (Guarded-call_if (lets_run hooks.starts (hooks.on_start attempt)) execute s1
            (λ e.
              ap (λ (q : CommandQueue). q.exclusive_free)
                (queue-call_if hooks.starts on_saga_start s0))
            (Guarded-call_if hooks.starts on_saga_start s0 (λ e. absurd (cc e)) g)))

  pub completions-saga_calls :
      (attempt : ℕ) (r : SagaRun)
      → completions (saga_calls hooks saga attempt r).calls
        ≡ one_if (completed attempt) + completions r.calls
  unfolding saga_calls set_free
  completions-saga_calls attempt r =
      let s0 = set_free false r in
      let s1 = call_if hooks.starts on_saga_start s0 in
      let s2 = call_if (lets_run hooks.starts (hooks.on_start attempt)) execute s1 in
      let s3 = set_free true s2 in
      ground (
        arith,
        completions-call_if (completed attempt) on_complete (call_if hooks.ends on_saga_end s3),
        completions-call_if hooks.ends on_saga_end s3,
        completions-call_if (lets_run hooks.starts (hooks.on_start attempt)) execute s1,
        completions-call_if hooks.starts on_saga_start s0,
      )
