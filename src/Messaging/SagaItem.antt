-- ===== src/Messaging/SagaItem.antt =====
-- pymammotion/messaging/command_queue.py: the work item that `enqueue_saga` makes, run by the retry
-- loop of `_process`, and `stop`. What `saga.execute` does at each attempt is a parameter, as is which
-- callbacks are set and how they end. The queue is here what the item itself makes of it.
pub mod Calls
pub mod Released
use py_mammotion.Base.{
  ℕ, zero, suc, ◌+◌, ◌-◌, Bool, true, false, ◌&&◌, List, [], ◌∷◌, if◌then◌else◌, Option, none,
}
use py_mammotion.Messaging.CommandQueue.{
  CommandQueue, Priority, exclusive, enqueue, WorkError, WorkResult, success, gateway_timeout,
  cancelled, failed, Processed, done, given_up, reported, stopped, log_level, is_critical,
}

pub data Hook : Type 0 where
  on_saga_start execute on_saga_end on_complete : Hook

-- How a callback ends: with a return or an exception that is logged, or with CancelledError.
pub data CallbackEnd : Type 0 where
  over interrupted : CallbackEnd

-- The callbacks that are set, and how they end in the attempt of that number.
pub record Hooks : Type 0 where
  pub starts : Bool
  pub ends : Bool
  pub completes : Bool
  pub on_start : ℕ → CallbackEnd
  pub on_end : ℕ → CallbackEnd
  pub on_success : ℕ → CallbackEnd

-- A call of a callback or of the saga, and whether other work may run at its start.
pub record Call : Type 0 where
  pub hook : Hook
  pub exclusive_free : Bool

-- The queue, and the calls so far, the last one first.
pub record SagaRun : Type 0 where
  pub queue : CommandQueue
  pub calls : List Call

unfoldable pub call : Hook → SagaRun → SagaRun
call hook r = record r {
  calls = record { hook = hook; exclusive_free = r.queue.exclusive_free } ∷ r.calls;
}

unfoldable pub call_if : Bool → Hook → SagaRun → SagaRun
unfolding call
call_if true hook r = call hook r
call_if false hook r = r

-- `self._exclusive_active.set()` and `clear()`.
unfoldable pub set_free : Bool → SagaRun → SagaRun
set_free free r = record r { queue = record r.queue { exclusive_free = free } }

-- What a callback that is called or not makes of the result.
unfoldable pub after_callback : Bool → CallbackEnd → WorkResult → WorkResult
after_callback true interrupted result = cancelled
after_callback true over result = result
after_callback false e result = result

unfoldable pub is_success : WorkResult → Bool
is_success success = true
is_success gateway_timeout = false
is_success cancelled = false
is_success (failed e) = false

-- Whether the start callback lets the saga run.
unfoldable pub lets_run : Bool → CallbackEnd → Bool
lets_run true interrupted = false
lets_run true over = true
lets_run false e = true

module _ (hooks : Hooks) (saga : ℕ → WorkResult) where
  -- How the body of the `try` ends, and the `try` with its `finally`.
  unfoldable pub tried : ℕ → WorkResult
  unfolding lets_run
  tried attempt = if lets_run hooks.starts (hooks.on_start attempt) then saga attempt else cancelled

  unfoldable pub released : ℕ → WorkResult
  unfolding tried after_callback
  released attempt = after_callback hooks.ends (hooks.on_end attempt) (tried attempt)

  -- How `_run` ends.
  unfoldable pub run_result : ℕ → WorkResult
  unfolding released after_callback is_success
  run_result attempt =
      after_callback (hooks.completes && is_success (released attempt)) (hooks.on_success attempt)
        (released attempt)

  -- What `_run` does.
  unfoldable pub saga_calls : ℕ → SagaRun → SagaRun
  unfolding set_free call_if lets_run released is_success
  saga_calls attempt r =
      let started = call_if hooks.starts on_saga_start (set_free false r) in
      let run = call_if (lets_run hooks.starts (hooks.on_start attempt)) execute started in
      let ended = call_if hooks.ends on_saga_end (set_free true run) in
      call_if (hooks.completes && is_success (released attempt)) on_complete ended

-- What is left after the attempts, and how the item ends.
pub record Finished : Type 0 where
  pub run : SagaRun
  pub processed : Processed

module _ (hooks : Hooks) (saga : ℕ → WorkResult) where
  -- `for _attempt in range(1, max + 1): await item.work()`
  unfoldable pub saga_attempts : ℕ → ℕ → SagaRun → Finished
  unfolding saga_calls run_result log_level is_critical
  saga_attempts zero attempt r = record { run = r; processed = given_up (attempt - 1) }
  saga_attempts (suc left) attempt r =
      let r' = saga_calls hooks saga attempt r in
      elim (run_result hooks saga attempt) [
        | success ↦ record { run = r'; processed = done attempt }
        | cancelled ↦ record { run = r'; processed = stopped }
        | failed e ↦ record { run = r'; processed = reported attempt (log_level e) (is_critical e) }
        | gateway_timeout ↦ saga_attempts left (attempt + 1) r'
      ]

  unfoldable pub process_saga : CommandQueue → Finished
  unfolding saga_attempts
  process_saga q = saga_attempts 3 1 (record { queue = q; calls = [] })

unfoldable pub enqueue_saga : CommandQueue → ℕ → ℕ → CommandQueue
enqueue_saga q now work = enqueue q now work exclusive false none

-- `stop`, for the events that items wait for.
unfoldable pub stop : CommandQueue → CommandQueue
stop q = record q { exclusive_free = true; transport_gate = true }
