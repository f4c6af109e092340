-- ===== src/Messaging/Saga.antt =====
-- pymammotion/messaging/saga.py, `Saga._retry_loop`. A saga is its `_run`, from the state it has
-- banked to how the run ends, and its `progress`; both are the subclass's. The wall-clock limit of
-- `execute` is fuel: the number of runs that fit in `total_timeout`.
pub mod Retry
pub mod Finished
use py_mammotion.Base.{
  ℕ, zero, suc, ◌+◌, Bool, true, false, ◌&&◌, not, Option, none, some, Eq, ◌==◌, if◌then◌else◌, leb,
}

-- `interrupted` stands for SagaInterruptedError, CommandTimeoutError and GatewayTimeoutException.
pub data Attempt (S : Type 0) : Type 0 where
  completed : S → Attempt S
  interrupted : S → Attempt S
  raised : S → Attempt S

pub record Saga (S P : Type 0) : Type 0 where
  pub run : S → Attempt S
  pub progress : S → Option P
  pub max_attempts : ℕ

-- `saga_failed` carries the number of runs since the last advance; `timed_out` is the limit of `execute`.
pub data Execution (S : Type 0) : Type 0 where
  finished : S → Execution S
  saga_failed : S → ℕ → Execution S
  propagated : S → Execution S
  timed_out : S → Execution S

-- After an interruption: the counters of the next round, or none.
pub data Next (P : Type 0) : Type 0 where
  give_up : Next P
  again : Option P → ℕ → Next P

module _ {P : Type 0} ⦃e : Eq P⦄ where
  -- `current is not None and current != last_progress`
  unfoldable pub advanced : Option P → Option P → Bool
  advanced none last = false
  advanced (some p) none = true
  advanced (some p) (some q) = not (p == q)

  unfoldable pub next_round : ℕ → Option P → Option P → ℕ → Next P
  unfolding advanced
  next_round max_attempts current last attempt =
      if advanced current last
      then again current 0
      else if leb max_attempts attempt
      then give_up
      else again last attempt

module _ {S P : Type 0} ⦃e : Eq P⦄ where
  unfoldable pub retry_loop : Saga S P → ℕ → Option P → ℕ → S → Execution S
  unfolding next_round
  retry_loop saga zero last attempt s = timed_out s
  retry_loop saga (suc fuel) last attempt s = elim (saga.run s) [
    | completed s' ↦ finished s'
    | raised s' ↦ propagated s'
    | interrupted s' ↦ elim (next_round saga.max_attempts (saga.progress s') last (attempt + 1)) [
      | give_up ↦ saga_failed s' (attempt + 1)
      | again last' attempt' ↦ retry_loop saga fuel last' attempt' s'
    ]
  ]

  unfoldable pub execute : Saga S P → ℕ → S → Execution S
  unfolding retry_loop
  execute saga fuel s = retry_loop saga fuel (saga.progress s) 0 s
