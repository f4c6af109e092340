-- ===== src/Messaging/Saga/Finished.antt =====
-- What is known of a saga that execute has finished.
use py_mammotion.Base.{ℕ, zero, suc, ◌+◌, ◌≡◌, refl, Option, Eq}
use py_mammotion.Messaging.Saga.{
  Attempt, completed, interrupted, raised, Saga, finished, saga_failed, propagated, Next, give_up,
  again, next_round, retry_loop, execute,
}

module _ {S P : Type 0} ⦃e : Eq P⦄ (saga : Saga S P) (s' : S) where
  -- A run that completes with the state.
  abbrev pub Completes : Type 0
  Completes = (s : S) × (saga.run s ≡ completed s')

  after_round :
      (fuel : ℕ) (s : S)
      → ((last : Option P) (attempt : ℕ)
          → retry_loop saga fuel last attempt s ≡ finished s'
          → Completes)
      → (n : ℕ) (next : Next P)
      → (elim next [
        | give_up ↦ saga_failed s n
        | again last attempt ↦ retry_loop saga fuel last attempt s
      ])
        ≡ finished s'
      → Completes
  after_round fuel s ih n give_up h = absurd (cc)
  after_round fuel s ih n (again last attempt) h = ih last attempt h

  after_run :
      (fuel : ℕ) (last : Option P) (attempt : ℕ) (s : S) (r : Attempt S)
      → saga.run s ≡ r
      → ((x : S) (l : Option P) (n : ℕ) → retry_loop saga fuel l n x ≡ finished s' → Completes)
      → (elim r [
        | completed x ↦ finished x
        | raised x ↦ propagated x
        | interrupted x ↦ elim (next_round saga.max_attempts (saga.progress x) last (attempt + 1)) [
          | give_up ↦ saga_failed x (attempt + 1)
          | again last' attempt' ↦ retry_loop saga fuel last' attempt' x
        ]
      ])
        ≡ finished s'
      → Completes
  after_run fuel last attempt s (completed x) q ih h = (s, cc)
  after_run fuel last attempt s (raised x) q ih h = absurd (cc)
  after_run fuel last attempt s (interrupted x) q ih h =
      after_round fuel x (ih x) (attempt + 1)
        (next_round saga.max_attempts (saga.progress x) last (attempt + 1)) h

  retry_loop-finished :
      (fuel : ℕ) (last : Option P) (attempt : ℕ) (s : S)
      → retry_loop saga fuel last attempt s ≡ finished s'
      → Completes
  unfolding retry_loop
  retry_loop-finished zero last attempt s h = absurd (cc)
  retry_loop-finished (suc fuel) last attempt s h =
      after_run fuel last attempt s (saga.run s) refl (λ x l n. retry_loop-finished fuel l n x) h

  pub execute-finished : (fuel : ℕ) (s : S) → execute saga fuel s ≡ finished s' → Completes
  unfolding execute
  execute-finished fuel s = retry_loop-finished fuel (saga.progress s) 0 s
