-- ===== src/Messaging/Saga/Retry.antt =====
-- How `_retry_loop` of pymammotion/messaging/saga.py ends on a saga that banks nothing.
use py_mammotion.Base.{
  ℕ, zero, suc, ◌+◌, ◌≤◌, ◌≡◌, refl, sym, ap, ◌∙◌, false, Option, none, some, Eq, arith,
}
use py_mammotion.Messaging.Saga.{
  interrupted, Saga, saga_failed, give_up, again, advanced, next_round, retry_loop, execute,
}

module _ {S : Type 0} where
  abbrev pub times : ℕ → (S → S) → S → S
  times zero f s = s
  times (suc n) f s = times n f (f s)

module _ {P : Type 0} ⦃e : Eq P⦄ where
  advanced_self : (o : Option P) → advanced o o ≡ false
  unfolding advanced
  advanced_self none = refl
  advanced_self (some p) = ground (arith, e.same_iff p p)

module _ {S P : Type 0} ⦃e : Eq P⦄ where
  retry-give_up :
      (saga : Saga S P) (fuel : ℕ) (last : Option P) (attempt : ℕ) (s s' : S)
      → saga.run s ≡ interrupted s'
      → next_round saga.max_attempts (saga.progress s') last (attempt + 1) ≡ give_up
      → retry_loop saga (suc fuel) last attempt s ≡ saga_failed s' (attempt + 1)
  unfolding retry_loop
  retry-give_up saga fuel last attempt s s' r n = ground (arith, r, n)

  retry-again :
      (saga : Saga S P) (fuel : ℕ) (last last' : Option P) (attempt attempt' : ℕ) (s s' : S)
      → saga.run s ≡ interrupted s'
      → next_round saga.max_attempts (saga.progress s') last (attempt + 1) ≡ again last' attempt'
      → retry_loop saga (suc fuel) last attempt s ≡ retry_loop saga fuel last' attempt' s'
  unfolding retry_loop
  retry-again saga fuel last last' attempt attempt' s s' r n = ground (arith, r, n)

  fruitless :
      (saga : Saga S P) (f : S → S)
      → ((s : S) → saga.run s ≡ interrupted (f s))
      → ((s : S) → saga.progress (f s) ≡ saga.progress s)
      → (left fuel attempt : ℕ) (s : S) → left ≤ fuel
      → attempt + left + 1 ≡ saga.max_attempts
      → retry_loop saga (suc fuel) (saga.progress s) attempt s
        ≡ saga_failed (times (suc left) f s) saga.max_attempts
  unfolding next_round
  fruitless saga f interrupts same zero fuel attempt s le q =
      retry-give_up saga fuel (saga.progress s) attempt s (f s) (interrupts s)
        (ground (arith, same s, advanced_self (saga.progress s)))
      ∙ ap (saga_failed (f s)) (omega (arith, q))
  fruitless saga f interrupts same (suc left) zero attempt s le q = absurd (omega (arith, le))
  fruitless saga f interrupts same (suc left) (suc fuel) attempt s le q =
      retry-again saga (suc fuel) (saga.progress s) (saga.progress s) attempt (attempt + 1) s (f s)
        (interrupts s) (ground (arith, same s, advanced_self (saga.progress s)))
      ∙ ap (λ o. retry_loop saga (suc fuel) o (attempt + 1) (f s)) (sym (same s))
      ∙ fruitless saga f interrupts same left fuel (attempt + 1) (f s) (omega (arith, le))
          (omega (arith, q))

  -- If every run of a saga is interrupted and leaves progress as it was, and max_attempts is at
  -- least 1 and no more than the limit on runs, then execute fails after exactly max_attempts runs.
  pub execute-fruitless :
      (saga : Saga S P) (f : S → S)
      → ((s : S) → saga.run s ≡ interrupted (f s))
      → ((s : S) → saga.progress (f s) ≡ saga.progress s)
      → (fuel : ℕ) (s : S) → 1 ≤ saga.max_attempts
      → saga.max_attempts ≤ fuel
      → execute saga fuel s ≡ saga_failed (times saga.max_attempts f s) saga.max_attempts
  unfolding execute
  execute-fruitless saga f interrupts same fuel s lo hi = go saga.max_attempts refl fuel lo hi
    where
      go :
          (m : ℕ)
          → saga.max_attempts ≡ m
          → (n : ℕ) → 1 ≤ m
          → m ≤ n
          → retry_loop saga n (saga.progress s) 0 s ≡ saga_failed (times m f s) saga.max_attempts
      go zero q n lo' hi' = absurd (omega (arith, lo'))
      go (suc m) q zero lo' hi' = absurd (omega (arith, hi'))
      go (suc m) q (suc n) lo' hi' =
          fruitless saga f interrupts same m n 0 s (omega (arith, hi')) (omega (arith, q))
