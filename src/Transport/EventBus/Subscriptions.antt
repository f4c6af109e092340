-- ===== src/Transport/EventBus/Subscriptions.antt =====
-- Subscriptions of `EventBus`: whom `emit` calls after `subscribe` and `cancel`.
use py_mammotion.Base.{ℕ, ◌≤◌, ◌≡◌, refl, none, List, [], ◌∷◌, ◌++◌, arith, nat_keys, eqb_iff, Eq}
use py_mammotion.Base.Dict.{Dict, values, lookup, insert, erase, lookup-insert, lookup-erase}
use py_mammotion.Transport.EventBus.{EventBus, Subscription, init, subscribe, cancel, emit}

module _ {K V : Type 0} ⦃e : Eq K⦄ where
  values-insert-new :
      (k : K) (v : V) (d : Dict K V)
      → lookup k d ≡ none
      → values (insert k v d) ≡ values d ++ v ∷ []
  unfolding values insert lookup
  values-insert-new k v [] h = refl
  values-insert-new k v ((j, w) ∷ d) h = ground (arith, values-insert-new k v d)

  erase-absent : (k : K) (d : Dict K V) → lookup k d ≡ none → erase k d ≡ d
  unfolding erase lookup
  erase-absent k [] h = refl
  erase-absent k ((j, w) ∷ d) h = ground (arith, erase-absent k d)

  erase-insert-new : (k : K) (v : V) (d : Dict K V) → lookup k d ≡ none → erase k (insert k v d) ≡ d
  unfolding erase insert lookup
  erase-insert-new k v [] h = ground (arith, e.same_iff k k)
  erase-insert-new k v ((j, w) ∷ d) h = ground (arith, erase-insert-new k v d)

pub data Op (H : Type 0) : Type 0 where
  subscribed : H → Op H
  cancelled_by : Subscription → Op H

module _ {H : Type 0} where
  -- No handler has a number that is still to be given.
  pub IsNumbered : EventBus H → Type 0
  IsNumbered bus = (id : ℕ) → bus.next_id ≤ id → lookup id bus.handlers ≡ none

  unfoldable pub apply : EventBus H → Op H → EventBus H
  apply bus (subscribed h) = (subscribe bus h).0
  apply bus (cancelled_by s) = (cancel bus s).0

  unfoldable pub run : EventBus H → List (Op H) → EventBus H
  run bus [] = bus
  run bus (o ∷ os) = run (apply bus o) os

  apply-IsNumbered : (bus : EventBus H) (o : Op H) → IsNumbered bus → IsNumbered (apply bus o)
  unfolding apply subscribe cancel IsNumbered
  apply-IsNumbered bus (subscribed h) w = λ id le.
      ground (arith, lookup-insert bus.next_id id h bus.handlers, eqb_iff bus.next_id id, w id)
  apply-IsNumbered bus (cancelled_by s) w =
      λ id le. ground (arith, lookup-erase s.sub_id id bus.handlers, w id)

  run-IsNumbered : (bus : EventBus H) (os : List (Op H)) → IsNumbered bus → IsNumbered (run bus os)
  unfolding run
  run-IsNumbered bus [] w = w
  run-IsNumbered bus (o ∷ os) w = run-IsNumbered (apply bus o) os (apply-IsNumbered bus o w)

  init-IsNumbered : (bus : EventBus H) → bus ≡ init → IsNumbered bus
  unfolding init lookup IsNumbered
  init-IsNumbered bus e = λ id le. rw e refl

  -- On an event bus that any subscriptions and cancellations have led to, emit after one more
  -- subscribe calls the handlers that it would have called, in the same order, and the new one
  -- last.
  pub emit-subscribe :
      (os : List (Op H)) (h : H) → emit (subscribe (run init os) h).0 ≡ emit (run init os) ++ h ∷ []
  unfolding emit subscribe IsNumbered
  emit-subscribe os h =
      let bus : EventBus H = run init os in
      values-insert-new bus.next_id h bus.handlers
        (run-IsNumbered init os (init-IsNumbered init refl) bus.next_id (omega arith))

  -- On an event bus that any subscriptions and cancellations have led to, cancelling the
  -- subscription that subscribe has just returned restores the handlers that were there before.
  pub cancel-subscribe :
      (os : List (Op H)) (h : H)
      → (cancel (subscribe (run init os) h).0 (subscribe (run init os) h).1).0.handlers
        ≡ (run init os).handlers
  unfolding subscribe cancel IsNumbered
  cancel-subscribe os h =
      let bus : EventBus H = run init os in
      erase-insert-new bus.next_id h bus.handlers
        (run-IsNumbered init os (init-IsNumbered init refl) bus.next_id (omega arith))
