-- ===== src/Transport/EventBus.antt =====
-- pymammotion/transport/base.py, classes `EventBus` and `Subscription`. A handler is its number in
-- the program; what a handler does when it is called is not part of the bus.
pub mod Subscriptions
use py_mammotion.Base.{
  ℕ, zero, suc, ◌+◌, ◌<◌, ◌≡◌, refl, Bool, true, false, ◌&&◌, ◌||◌, not, Option, none, some, List,
  [], ◌∷◌, ◌==◌, nat_keys, eqb_iff, if◌then◌else◌, length, All, arith,
}
use py_mammotion.Base.Dict.{Dict, keys, values, lookup, insert, erase, lookup-insert, lookup-erase}

pub record EventBus (H : Type 0) : Type 0 where
  pub handlers : Dict ℕ H
  pub next_id : ℕ

pub record Subscription : Type 0 where
  pub sub_id : ℕ
  pub cancelled : Bool

module _ {H : Type 0} where
  pub init : EventBus H
  init = record { handlers = []; next_id = 0 }

  unfoldable pub subscribe : EventBus H → H → EventBus H × Subscription
  subscribe bus handler = (
    record { handlers = insert bus.next_id handler bus.handlers; next_id = bus.next_id + 1 },
    record { sub_id = bus.next_id; cancelled = false },
  )

  unfoldable pub cancel : EventBus H → Subscription → EventBus H × Subscription
  cancel bus s =
      if s.cancelled
      then (bus, s)
      else (record bus { handlers = erase s.sub_id bus.handlers }, record s { cancelled = true })

  -- The handlers that `emit` calls, in order; one that raises does not stop the others.
  unfoldable pub emit : EventBus H → List H
  emit bus = values bus.handlers
