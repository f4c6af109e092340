-- ===== src/Messaging/Broker.antt =====
-- pymammotion/messaging/broker.py. A coroutine runs from one `await` to the next without
-- interruption, and the broker's lock is never held across one: so each call is a sequence of the
-- steps below, in any interleaving. A future is a cell that the pending table and the waiting call
-- share; the call that made it has its number.
pub mod Pending
pub mod Delivery
pub mod Closing
use py_mammotion.Base.{
  ℕ, zero, suc, ◌+◌, String, Bool, true, false, ◌&&◌, not, Option, none, some, List, [], ◌∷◌, ◌++◌,
  ◌==◌, string_keys, nat_keys, if◌then◌else◌, ltb,
}
use py_mammotion.Base.Dict.{Dict, lookup, insert, erase, values}

-- `betterproto2.which_one_of`, which may raise; the name is "" when no field is set.
pub data WhichOneOf : Type 0 where
  raised : WhichOneOf
  set : String → Bool → WhichOneOf

-- What the protobuf library answers about one message: for "LubaSubMsg", for a sub-message group,
-- and for "payload".
pub record Unpacked : Type 0 where
  pub luba_sub_msg : WhichOneOf
  pub sub_group : String → WhichOneOf
  pub payload : WhichOneOf

abbrev pub luba_sub_group : Dict String String
luba_sub_group =
    ("net", "NetSubType")
    ∷ ("nav", "SubNavMsg")
    ∷ ("sys", "SubSysMsg")
    ∷ ("driver", "SubDrvMsg")
    ∷ ("ota", "SubOtaMsg")
    ∷ ("mul", "SubMul")
    ∷ ("pept", "SubPeptMsg")
    ∷ ("base", "BaseStationSubType")
    ∷ []

name_of : WhichOneOf → Option String
name_of raised = none
name_of (set name has_value) = if name == "" then none else some name

leaf_name : Unpacked → String → Option String
unfolding name_of
leaf_name u sub_name = elim (lookup sub_name luba_sub_group) [
  | none ↦ none
  | some group ↦ name_of (u.sub_group group)
]

or_else : Option String → Option String → Option String
or_else none b = b
or_else (some a) b = some a

luba_name : Unpacked → WhichOneOf → Option String
unfolding leaf_name or_else
luba_name u raised = none
luba_name u (set name has_value) =
    if not (name == "") && has_value then or_else (leaf_name u name) (some name) else none

-- The correlation key of an incoming message.
unfoldable pub field_name : Unpacked → Option String
unfolding luba_name or_else name_of
field_name u = or_else (luba_name u u.luba_sub_msg) (name_of u.payload)

module _ (M : Type 0) where
  pub data Future : Type 0 where
    waiting : Future
    resolved : M → Future
    cancelled : Future

  -- How a `send_and_wait` ended. With no retries at all its loop does not run, and it returns `None`.
  pub data Outcome : Type 0 where
    returned : M → Outcome
    command_timeout : Outcome
    was_cancelled : Outcome
    nothing : Outcome

  -- A `send_and_wait` past its registration: which attempt it is in, or how it ended.
  pub record Request : Type 0 where
    pub expected_field : String
    pub attempt : ℕ
    pub retries : ℕ
    pub outcome : Option Outcome

  pub record Broker : Type 0 where
    pub pending : Dict String ℕ
    pub futures : Dict ℕ Future
    pub requests : Dict ℕ Request
    pub next : ℕ
    pub emitted : List M

  -- What the event loop may run next.
  pub data Event : Type 0 where
    send : String → ℕ → Event
    message : Option String → M → Event
    timer : ℕ → Event
    resume : ℕ → Event
    cancel : ℕ → Event

module _ {M : Type 0} where
  unfoldable pub init : Broker M
  init = record { pending = []; futures = []; requests = []; next = 0; emitted = [] }

  abbrev pub is_waiting : Option (Future M) → Bool
  is_waiting (some waiting) = true
  is_waiting _ = false

  -- `future.cancel()` unless it is done
  abbrev pub cancel_future : ℕ → Dict ℕ (Future M) → Dict ℕ (Future M)
  cancel_future id futures =
      if is_waiting (lookup id futures) then insert id cancelled futures else futures

  -- The `finally` block, and the result that the call ends with.
  unfoldable pub finish : Broker M → ℕ → Request M → Outcome M → Broker M
  finish b id r o = record b {
    pending = erase r.expected_field b.pending;
    futures = cancel_future id b.futures;
    requests = insert id (record r { outcome = some o }) b.requests;
  }

  -- The start of `send_and_wait`, up to the first wait; `none` is `ConcurrentRequestError`.
  unfoldable pub send_and_wait : Broker M → String → ℕ → Option (Broker M)
  unfolding finish
  send_and_wait b field retries = elim (lookup field b.pending) [
    | some _ ↦ none
    | none ↦
        let r : Request M = record {
          expected_field = field;
          attempt = 1;
          retries = retries;
          outcome = none;
        } in
        let b' : Broker M = record b {
          pending = insert field b.next b.pending;
          futures = insert b.next waiting b.futures;
          requests = insert b.next r b.requests;
          next = b.next + 1;
        } in
        some (if retries == 0 then finish b' b.next r nothing else b')
  ]

  -- The timer of one attempt runs out.
  unfoldable pub expire : Broker M → ℕ → Request M → Broker M
  unfolding finish
  expire b id r =
      if ltb r.attempt r.retries
      then record b { requests = insert id (record r { attempt = r.attempt + 1 }) b.requests }
      else finish b id r command_timeout

  -- The waiting call resumes once its future is done.
  unfoldable pub wake : Broker M → ℕ → Request M → Broker M
  unfolding finish
  wake b id r = elim (lookup id b.futures) [
    | some (resolved m) ↦ finish b id r (returned m)
    | some cancelled ↦ finish b id r was_cancelled
    | _ ↦ b
  ]

  -- `on_message`, with the key that `field_name` found.
  unfoldable pub on_message : Broker M → Option String → M → Broker M
  on_message b none m = record b { emitted = b.emitted ++ m ∷ [] }
  on_message b (some field) m = elim (lookup field b.pending) [
    | none ↦ record b { emitted = b.emitted ++ m ∷ [] }
    | some id ↦
        if is_waiting (lookup id b.futures)
        then record b { futures = insert id (resolved m) b.futures }
        else record b { emitted = b.emitted ++ m ∷ [] }
  ]

  unfoldable pub cancel_all : List ℕ → Dict ℕ (Future M) → Dict ℕ (Future M)
  cancel_all [] futures = futures
  cancel_all (id ∷ ids) futures = cancel_all ids (cancel_future id futures)

  unfoldable pub close : Broker M → Broker M
  unfolding cancel_all
  close b = record b { pending = []; futures = cancel_all (values b.pending) b.futures }

  -- A step of a call that is over, or of none, does nothing.
  abbrev pub at_request : Broker M → ℕ → (Request M → Broker M) → Option (Request M) → Broker M
  at_request b id f none = b
  at_request b id f (some r) = elim r.outcome [ none ↦ f r | some _ ↦ b ]

  unfoldable pub step : Broker M → Event M → Broker M
  step b (send field retries) = elim (send_and_wait b field retries) [ none ↦ b | some b' ↦ b' ]
  step b (message field m) = on_message b field m
  step b (timer id) = at_request b id (expire b id) (lookup id b.requests)
  step b (resume id) = at_request b id (wake b id) (lookup id b.requests)
  step b (cancel id) = at_request b id (λ r. finish b id r was_cancelled) (lookup id b.requests)

  unfoldable pub run : Broker M → List (Event M) → Broker M
  run b [] = b
  run b (e ∷ es) = run (step b e) es
