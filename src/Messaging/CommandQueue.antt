-- ===== src/Messaging/CommandQueue.antt =====
-- pymammotion/messaging/command_queue.py. Work is a number that stands for the callable; the clock
-- is an argument in whole seconds. `asyncio.PriorityQueue` is the list of its items, from which
-- `get` takes the least in the order that `@dataclass(order=True)` gives `_QueueItem`.
pub mod Order
pub mod Dedup
pub mod Dispatch
use py_mammotion.Base.{
  ℕ, zero, suc, ◌+◌, ◌-◌, String, Bool, true, false, ◌&&◌, ◌||◌, not, Option, none, some, List, [],
  ◌∷◌, ◌++◌, ◌==◌, string_keys, nat_keys, if◌then◌else◌, ltb, leb, elem, filter,
}

pub data Priority : Type 0 where
  emergency exclusive normal background : Priority

abbrev pub rank : Priority → ℕ
rank emergency = 0
rank exclusive = 1
rank normal = 2
rank background = 3

-- `priority > Priority.EXCLUSIVE`
abbrev pub yields : Priority → Bool
yields p = ltb (rank exclusive) (rank p)

abbrev pub command_ttl : ℕ
command_ttl = 120

pub record QueueItem : Type 0 where
  pub priority : Priority
  pub sequence : ℕ
  pub work : ℕ
  pub skip_if_saga_active : Bool
  pub dedup_key : Option String
  pub enqueued_at : ℕ

pub record CommandQueue : Type 0 where
  pub queue : List QueueItem
  pub exclusive_free : Bool
  pub transport_gate : Bool
  pub seq : ℕ
  pub pending_dedup_keys : List String

pub init : CommandQueue
init = record {
  queue = [];
  exclusive_free = true;
  transport_gate = true;
  seq = 0;
  pending_dedup_keys = [];
}

abbrev pub is_saga_active : CommandQueue → Bool
is_saga_active q = not q.exclusive_free

unfoldable pub pause_for_reconnect : CommandQueue → CommandQueue
pause_for_reconnect q = record q { transport_gate = false }

unfoldable pub resume_after_reconnect : CommandQueue → CommandQueue
resume_after_reconnect q = record q { transport_gate = true }

abbrev pub is_pending : Option String → List String → Bool
is_pending none keys = false
is_pending (some k) keys = elem k keys

abbrev pub add_key : Option String → List String → List String
add_key none keys = keys
add_key (some k) keys = k ∷ keys

abbrev pub discard_key : Option String → List String → List String
discard_key none keys = keys
discard_key (some k) keys = filter (λ j. not (k == j)) keys

abbrev pub is_emergency : Priority → Bool
is_emergency p = rank p == 0

abbrev pub new_item : CommandQueue → ℕ → ℕ → Priority → Bool → Option String → QueueItem
new_item q now work priority skip key = record {
  priority = priority;
  sequence = q.seq + 1;
  work = work;
  skip_if_saga_active = skip;
  dedup_key = key;
  enqueued_at = now;
}

unfoldable pub put : CommandQueue → ℕ → ℕ → Priority → Bool → Option String → CommandQueue
put q now work priority skip key = record q {
  queue = q.queue ++ new_item q now work priority skip key ∷ [];
  seq = q.seq + 1;
  pending_dedup_keys = add_key key q.pending_dedup_keys;
}

-- `if priority is Priority.EMERGENCY: skip_if_saga_active = False`
abbrev pub may_skip : Priority → Bool → Bool
may_skip p skip = if is_emergency p then false else skip

unfoldable pub enqueue : CommandQueue → ℕ → ℕ → Priority → Bool → Option String → CommandQueue
unfolding put
enqueue q now work priority skip_if_saga_active key =
    if may_skip priority skip_if_saga_active && is_saga_active q && yields priority
    then q
    else if is_pending key q.pending_dedup_keys
    then q
    else put q now work priority (may_skip priority skip_if_saga_active) key

-- The order on `(priority, sequence)`.
unfoldable pub before : QueueItem → QueueItem → Bool
before a b =
    if rank a.priority == rank b.priority
    then leb a.sequence b.sequence
    else ltb (rank a.priority) (rank b.priority)

-- The lesser of an item and the least of the items behind it.
unfoldable pub lesser :
    QueueItem
    → List QueueItem
    → Option (QueueItem × List QueueItem)
    → Option (QueueItem × List QueueItem)
lesser x xs none = some (x, xs)
lesser x xs (some (m, rest)) = if before x m then some (x, xs) else some (m, x ∷ rest)

unfoldable pub pop_min : List QueueItem → Option (QueueItem × List QueueItem)
unfolding lesser
pop_min [] = none
pop_min (x ∷ xs) = lesser x xs (pop_min xs)

unfoldable pub taken :
    CommandQueue → Option (QueueItem × List QueueItem) → Option (QueueItem × CommandQueue)
taken q none = none
taken q (some (item, rest)) = some (
  item,
  record q { queue = rest; pending_dedup_keys = discard_key item.dedup_key q.pending_dedup_keys },
)

-- `queue.get()`, and the dedup slot that it releases.
unfoldable pub dequeue : CommandQueue → Option (QueueItem × CommandQueue)
unfolding taken
dequeue q = taken q (pop_min q.queue)

unfoldable pub expired : QueueItem → ℕ → Bool
expired item now = yields item.priority && ltb command_ttl (now - item.enqueued_at)

-- Where a dequeued item is in the body of `_process`.
pub data Stage : Type 0 where
  waits_for_saga waits_for_gate running dropped : Stage

-- From the dequeue to the first wait.
unfoldable pub start : QueueItem → ℕ → Stage
unfolding expired
start item now = if expired item now then dropped else waits_for_saga

pass_gate : CommandQueue → QueueItem → Stage
pass_gate q item =
    if ltb (rank emergency) (rank item.priority) && not q.transport_gate
    then waits_for_gate
    else running

pass_saga : CommandQueue → QueueItem → Stage
unfolding pass_gate
pass_saga q item =
    if yields item.priority && is_saga_active q
    then waits_for_saga
    else if item.skip_if_saga_active && is_saga_active q && yields item.priority
    then dropped
    else pass_gate q item

-- What the processor does next with its item, in the current state of the events.
unfoldable pub advance : CommandQueue → QueueItem → Stage → Stage
unfolding pass_saga pass_gate
advance q item waits_for_saga = pass_saga q item
advance q item waits_for_gate = pass_gate q item
advance q item running = running
advance q item dropped = dropped

-- The errors that `_process` tells apart; `auth_error` stands for its subclasses too.
pub data WorkError : Type 0 where
  device_offline device_unbound no_transport : WorkError
  too_many_requests rate_limited auth_error saga_failed other_transport other : WorkError

pub data WorkResult : Type 0 where
  success gateway_timeout cancelled : WorkResult
  failed : WorkError → WorkResult

pub data Log : Type 0 where
  debug warning exception : Log

-- How the item ends: the number of attempts made, and what is reported.
pub data Processed : Type 0 where
  done : ℕ → Processed
  given_up : ℕ → Processed
  reported : ℕ → Log → Bool → Processed
  stopped : Processed

unfoldable pub log_level : WorkError → Log
log_level device_offline = debug
log_level device_unbound = debug
log_level no_transport = debug
log_level other = exception
log_level _ = warning

-- `isinstance(exc, (AuthError, SagaFailedError))`: `on_critical_error` is called.
unfoldable pub is_critical : WorkError → Bool
is_critical auth_error = true
is_critical saga_failed = true
is_critical _ = false

abbrev pub gateway_timeout_max : ℕ
gateway_timeout_max = 3

-- `for _attempt in range(1, max + 1)`: `left` rounds remain, and `attempt` is the current one.
unfoldable pub attempts : ℕ → ℕ → (ℕ → WorkResult) → Processed
unfolding log_level is_critical
attempts zero attempt work = given_up (attempt - 1)
attempts (suc left) attempt work = elim (work attempt) [
  | success ↦ done attempt
  | gateway_timeout ↦ attempts left (attempt + 1) work
  | cancelled ↦ stopped
  | failed e ↦ reported attempt (log_level e) (is_critical e)
]

unfoldable pub run_work : (ℕ → WorkResult) → Processed
unfolding attempts
run_work = attempts gateway_timeout_max 1
