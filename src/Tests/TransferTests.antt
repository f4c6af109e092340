-- ===== src/Tests/TransferTests.antt =====
-- A transfer of two frames whose first is sent twice, and a fetch of two plans.
use py_mammotion.Base.{
  ℕ, ◌≡◌, ◌≢◌, true, false, Option, some, List, [], ◌∷◌, refl, map, arith, elem, nat_keys, eqb_iff,
}
use py_mammotion.Base.Dict.{Dict, contains, insert}
use py_mammotion.Base.Pigeonhole.{Between}
use py_mammotion.Messaging.Transfers.{StreamFrame, ack_stream, collected, timed_out}
use py_mammotion.Messaging.Transfers.Holes.{ack_stream-full, OneTransfer}
use py_mammotion.Messaging.Transfers.Ends.{ack_stream-ends}

-- A frame of two is its number.
instance abbrev of_two : StreamFrame ℕ
of_two = record { current_frame = λ n. n; total_frame = λ n. 2 }

abbrev arrivals : List ℕ
arrivals = 1 ∷ 1 ∷ 2 ∷ []

abbrev queue : List (Option ℕ)
queue = map some arrivals

abbrev both : Dict ℕ ℕ
both = (1, 1) ∷ (2, 2) ∷ []

collected_both : (ack_stream false queue).end ≡ collected both
unfolding ack_stream insert
collected_both = refl

one_transfer : OneTransfer 2 queue
one_transfer = (
  (refl, (omega arith, omega arith)),
  ((refl, (omega arith, omega arith)), ((refl, (omega arith, omega arith)), tt)),
)

ack_stream-full_example : contains 2 both ≡ true
ack_stream-full_example =
    ack_stream-full 2 queue both one_transfer collected_both 2 (omega arith, omega arith)

all_come : (k : ℕ) → Between 2 k → elem k (map (λ n. n) arrivals) ≡ true
unfolding elem
all_come k b = ground (arith, eqb_iff 1 k, eqb_iff 2 k, b)

ack_stream-ends_example : (ack_stream false (map some arrivals)).end ≢ timed_out 3
ack_stream-ends_example =
    ack_stream-ends 2 arrivals (omega arith) (refl, (refl, (refl, tt))) all_come 3

abbrev second_plan : List ℕ
second_plan = 7 ∷ []

abbrev nothing_more : List (Option ℕ)
nothing_more = []
