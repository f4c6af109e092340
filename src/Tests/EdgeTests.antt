-- ===== src/Tests/EdgeTests.antt =====
-- Runs of the edge saga: one that loses its third frame and one that maps the border, and one whose last
-- frame comes before the second.
use py_mammotion.Base.{ℕ, ◌+◌, ◌≡◌, refl, false, none, [], ◌∷◌, List, arith, nat_keys}
use py_mammotion.Base.Dict.{insert, lookup}
use py_mammotion.Messaging.EdgeMapping.{
  Received, Attempt, EdgeState, mapped, timed_out, state_of, run, runs,
}
use py_mammotion.Messaging.EdgeMapping.Border.{starts, allowance, starts-runs}
use py_mammotion.Messaging.EdgeMapping.Whole.{HasWhole, run-HasWhole}

abbrev edge : ℕ → Received
edge n = record {
  frame = record {
    hash = 4;
    action = 1;
    type = 0;
    total_frame = 3;
    current_frame = n;
    data_couple = [];
  };
  ack_raises = none;
}

abbrev stream : List Received → Attempt
stream l = record { start_raises = none; received = l }

abbrev idle : EdgeState
idle = record { skip_start = false; result = []; sent = [] }

abbrev in_order : Attempt
in_order = stream (edge 1 ∷ edge 2 ∷ edge 3 ∷ [])

abbrev lost : Attempt
lost = stream (edge 1 ∷ edge 2 ∷ [])

abbrev last_first : Attempt
last_first = stream (edge 1 ∷ edge 3 ∷ edge 2 ∷ [])

edges :
    (run in_order idle ≡ mapped (state_of (run in_order idle)))
    × (run last_first idle ≡ timed_out (state_of (run last_first idle)))
    × (starts (runs (lost ∷ in_order ∷ []) idle).sent ≡ 1)
unfolding run runs starts insert lookup
edges = (refl, refl, refl)

starts-runs_example :
    starts (runs (lost ∷ in_order ∷ []) idle).sent
      + allowance (runs (lost ∷ in_order ∷ []) idle).skip_start
    ≡ starts idle.sent + allowance idle.skip_start
starts-runs_example = starts-runs (lost ∷ in_order ∷ []) idle

run-HasWhole_example : HasWhole (run in_order idle)
run-HasWhole_example = run-HasWhole 3 in_order idle (
  (refl, (omega arith, omega arith)),
  ((refl, (omega arith, omega arith)), ((refl, (omega arith, omega arith)), tt)),
)
