-- ===== src/Messaging/EdgeMapping.antt =====
-- pymammotion/messaging/edge_saga.py, class `EdgeMappingSaga`: a run, which has the device walk along the
-- border and collects the frames of it, and runs in sequence, with class `EdgePoints` of
-- pymammotion/data/model/hash_list.py.
--
-- A run is given the frames that its queue yields, up to the first wait that lasts longer than
-- `step_timeout`, and what the sends raise. The log has the commands whose send has not raised, the last
-- one first.
pub mod Border
pub mod Whole
use py_mammotion.Base.{
  maybe, ℕ, Bool, true, false, ◌&&◌, not, Option, none, some, List, [], ◌∷◌, nat_keys,
  if◌then◌else◌, ltb, leb, length, filter,
}
use py_mammotion.Base.Dict.{Dict, lookup, insert, contains}
use py_mammotion.HashList.Frames.{CommDataCouple, range}
use py_mammotion.HashList.Store.{EdgePoints}
use py_mammotion.Messaging.MapFetch.{Raise}

pub record NavEdgePoints : Type 0 where
  pub hash : ℕ
  pub action : ℕ
  pub type : ℕ
  pub total_frame : ℕ
  pub current_frame : ℕ
  pub data_couple : List CommDataCouple

pub data EdgeCommand : Type 0 where
  along_border : EdgeCommand
  response_edgewise_mapping : NavEdgePoints → EdgeCommand

pub record Received : Type 0 where
  pub frame : NavEdgePoints
  pub ack_raises : Option Raise

pub record Attempt : Type 0 where
  pub start_raises : Option Raise
  pub received : List Received

pub record EdgeState : Type 0 where
  pub skip_start : Bool
  pub result : Dict ℕ EdgePoints
  pub sent : List EdgeCommand

pub data EdgeEnd : Type 0 where
  mapped : EdgeState → EdgeEnd
  timed_out : EdgeState → EdgeEnd
  raised : Raise → EdgeState → EdgeEnd

abbrev pub state_of : EdgeEnd → EdgeState
state_of (mapped s) = s
state_of (timed_out s) = s
state_of (raised e s) = s

unfoldable pub is_complete : EdgePoints → Bool
is_complete e = ltb 0 e.total_frame && leb e.total_frame (length e.frames)

unfoldable pub missing_frames : EdgePoints → List ℕ
missing_frames e = filter (λ n. not (contains n e.frames)) (range 1 e.total_frame)

-- `existing`, from what is collected for the hash.
unfoldable pub existing_for : NavEdgePoints → Option EdgePoints → EdgePoints
existing_for f none = record {
  hash = f.hash;
  action = f.action;
  type = f.type;
  total_frame = f.total_frame;
  frames = [];
}
existing_for f (some e) = record e { total_frame = f.total_frame }

unfoldable pub accumulated : NavEdgePoints → Dict ℕ EdgePoints → EdgePoints
unfolding existing_for
accumulated f collected =
    let existing = existing_for f (lookup f.hash collected) in
    record existing { frames = insert f.current_frame f.data_couple existing.frames }

unfoldable pub collect : List Received → Dict ℕ EdgePoints → EdgeState → EdgeEnd
unfolding accumulated is_complete maybe
collect [] collected s = timed_out s
collect (r ∷ more) collected s =
    let f = r.frame in
    let existing = accumulated f collected in
    let collected' = insert f.hash existing collected in
    let s' = record s { sent = response_edgewise_mapping f ∷ s.sent } in
    let rest = collect more collected' s' in
    maybe r.ack_raises
      (if leb f.total_frame f.current_frame && is_complete existing
        then mapped (record s' { result = collected' })
        else rest)
      (λ e. raised e s)

-- `_run`
unfoldable pub run : Attempt → EdgeState → EdgeEnd
unfolding collect maybe
run a s =
    let s' = record s { result = [] } in
    if s.skip_start
    then collect a.received [] s'
    else maybe a.start_raises
        (collect a.received [] (record s' { skip_start = true; sent = along_border ∷ s.sent }))
        (λ e. raised e s')

-- The runs of a saga, however each ends.
unfoldable pub runs : List Attempt → EdgeState → EdgeState
unfolding run
runs [] s = s
runs (a ∷ attempts) s = runs attempts (state_of (run a s))
