-- ===== src/Messaging/MapFetch.antt =====
-- pymammotion/messaging/map_saga.py, class `MapFetchSaga`: the state of a run, what comes at an await,
-- and step 4, the loop that fetches the data of every hash ID.
--
-- What comes from the device is a list with one entry for each await, which may be empty: the frames
-- that the collector queues and the state reducer applies to the map, or drops as malformed; the other
-- messages, with what they make of the map; and whether a send raises. The handle gives a message to the
-- broker and then to the reducer, and the saga runs after both. A frame that has no matching leaf is not
-- queued, so the loop meets none. A command is what the code hands to `_send_command`, the last one first.
pub mod Sends
pub mod Drained
pub mod Fetched
pub mod Run
use py_mammotion.Base.{
  maybe, ℕ, zero, suc, ◌+◌, String, Bool, true, false, ◌&&◌, ◌||◌, not, Option, none, some, List,
  [], ◌∷◌, ◌++◌, ◌==◌, nat_keys, if◌then◌else◌, ltb, leb, length, filter, elem, is_empty,
}
use py_mammotion.HashList.Frames.{NavGetCommData, SvgMessage, NavGetHashListData}
use py_mammotion.HashList.Store.{HashList, AreaHashNameList}
use py_mammotion.HashList.Receive.{update_comm, update_svg}
use py_mammotion.HashList.Queries.{find_incomplete_hashes, missing_frame_comm, missing_frame_svg}

-- `toapp_get_commondata_ack` and `toapp_svg_msg`, the fields of `_COMM_FIELDS`.
pub data Leaf : Type 0 where
  comm_data : NavGetCommData → Leaf
  svg_tile : SvgMessage → Leaf

pub data Arrival : Type 0 where
  frame : Leaf → Arrival
  malformed : Leaf → Arrival
  other_message : (HashList → HashList) → Arrival
  reported : Option ℕ → Arrival

-- What a send raises: an interruption of the saga (SagaInterruptedError, CommandTimeoutError or
-- GatewayTimeoutException), or another exception.
pub data Raise : Type 0 where
  interruption : Raise
  other_error : Raise

-- `reply` is what `send_and_wait` gives at an await of it, none if it raises CommandTimeoutError.
pub record Await : Type 0 where
  pub arrivals : List Arrival
  pub send_raises : Option Raise
  pub reply : Option (List AreaHashNameList)

pub data Command : Type 0 where
  todev_ble_sync : Command
  get_area_name_list : Command
  get_all_boundary_hash_list : Command
  get_hash_response : NavGetHashListData → Command
  synchronize_hash_data : ℕ → Command
  ack_frame : Leaf → Command

-- `bol_hash` is what `get_bol_hash` returns; `manifest` has the frames of each answer to the request for
-- the root hash list, as the transfers take them.
pub record FetchState : Type 0 where
  pub map : HashList
  pub bol_hash : Option ℕ
  pub comm_queue : List Leaf
  pub sent : List Command
  pub coming : List Await
  pub manifest : List (List (Option NavGetHashListData))

-- `timed_out` is CommandTimeoutError, `raised` what a send raises, and `no_fuel` no end at all.
pub data Ended (A : Type 0) : Type 0 where
  ok : A → FetchState → Ended A
  timed_out : FetchState → Ended A
  raised : Raise → FetchState → Ended A
  no_fuel : FetchState → Ended A

infixl 5 ◌>>=◌
unfoldable pub ◌>>=◌ : {A B : Type 0} → Ended A → (A → FetchState → Ended B) → Ended B
ok a s >>= k = k a s
timed_out s >>= k = timed_out s
raised e s >>= k = raised e s
no_fuel s >>= k = no_fuel s

unfoldable pub apply_leaf : Leaf → HashList → HashList
apply_leaf (comm_data d) h = (update_comm h d).0
apply_leaf (svg_tile d) h = (update_svg h d).0

unfoldable pub arrive : List Arrival → FetchState → FetchState
unfolding apply_leaf
arrive [] s = s
arrive (frame f ∷ more) s =
    arrive more (record s { map = apply_leaf f s.map; comm_queue = s.comm_queue ++ f ∷ [] })
arrive (malformed f ∷ more) s = arrive more (record s { comm_queue = s.comm_queue ++ f ∷ [] })
arrive (other_message g ∷ more) s = arrive more (record s { map = g s.map })
arrive (reported b ∷ more) s = arrive more (record s { bol_hash = b })

abbrev pub silence : Await
silence = record { arrivals = []; send_raises = none; reply = none }

unfoldable pub head_or : {A : Type 0} → A → List A → A
head_or a [] = a
head_or a (x ∷ xs) = x

unfoldable pub tail : {A : Type 0} → List A → List A
tail [] = []
tail (x ∷ xs) = xs

-- The next await of the saga.
unfoldable pub waited : FetchState → FetchState
unfolding arrive head_or tail
waited s = arrive (head_or silence s.coming).arrivals (record s { coming = tail s.coming })

unfoldable pub send : Command → FetchState → Ended Unit
unfolding waited head_or maybe
send c s =
    let s' = waited (record s { sent = c ∷ s.sent }) in
    maybe (head_or silence s.coming).send_raises (ok tt s') (λ e. raised e s')

unfoldable pub take_first : List Leaf → FetchState → Ended Leaf
take_first [] s = timed_out s
take_first (f ∷ rest) s = ok f (record s { comm_queue = rest })

unfoldable pub next_frame : FetchState → Ended Leaf
unfolding waited take_first
next_frame s = take_first (waited s).comm_queue (waited s)

-- `_frame_scope_hashes`.
unfoldable pub frame_hash : Leaf → ℕ
frame_hash (comm_data d) = d.hash
frame_hash (svg_tile d) = d.data_hash

unfoldable pub parent_hash : Leaf → ℕ
parent_hash (comm_data d) = 0
parent_hash (svg_tile d) = d.paternal_hash_a

abbrev pub within : ℕ → List ℕ → ℕ → Bool
within id missing_hashes current_hash = elem id missing_hashes || id == current_hash

unfoldable pub in_scope : Leaf → List ℕ → ℕ → Bool
unfolding elem
in_scope (comm_data d) missing_hashes current_hash = within d.hash missing_hashes current_hash
in_scope (svg_tile d) missing_hashes current_hash =
    within d.data_hash missing_hashes current_hash
    || within d.paternal_hash_a missing_hashes current_hash

-- `current_frame >= total_frame and total_frame > 0`
unfoldable pub is_last : Leaf → Bool
is_last (comm_data d) = leb d.total_frame d.current_frame && ltb 0 d.total_frame
is_last (svg_tile d) = leb d.total_frame d.current_frame && ltb 0 d.total_frame

-- What a frame adds to `addressed_hashes`.
unfoldable pub addresses : Leaf → List ℕ
addresses (comm_data d) = d.hash ∷ []
addresses (svg_tile d) = d.paternal_hash_a ∷ d.data_hash ∷ []

unfoldable pub addressed_by : Leaf → List ℕ → List ℕ
unfolding is_last addresses
addressed_by f addressed_hashes =
    if is_last f then addresses f ++ addressed_hashes else addressed_hashes

unfoldable pub missing_frame : HashList → Leaf → List ℕ
missing_frame h (comm_data d) = missing_frame_comm h d
missing_frame h (svg_tile d) = missing_frame_svg h d

-- The local variables of the loop; inside it `current_hash` is not None.
pub record Progress : Type 0 where
  pub missing_hashes : List ℕ
  pub current_hash : ℕ
  pub addressed_hashes : List ℕ
  pub no_progress : ℕ

-- `_drain_current_hash_frames`. Its fuel is a bound on the frames that can still come.
unfoldable pub belongs_to : ℕ → Leaf → Bool
unfolding frame_hash parent_hash
belongs_to current_hash f = frame_hash f == current_hash || parent_hash f == current_hash

unfoldable pub drain_step : (FetchState → Ended Unit) → ℕ → List Leaf → FetchState → Ended Unit
unfolding send ◌>>=◌ belongs_to
drain_step again current_hash [] s = ok tt s
drain_step again current_hash (f ∷ rest) s =
    let more = send (ack_frame f) (record s { comm_queue = rest }) >>= λ _. again in
    if belongs_to current_hash f then more else ok tt (record s { comm_queue = rest ++ f ∷ [] })

unfoldable pub drain : ℕ → ℕ → FetchState → Ended Unit
unfolding drain_step
drain zero current_hash s = if is_empty s.comm_queue then ok tt s else no_fuel s
drain (suc fuel) current_hash s = drain_step (drain fuel current_hash) current_hash s.comm_queue s

-- The frames that are queued or can still come, in their order.
unfoldable pub frames_in : List Arrival → List Leaf
frames_in [] = []
frames_in (frame f ∷ more) = f ∷ frames_in more
frames_in (malformed f ∷ more) = f ∷ frames_in more
frames_in (other_message g ∷ more) = frames_in more
frames_in (reported b ∷ more) = frames_in more

unfoldable pub frames_coming : List Await → List Leaf
unfolding frames_in
frames_coming [] = []
frames_coming (a ∷ more) = frames_in a.arrivals ++ frames_coming more

unfoldable pub flow : FetchState → List Leaf
unfolding frames_coming
flow s = s.comm_queue ++ frames_coming s.coming

-- What the loop does once a data item is complete and the queue is drained.
unfoldable pub still_missing : FetchState → List ℕ → List ℕ
still_missing s addressed_hashes =
    filter (λ h. not (elem h addressed_hashes)) (find_incomplete_hashes s.map 0)

unfoldable pub counted : List ℕ → Progress → ℕ
counted new_missing p =
    if ltb (length new_missing) (length p.missing_hashes) then 0 else p.no_progress + 1

abbrev pub no_progress_limit : ℕ
no_progress_limit = 10

-- `if missing_hashes and missing_hashes[0] != current_hash`
unfoldable pub move_on : List ℕ → Progress → FetchState → Ended Progress
unfolding send ◌>>=◌
move_on [] p s = ok p s
move_on (h ∷ rest) p s =
    if h == p.current_hash
    then ok p s
    else (send (synchronize_hash_data h) s >>= λ _. ok (record p { current_hash = h }))

unfoldable pub advance : Progress → FetchState → Ended Progress
unfolding still_missing counted move_on
advance p s =
    let new_missing = still_missing s p.addressed_hashes in
    let n = counted new_missing p in
    if leb no_progress_limit n
    then timed_out s
    else move_on new_missing (record p { missing_hashes = new_missing; no_progress = n }) s

unfoldable pub complete : Leaf → Progress → FetchState → Ended Progress
unfolding drain flow advance ◌>>=◌ missing_frame
complete f p s =
    if is_empty (missing_frame s.map f)
    then (drain (length (flow s)) p.current_hash s >>= λ _. advance p)
    else ok p s

-- A round of the loop, from the frame that it has taken.
unfoldable pub handle_frame : Progress → Leaf → FetchState → Ended Progress
unfolding send ◌>>=◌ in_scope addressed_by complete
handle_frame p f s = send (ack_frame f) s >>= λ _ s'.
    if in_scope f p.missing_hashes p.current_hash
    then complete f (record p { addressed_hashes = addressed_by f p.addressed_hashes }) s'
    else ok p s'

unfoldable pub fetch_loop : ℕ → Progress → FetchState → Ended Progress
unfolding next_frame handle_frame ◌>>=◌
fetch_loop zero p s = no_fuel s
fetch_loop (suc fuel) p s =
    let round = next_frame s >>= λ f s'. handle_frame p f s' >>= fetch_loop fuel in
    if is_empty p.missing_hashes then ok p s else round

-- Before the loop: a sync and the first request, if any hash is missing.
unfoldable pub first_request : List ℕ → FetchState → Ended Progress
unfolding send ◌>>=◌
first_request [] s =
    ok (record { missing_hashes = []; current_hash = 0; addressed_hashes = []; no_progress = 0 }) s
first_request (h ∷ rest) s = send todev_ble_sync s >>= λ _ s'.
    send (synchronize_hash_data h) s' >>= λ _.
    ok (record {
      missing_hashes = h ∷ rest;
      current_hash = h;
      addressed_hashes = [];
      no_progress = 0;
    })

-- Step 4, from a new queue. The fuel is one more than the frames that can still come.
unfoldable pub fetch_comm_data : FetchState → Ended Progress
unfolding first_request fetch_loop flow ◌>>=◌
fetch_comm_data s =
    first_request (find_incomplete_hashes s.map 0) (record s { comm_queue = [] }) >>= λ p s'.
    fetch_loop (suc (length (flow s'))) p s'
