-- ===== src/Messaging/MowPath.antt =====
-- pymammotion/messaging/mow_path_saga.py, class `MowPathSaga`: what its `_run` does once the line hash
-- list and the route are there, that is, which hashes lack a cover path, and steps 3 and 4, which
-- request them in batches and collect the frames.
--
-- What comes from the device is a list with one entry for each await, which may be empty: the frames,
-- which the collector queues and the state reducer stores, and the other messages, with what they make
-- of the map. `clock` gives the time in milliseconds at which a batch is requested, and `route_val` has
-- the path hash of the cached route. A command is what the code hands to `_send_command`, the last one
-- first.
pub mod Invariant
pub mod Complete
pub mod Stuck
use py_mammotion.Base.{
  maybe, ℕ, zero, suc, ◌+◌, ◌-◌, Bool, true, false, ◌&&◌, not, Option, none, some, List, [], ◌∷◌,
  ◌++◌, ◌==◌, nat_keys, if◌then◌else◌, ltb, leb, length, filter, elem, is_empty,
}
use py_mammotion.Base.Dict.{Dict, erase}
use py_mammotion.HashList.Frames.{NavGetHashListData, RootHashList}
use py_mammotion.HashList.Store.{HashList, MowPath}
use py_mammotion.HashList.Receive.{update_mow_path}
use py_mammotion.HashList.MowPaths.{find_missing_mow_path_frames, has_mow_path_for_hash}
use py_mammotion.Messaging.MapFetch.{Raise, head_or, tail}

pub data PathArrival : Type 0 where
  cover_path_upload : MowPath → PathArrival
  other_message : (HashList → HashList) → PathArrival

pub record PathAwait : Type 0 where
  pub arrivals : List PathArrival
  pub send_raises : Option Raise

pub data PathCommand : Type 0 where
  todev_ble_sync : PathCommand
  get_line_info_list : List ℕ → ℕ → PathCommand

pub record PathState : Type 0 where
  pub map : HashList
  pub result : Dict ℕ (Dict ℕ MowPath)
  pub route_val : Option ℕ
  pub path_queue : List MowPath
  pub current_run_tx_ids : List ℕ
  pub sent : List PathCommand
  pub coming : List PathAwait

-- `timed_out` is CommandTimeoutError, from a wait without a frame or from the guard against a stall.
pub data PathEnd : Type 0 where
  fetched : PathState → PathEnd
  timed_out : PathState → PathEnd
  raised : Raise → PathState → PathEnd

infixl 5 ◌>>=◌
unfoldable pub ◌>>=◌ : PathEnd → (PathState → PathEnd) → PathEnd
fetched s >>= k = k s
timed_out s >>= k = timed_out s
raised e s >>= k = raised e s

unfoldable pub arrive : List PathArrival → PathState → PathState
arrive [] s = s
arrive (cover_path_upload p ∷ more) s =
    arrive more (record s { map = update_mow_path s.map p; path_queue = s.path_queue ++ p ∷ [] })
arrive (other_message g ∷ more) s = arrive more (record s { map = g s.map })

abbrev pub silence : PathAwait
silence = record { arrivals = []; send_raises = none }

unfoldable pub send : PathCommand → PathState → PathEnd
unfolding arrive head_or tail maybe
send c s =
    let s' =
      arrive (head_or silence s.coming).arrivals
        (record s { sent = c ∷ s.sent; coming = tail s.coming }) in
    maybe (head_or silence s.coming).send_raises (fetched s') (λ e. raised e s')

-- `_missing_frame_count`
frame_count : Dict ℕ (List ℕ) → ℕ
frame_count [] = 0
frame_count ((t, missing) ∷ more) = length missing + frame_count more

abbrev missing_frame_count : PathState → ℕ
missing_frame_count s = frame_count (find_missing_mow_path_frames s.map)

abbrev pub no_progress_limit : ℕ
no_progress_limit = 10

-- One turn of the inner loop, with `prev_missing` and `no_progress`, and the turns after it.
unfoldable pub handle_frame : MowPath → PathState → ℕ → ℕ → (PathState → ℕ → ℕ → PathEnd) → PathEnd
unfolding frame_count
handle_frame p s prev_missing no_progress loop =
    let new_missing = missing_frame_count s in
    let stalled = if ltb new_missing prev_missing then 0 else no_progress + 1 in
    if not (elem p.transaction_id s.current_run_tx_ids)
    then loop
        (record s {
          map = record s.map { current_mow_path = erase p.transaction_id s.map.current_mow_path };
        })
        prev_missing no_progress
    else if leb no_progress_limit stalled
    then timed_out s
    else if is_empty (find_missing_mow_path_frames s.map)
    then fetched s
    else loop s new_missing stalled

-- The loop once nothing comes any more.
unfoldable pub collect_queued : List MowPath → PathState → ℕ → ℕ → PathEnd
unfolding handle_frame
collect_queued [] s prev_missing no_progress = timed_out s
collect_queued (p ∷ queue) s prev_missing no_progress =
    handle_frame p (record s { path_queue = queue }) prev_missing no_progress (collect_queued queue)

-- A turn with what has come, for each await that is left.
unfoldable pub next_frame :
    List MowPath → PathState → ℕ → ℕ → (PathState → ℕ → ℕ → PathEnd) → PathEnd
unfolding handle_frame
next_frame [] s prev_missing no_progress loop = timed_out s
next_frame (p ∷ queue) s prev_missing no_progress loop =
    handle_frame p (record s { path_queue = queue }) prev_missing no_progress loop

unfoldable pub collect : List PathAwait → PathState → ℕ → ℕ → PathEnd
unfolding next_frame arrive collect_queued
collect [] s prev_missing no_progress = collect_queued s.path_queue s prev_missing no_progress
collect (a ∷ coming) s prev_missing no_progress =
    let s' = arrive a.arrivals (record s { coming = coming }) in
    next_frame s'.path_queue s' prev_missing no_progress (collect coming)

-- One batch.
unfoldable pub request_batch : ℕ → List ℕ → PathState → PathEnd
unfolding send collect frame_count ◌>>=◌
request_batch transaction_id batch_hashes s =
    send (get_line_info_list batch_hashes transaction_id)
      (record s { current_run_tx_ids = transaction_id ∷ s.current_run_tx_ids })
    >>= λ s'. collect s'.coming s' (missing_frame_count s') 0

-- The rest of the current batch, with room for some more hashes, and the batches after it.
split_batches : ℕ → ℕ → List ℕ → List ℕ × List (List ℕ)
split_batches size room [] = ([], [])
split_batches size zero (h ∷ hashes) =
    let rest = split_batches size (size - 1) hashes in ([], (h ∷ rest.0) ∷ rest.1)
split_batches size (suc room) (h ∷ hashes) =
    let rest = split_batches size room hashes in (h ∷ rest.0, rest.1)

unfoldable pub hash_batches : List ℕ → List (List ℕ)
unfolding split_batches
hash_batches missing_hashes = (split_batches 20 0 missing_hashes).1

module _ (clock : ℕ → ℕ) where
  unfoldable pub run_batches : ℕ → List (List ℕ) → PathState → PathEnd
  unfolding request_batch ◌>>=◌
  run_batches batch_idx [] s = fetched s
  run_batches batch_idx (batch_hashes ∷ batches) s =
      request_batch (clock batch_idx) batch_hashes s >>= run_batches (batch_idx + 1) batches

-- `_sub3.data`
line_frames : HashList → List NavGetHashListData
line_frames h = elim (filter (λ r. r.sub_cmd == 3) h.root_hash_lists) [ [] ↦ [] | r ∷ _ ↦ r.data' ]

insert_frame : NavGetHashListData → List NavGetHashListData → List NavGetHashListData
insert_frame d [] = d ∷ []
insert_frame d (e ∷ es) =
    if leb d.current_frame e.current_frame then d ∷ e ∷ es else e ∷ insert_frame d es

frames_in_order : List NavGetHashListData → List NavGetHashListData
unfolding insert_frame
frames_in_order [] = []
frames_in_order (d ∷ ds) = insert_frame d (frames_in_order ds)

nonzero_hashes : List NavGetHashListData → List ℕ
nonzero_hashes [] = []
nonzero_hashes (d ∷ ds) = filter (λ h. not (h == 0)) d.data_couple ++ nonzero_hashes ds

unfoldable pub missing_hashes : HashList → List ℕ
unfolding line_frames frames_in_order nonzero_hashes
missing_hashes h =
    filter (λ id. not (has_mow_path_for_hash h id))
      (nonzero_hashes (frames_in_order (line_frames h)))

module _ (clock : ℕ → ℕ) where
  -- Steps 3 and 4.
  unfoldable pub fetch_missing : PathState → PathEnd
  unfolding send run_batches hash_batches missing_hashes ◌>>=◌
  fetch_missing s =
      send todev_ble_sync (record s { path_queue = []; current_run_tx_ids = [] })
      >>= run_batches clock 0 (hash_batches (missing_hashes s.map))
      >>= λ s'. fetched (record s' { result = s'.map.current_mow_path; route_val = none })

  unfoldable pub fetch_cover_paths : PathState → PathEnd
  unfolding fetch_missing line_frames missing_hashes
  fetch_cover_paths s =
      if is_empty (line_frames s.map)
      then fetched (record s { route_val = none })
      else if is_empty (missing_hashes s.map)
      then fetched (record s { result = s.map.current_mow_path })
      else fetch_missing s
