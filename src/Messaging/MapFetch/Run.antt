-- ===== src/Messaging/MapFetch/Run.antt =====
-- pymammotion/messaging/map_saga.py, `MapFetchSaga._run` and `progress`: the area names, the root hash
-- list, step 4 and the names that are filled in. The saga is handed to the retry loop of
-- pymammotion/messaging/saga.py.
pub mod Unasked
pub mod Synced
use Prim.Native.String.{◌++◌ as str_append}
use py_mammotion.Base.{
  maybe, ℕ, zero, suc, ◌+◌, ◌/◌, ◌%◌, String, Bool, true, false, ◌&&◌, ◌||◌, not, Option, none,
  some, List, [], ◌∷◌, ◌==◌, nat_keys, if◌then◌else◌, ltb, length, filter, is_empty,
}
use py_mammotion.Base.Dict.{keys}
use py_mammotion.HashList.Frames.{NavGetHashListData}
use py_mammotion.HashList.Store.{HashList, AreaHashNameList}
use py_mammotion.HashList.Update.{invalidate_maps}
use py_mammotion.HashList.Receive.{update_root_hash_list}
use py_mammotion.HashList.Queries.{find_incomplete_hashes}
use py_mammotion.Messaging.Saga.{Attempt, completed, interrupted, Saga}
use py_mammotion.Messaging.Saga as Saga
use py_mammotion.Messaging.Transfers.{StreamFrame, StreamEnd, Stream, collected, ack_stream}
use py_mammotion.Messaging.Transfers as Transfers
use py_mammotion.Messaging.MapFetch.{
  Command, todev_ble_sync, get_area_name_list, get_all_boundary_hash_list, get_hash_response,
  FetchState, Ended, ok, timed_out, raised, no_fuel, Raise, interruption, other_error, ◌>>=◌,
  waited, head_or, tail, silence, send, Progress, fetch_comm_data,
}

-- What `__init__` is given.
pub record Config : Type 0 where
  pub is_luba1 : Bool
  pub skip_area_names : Bool

instance abbrev pub hash_list_frames : StreamFrame NavGetHashListData
hash_list_frames = record { current_frame = λ d. d.current_frame; total_frame = λ d. d.total_frame }

unfoldable pub set_map : HashList → FetchState → FetchState
set_map h s = record s { map = h }

-- Step 1. An answer without names leaves those of the map.
unfoldable pub store_names : List AreaHashNameList → FetchState → FetchState
unfolding set_map
store_names [] s = s
store_names (a ∷ rest) s = set_map (record s.map { area_name = a ∷ rest }) s

unfoldable pub names_reply : FetchState → Ended Unit
unfolding waited head_or store_names maybe
names_reply s =
    maybe (head_or silence s.coming).reply (timed_out (waited s))
      (λ names. ok tt (store_names names (waited s)))

unfoldable pub fetch_names : Config → FetchState → Ended Unit
unfolding send names_reply ◌>>=◌
fetch_names c s =
    if c.is_luba1 || c.skip_area_names
    then ok tt s
    else (send get_area_name_list s >>= λ _. names_reply)

-- Steps 2 and 3: each frame is in the map before it is acked.
unfoldable pub ack_roots : List NavGetHashListData → FetchState → Ended Unit
unfolding send set_map ◌>>=◌
ack_roots [] s = ok tt s
ack_roots (d ∷ rest) s =
    send (get_hash_response d) (set_map (update_root_hash_list s.map d) s) >>= λ _. ack_roots rest

unfoldable pub roots_end : StreamEnd NavGetHashListData → FetchState → Ended Unit
roots_end (collected frames) s = ok tt s
roots_end (Transfers.timed_out n) s = timed_out s

-- The collector takes the frames of `sub_cmd` 0.
unfoldable pub is_root : Option NavGetHashListData → Bool
is_root none = true
is_root (some d) = d.sub_cmd == 0

unfoldable pub take_roots : Stream NavGetHashListData → FetchState → Ended Unit
unfolding ack_roots roots_end ◌>>=◌
take_roots r s = ack_roots r.acked s >>= λ _. roots_end r.end

unfoldable pub roots_stream : FetchState → Stream NavGetHashListData
unfolding head_or is_root filter
roots_stream s = ack_stream false (filter is_root (head_or [] s.manifest))

unfoldable pub fetch_roots : FetchState → Ended Unit
unfolding send take_roots roots_stream tail ◌>>=◌
fetch_roots s = send get_all_boundary_hash_list s >>= λ _ s'.
    take_roots (roots_stream s') (record s' { manifest = tail s'.manifest })

-- `f"area {i + 1}"` for the areas in the order of their hashes.
digit : ℕ → String
digit d =
    if d == 0
    then "0"
    else if d == 1
    then "1"
    else if d == 2
    then "2"
    else if d == 3
    then "3"
    else if d == 4
    then "4"
    else if d == 5
    then "5"
    else if d == 6
    then "6"
    else if d == 7
    then "7"
    else if d == 8
    then "8"
    else "9"

-- `str(n)`; a number has fewer digits than its successor says.
decimal : ℕ → ℕ → String
unfolding digit
decimal zero n = ""
decimal (suc fuel) n =
    let more = str_append (decimal fuel (n / 10)) (digit (n % 10)) in
    if ltb n 10 then digit n else more

insert_hash : ℕ → List ℕ → List ℕ
insert_hash h [] = h ∷ []
insert_hash h (x ∷ xs) = if ltb h x then h ∷ x ∷ xs else x ∷ insert_hash h xs

sorted_hashes : List ℕ → List ℕ
unfolding insert_hash
sorted_hashes [] = []
sorted_hashes (h ∷ hs) = insert_hash h (sorted_hashes hs)

unfoldable pub numbered : ℕ → List ℕ → List AreaHashNameList
unfolding decimal
numbered i [] = []
numbered i (h ∷ hs) =
    record { name = str_append "area " (decimal (suc i) i); hash = h } ∷ numbered (i + 1) hs

unfoldable pub named : HashList → HashList
unfolding numbered sorted_hashes
named h =
    if is_empty h.area_name && not (is_empty h.area)
    then record h { area_name = numbered 1 (sorted_hashes (keys h.area)) }
    else h

-- `_run`; its log of commands is that of the run.
unfoldable pub run : Config → FetchState → Ended Unit
unfolding send fetch_names fetch_roots set_map named ◌>>=◌
run c s =
    send todev_ble_sync
      (record s { map = invalidate_maps s.map s.bol_hash; sent = []; comm_queue = [] })
    >>= λ _ s1. fetch_names c s1 >>= λ _ s2.
        fetch_roots s2 >>= λ _ s3. fetch_comm_data s3 >>= λ p s4. ok tt (set_map (named s4.map) s4)

unfoldable pub attempt : Ended Unit → Attempt FetchState
attempt (ok a s) = completed s
attempt (timed_out s) = interrupted s
attempt (raised interruption s) = interrupted s
attempt (raised other_error s) = Saga.raised s
attempt (no_fuel s) = Saga.raised s

unfoldable pub map_fetch : Config → Saga FetchState ℕ
unfolding run attempt
map_fetch c = record {
  run = λ s. attempt (run c s);
  progress = λ s. some (length (find_incomplete_hashes s.map 0));
  max_attempts = 2;
}
