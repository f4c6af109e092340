-- ===== src/Tests/MapFetchTests.antt =====
-- Runs of the map saga: one that fetches an area of two frames, and one that loses a frame.
use py_mammotion.Base.{
  ℕ, ◌≡◌, ◌≢◌, ◌⊎◌, refl, true, false, none, some, List, [], ◌∷◌, arith, elem, nat_keys, Bool,
}
use py_mammotion.Tests.Fixtures.{no_map, boundary, manifest}
use py_mammotion.Base.Dict.{insert, lookup, values, restrict, keys, contains}
use py_mammotion.HashList.Frames.{find_missing_frames, comm_eq, add_hash_data, range}
use py_mammotion.HashList.Store.{bucket, set_bucket, path_type_of}
use py_mammotion.HashList.Update.{flat_map, invalidate_maps, prune, hashlist}
use py_mammotion.HashList.Receive.{update_root_hash_list, update_comm, add_area, add_typed}
use py_mammotion.Messaging.Transfers.{ack_stream}
use py_mammotion.HashList.Queries.{
  find_incomplete_hashes, declared, entries, tiles, missing_frame_comm, is_incomplete,
}
use py_mammotion.HashList.Queries.Sync.{Fetched}
use py_mammotion.Messaging.Saga.{execute, finished}
use py_mammotion.Messaging.MapFetch.{
  Leaf, comm_data, frame, Await, FetchState, no_fuel, fetch_comm_data,
}
use py_mammotion.Messaging.MapFetch.Drained.{requests, ended_hashes, accounted}
use py_mammotion.Messaging.MapFetch.Fetched.{IsChanging}
use py_mammotion.Messaging.MapFetch.Run.{Config, run, map_fetch}
use py_mammotion.Messaging.MapFetch.Run.Synced.{
  subscribed, state_of, fetch_comm_data-accounted, run-IsChanging, run-no_fuel, execute-Fetched,
}

abbrev bare : Config
bare = record { is_luba1 = true; skip_area_names = false }

abbrev nothing : Await
nothing = record { arrivals = []; send_raises = none; reply = none }

abbrev brings : ℕ → ℕ → ℕ → Await
brings id total current = record nothing {
  arrivals = frame (comm_data (boundary id total current)) ∷ [];
}

-- Two sends and the ack of the manifest, then the sync and the request of step 4.
abbrev started : List Await → List Await
started l = nothing ∷ nothing ∷ nothing ∷ nothing ∷ nothing ∷ l

abbrev before : List ℕ → List Await → FetchState
before ids frames = record {
  map = no_map;
  bol_hash = none;
  comm_queue = [];
  sent = [];
  coming = started frames;
  manifest = (some (record manifest { data_couple = ids }) ∷ []) ∷ [];
}

abbrev one_area_comes : FetchState
one_area_comes = before (7 ∷ []) (brings 7 2 1 ∷ nothing ∷ brings 7 2 2 ∷ nothing ∷ [])

-- Frame 2 of hash 7 is lost.
abbrev frame_lost : FetchState
frame_lost =
    before (7 ∷ 9 ∷ [])
      (brings 7 3 1 ∷ nothing ∷ brings 7 3 3 ∷ nothing ∷ brings 9 1 1 ∷ nothing ∷ [])

abbrev after : FetchState → FetchState
after s = state_of (run bare s)

-- The first run fetches the area; the second finishes although a frame of hash 7 is missing.
runs :
    ((execute (map_fetch bare) 1 one_area_comes ≡ finished (after one_area_comes))
      × (elem 7 (declared (after one_area_comes).map 0) ≡ true)
      × (find_incomplete_hashes (after one_area_comes).map 0 ≡ []))
    × (execute (map_fetch bare) 1 frame_lost ≡ finished (after frame_lost))
    × (find_incomplete_hashes (after frame_lost).map 0 ≡ 7 ∷ [])
unfolding execute map_fetch ack_stream insert fetch_comm_data find_incomplete_hashes declared
    flat_map update_root_hash_list invalidate_maps lookup entries values bucket tiles
    missing_frame_comm path_type_of find_missing_frames update_comm add_area add_typed add_hash_data
    set_bucket prune hashlist restrict keys contains elem is_incomplete range run comm_eq
runs = ((refl, refl, refl), refl, refl)

execute-Fetched_example :
    Fetched (after one_area_comes).map 7
    ⊎ (elem 7 (ended_hashes (after one_area_comes).sent) ≡ true)
execute-Fetched_example =
    execute-Fetched bare 1 7 one_area_comes (after one_area_comes) runs.0.0 (omega arith) runs.0.1

run-no_fuel_example : run bare one_area_comes ≢ no_fuel one_area_comes
run-no_fuel_example = run-no_fuel bare one_area_comes one_area_comes

run-IsChanging_example : IsChanging (requests (state_of (run bare frame_lost)).sent)
run-IsChanging_example = run-IsChanging bare frame_lost

abbrev any_frame : Leaf → Bool
any_frame f = true

fetch_comm_data-accounted_example :
    accounted any_frame (state_of (fetch_comm_data frame_lost))
    ≡ accounted any_frame (subscribed frame_lost)
unfolding requests
fetch_comm_data-accounted_example = fetch_comm_data-accounted frame_lost any_frame refl
