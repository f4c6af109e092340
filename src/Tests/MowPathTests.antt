-- ===== src/Tests/MowPathTests.antt =====
-- Runs of the mow-path saga: one that fetches two frames, one after an incomplete transaction of an
-- earlier run, and one that finds its only hash cached with a frame missing.
use py_mammotion.Base.{ℕ, ◌+◌, ◌≡◌, refl, none, some, [], ◌∷◌, nat_keys, elem, filter, any}
use py_mammotion.Base.Dict.{lookup, insert, contains, values}
use py_mammotion.HashList.Frames.{range}
use py_mammotion.HashList.Store.{HashList, MowPath}
use py_mammotion.HashList.Receive.{update_mow_path}
use py_mammotion.HashList.MowPaths.{
  find_missing_mow_path_frames, has_mow_path_for_hash, missing_of_transaction,
}
use py_mammotion.Messaging.MowPath.{
  PathAwait, cover_path_upload, PathState, PathEnd, fetched, timed_out, missing_hashes,
  fetch_cover_paths,
}
use py_mammotion.Messaging.MowPath.Invariant.{IfFetched}
use py_mammotion.Messaging.MowPath.Complete.{Fetched, fetch_cover_paths-Fetched}
use py_mammotion.Messaging.MowPath.Stuck.{Never, is_gapped, fetch_cover_paths-gapped}
use py_mammotion.Tests.Fixtures.{no_map, manifest}

abbrev clock : ℕ → ℕ
clock batch_idx = 1000 + batch_idx

abbrev path_frame : ℕ → ℕ → MowPath
path_frame transaction_id current_frame = record {
  area = 1;
  total_frame = 2;
  current_frame = current_frame;
  transaction_id = transaction_id;
  path_packets =
      record {
        path_hash = 5;
        path_type = 0;
        path_total = 1;
        path_cur = 1;
        zone_hash = 7;
        data_couple = [];
      }
      ∷ [];
}

abbrev nothing : PathAwait
nothing = record { arrivals = []; send_raises = none }

abbrev brings : ℕ → PathAwait
brings n = record nothing { arrivals = cover_path_upload (path_frame 1000 n) ∷ [] }

-- The line hash list has the given hash.
abbrev lines : ℕ → HashList
lines id = record no_map {
  root_hash_lists =
      record {
        total_frame = 1;
        sub_cmd = 3;
        data' = record manifest { sub_cmd = 3; data_couple = 0 ∷ id ∷ [] } ∷ [];
      }
      ∷ [];
}

abbrev start : HashList → PathState
start h = record {
  map = h;
  result = [];
  route_val = some 9;
  path_queue = [];
  current_run_tx_ids = [];
  sent = [];
  coming = nothing ∷ brings 1 ∷ nothing ∷ brings 2 ∷ [];
}

-- Frame 2 of transaction 900 is missing.
abbrev with_gap : ℕ → HashList
with_gap id = record (lines id) { current_mow_path = (900, (1, path_frame 900 1) ∷ []) ∷ [] }

abbrev state_of : PathEnd → PathState
state_of (fetched s) = s
state_of (timed_out s) = s
state_of (PathEnd.raised e s) = s

abbrev end_of : HashList → PathState
end_of h = state_of (fetch_cover_paths clock (start h))

paths :
    (fetch_cover_paths clock (start (lines 5)) ≡ fetched (end_of (lines 5)))
    × (fetch_cover_paths clock (start (with_gap 6)) ≡ timed_out (end_of (with_gap 6)))
    × (fetch_cover_paths clock (start (with_gap 5)) ≡ fetched (end_of (with_gap 5)))
    × (find_missing_mow_path_frames (end_of (with_gap 5)).map ≡ (900, 2 ∷ []) ∷ [])
unfolding fetch_cover_paths find_missing_mow_path_frames update_mow_path insert lookup contains elem
    missing_hashes has_mow_path_for_hash values filter any range
paths = (refl, refl, refl, refl)

fetch_cover_paths-Fetched_example :
    IfFetched (Fetched (start (lines 5))) (fetch_cover_paths clock (start (lines 5)))
unfolding missing_hashes has_mow_path_for_hash values filter any range
fetch_cover_paths-Fetched_example = fetch_cover_paths-Fetched clock (start (lines 5)) refl

fetch_cover_paths-gapped_example : IfFetched Never (fetch_cover_paths clock (start (with_gap 6)))
unfolding missing_hashes has_mow_path_for_hash values filter any range is_gapped lookup
    missing_of_transaction contains
fetch_cover_paths-gapped_example =
    fetch_cover_paths-gapped 900 clock (start (with_gap 6)) refl
      (tt, ((refl, tt), (tt, ((refl, tt), tt)))) refl
