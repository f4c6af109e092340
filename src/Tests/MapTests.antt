-- ===== src/Tests/MapTests.antt =====
-- The map store on a small map.
use py_mammotion.Base.{
  ℕ, ◌≡◌, ◌<◌, ◌*◌, ◌%◌, ◌^◌, ◌∷◌, [], List, true, some, refl, elem, nodup, arith, nat_keys, length,
  filter, any,
}
use py_mammotion.Base.Dict.{Dict, lookup, insert, values, Each, Each-nil}
use py_mammotion.Tests.Fixtures.{no_map, boundary, manifest, whole, partial, one_area}
use Prim.Native.Nat.{bit_xor}
use py_mammotion.MurMurHash.{hash_unsigned_list, avalanche}
use py_mammotion.MurMurHash.Words.{absorb_ids, hash_unsigned_list-absorb_ids}
use py_mammotion.HashList.Frames.FirstArrival.{
  frame_at, first_arrival, receive_all, receive_all-first_arrival,
}
use py_mammotion.HashList.Frames.{
  FrameList, find_missing_frames, comm_frame, svg_frame, hash_frame, range,
}
use py_mammotion.HashList.Frames.Missing.{IsWellFormed, IsComplete}
use py_mammotion.HashList.Frames.Adding.{IsDistinct}
use py_mammotion.HashList.Store.{
  PathType, area_type, obstacle_type, path_type, transfer_zone_type, line_type, dump_type,
  visual_safety_zone_type, visual_obstacle_zone_type, corridor_line_type, corridor_point_type,
  virtual_wall_type, no_go_zone_variant_type, no_go_zone_type, bucket,
}
use py_mammotion.HashList.Update.{flat_map, area_root_hashlist, computed_bol_hash}
use py_mammotion.HashList.Queries.{
  declared, is_map_synced, find_incomplete_hashes, is_incomplete, entries, tiles,
}
use py_mammotion.HashList.Queries.Sync.{Fetched, is_map_synced-Fetched}
use py_mammotion.HashList.Receive.Distinct.{IsDistinctStore}
use py_mammotion.HashList.Receive.Distinct.Run.{
  comm, root, drop_incomplete, run, run-IsDistinctStore,
}

abbrev seven : ℕ
seven = 7

abbrev listed : List ℕ
listed = 8 ∷ []

abbrev ids : List ℕ
ids = 7 ∷ []

abbrev held : Dict ℕ FrameList
held = (7, partial) ∷ []

abbrev one_area_hash : ℕ
one_area_hash = 3914555692142125034

one_area_bol_hash : computed_bol_hash one_area ≡ one_area_hash
unfolding computed_bol_hash filter area_root_hashlist hash_unsigned_list
one_area_bol_hash = refl

partial_missing : find_missing_frames (some partial) ≡ 2 ∷ []
unfolding find_missing_frames filter range elem
partial_missing = refl

partial-IsWellFormed : IsWellFormed partial
unfolding nodup
partial-IsWellFormed = record {
  distinct = refl;
  in_range = ((omega arith, omega arith), ((omega arith, omega arith), tt));
}

whole-IsWellFormed : IsWellFormed whole
unfolding nodup
whole-IsWellFormed = record {
  distinct = refl;
  in_range = ((omega arith, omega arith), ((omega arith, omega arith), tt));
}

whole-IsComplete : IsComplete whole
unfolding elem
whole-IsComplete k between = ground arith

one_area_incomplete : find_incomplete_hashes one_area 0 ≡ []
unfolding find_incomplete_hashes filter declared flat_map lookup entries is_incomplete tiles
    find_missing_frames any values bucket insert
one_area_incomplete = refl

one_area_declares : elem 7 (declared one_area 0) ≡ true
unfolding elem declared filter flat_map
one_area_declares = refl

one_area_synced : is_map_synced one_area one_area_hash ≡ true
unfolding is_map_synced find_incomplete_hashes filter declared flat_map lookup entries is_incomplete
    tiles find_missing_frames any values bucket insert computed_bol_hash area_root_hashlist
    hash_unsigned_list
one_area_synced = refl

is_map_synced-Fetched_example : (computed_bol_hash one_area ≡ one_area_hash) × Fetched one_area 7
is_map_synced-Fetched_example =
    is_map_synced-Fetched one_area one_area_hash 7 one_area_synced (λ e. absurd (omega (arith, e)))
      one_area_declares

no_map-IsDistinctStore : IsDistinctStore no_map
unfolding bucket lookup
no_map-IsDistinctStore = record {
  typed = typed_nil;
  tiles = Each-nil IsDistinct;
  unknown = Each-nil (Each IsDistinct);
  roots = tt;
}
  where
    typed_nil : (p : PathType) → Each IsDistinct (bucket p no_map)
    typed_nil area_type = Each-nil IsDistinct
    typed_nil obstacle_type = Each-nil IsDistinct
    typed_nil path_type = Each-nil IsDistinct
    typed_nil transfer_zone_type = Each-nil IsDistinct
    typed_nil line_type = Each-nil IsDistinct
    typed_nil dump_type = Each-nil IsDistinct
    typed_nil visual_safety_zone_type = Each-nil IsDistinct
    typed_nil visual_obstacle_zone_type = Each-nil IsDistinct
    typed_nil corridor_line_type = Each-nil IsDistinct
    typed_nil corridor_point_type = Each-nil IsDistinct
    typed_nil virtual_wall_type = Each-nil IsDistinct
    typed_nil no_go_zone_variant_type = Each-nil IsDistinct
    typed_nil no_go_zone_type = Each-nil IsDistinct

run-IsDistinctStore_example : IsDistinctStore (
    run no_map
      (root manifest ∷ comm (boundary 7 2 1) ∷ comm (boundary 7 2 1) ∷ drop_incomplete ∷ []))
run-IsDistinctStore_example =
    run-IsDistinctStore no_map
      (root manifest ∷ comm (boundary 7 2 1) ∷ comm (boundary 7 2 1) ∷ drop_incomplete ∷ [])
      no_map-IsDistinctStore

hash_unsigned_list-absorb_ids_example :
    (hash_unsigned_list ids
      ≡ avalanche (absorb_ids (record { remaining = bit_xor (8 * length ids) 97; j = 0 }) ids)
        % 2 ^ 63)
    × (hash_unsigned_list ids < 2 ^ 63)
hash_unsigned_list-absorb_ids_example = hash_unsigned_list-absorb_ids ids

-- A resent frame: the first one with the number is the one that is kept.
receive_all-first_arrival_example :
    frame_at 7 2 (receive_all [] (boundary 7 3 2 ∷ boundary 7 2 2 ∷ []))
    ≡ first_arrival 7 2 (boundary 7 3 2 ∷ boundary 7 2 2 ∷ [])
receive_all-first_arrival_example =
    receive_all-first_arrival 7 2 (boundary 7 3 2 ∷ boundary 7 2 2 ∷ [])
