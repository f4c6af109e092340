-- ===== src/HashList/Queries.antt =====
-- pymammotion/data/model/hash_list.py, class `HashList`: what is still missing, and whether the map
-- is in step with the device.
pub mod Sync
use py_mammotion.Base.{
  ℕ, zero, suc, ◌+◌, String, Bool, true, false, ◌&&◌, ◌||◌, not, Option, none, some, List, [], ◌∷◌,
  ◌++◌, ◌==◌, nat_keys, ltb, leb, if◌then◌else◌, filter, any, elem, is_empty, length,
}
use py_mammotion.Base.Dict.{Dict, keys, values, lookup, insert, contains}
use py_mammotion.HashList.Frames.{
  CommDataCouple, NavGetCommData, SvgMessage, NavGetHashListData, FrameList, SvgFrameList,
  RootHashList, Frames, find_missing_frames, comm_frame, svg_frame, hash_frame, range,
}
use py_mammotion.HashList.Store.{
  HashList, Plan, MowPath, EdgePoints, PathType, line_type, path_types, bucket, path_type_of,
}
use py_mammotion.HashList.Update.{flat_map, area_root_hashlist, computed_bol_hash}
use py_mammotion.HashList.Receive.{matches}

-- The hash IDs that the manifest lists under `sub_cmd`, in its order.
unfoldable pub declared : HashList → ℕ → List ℕ
declared h sub_cmd =
    flat_map (λ rl. flat_map (λ obj. obj.data_couple) rl.data')
      (filter (λ rl. rl.sub_cmd == sub_cmd) h.root_hash_lists)

unfoldable pub has_entry : HashList → ℕ → ℕ → Bool
has_entry h sub_cmd id =
    if sub_cmd == 3
    then contains id h.line
    else (contains id h.area
        || contains id h.path
        || contains id h.obstacle
        || contains id h.dump
        || contains id h.svg
        || contains id h.visual_safety_zone
        || contains id h.visual_obstacle_zone
        || contains id h.corridor_line
        || contains id h.corridor_point
        || contains id h.virtual_wall)

unfoldable pub missing_hashlist : HashList → ℕ → List ℕ
missing_hashlist h sub_cmd = filter (λ id. not (has_entry h sub_cmd id)) (declared h sub_cmd)

-- `for hash_id, frames in target.items(): lookup[hash_id] = frames`
write_all : Dict ℕ FrameList → Dict ℕ FrameList → Dict ℕ FrameList
write_all [] found = found
write_all ((id, fl) ∷ target) found = write_all target (insert id fl found)

-- `lookup.setdefault(hash_id, frames)`
set_defaults : Dict ℕ FrameList → Dict ℕ FrameList → Dict ℕ FrameList
set_defaults [] found = found
set_defaults ((id, fl) ∷ target) found =
    set_defaults target (if contains id found then found else insert id fl found)

-- `if target is self.line: continue`
write_type : HashList → PathType → Dict ℕ FrameList → Dict ℕ FrameList
unfolding write_all
write_type h line_type found = found
write_type h p found = write_all (bucket p h) found

write_types : HashList → List PathType → Dict ℕ FrameList → Dict ℕ FrameList
unfolding write_type
write_types h [] found = found
write_types h (p ∷ ps) found = write_types h ps (write_type h p found)

default_unknown : List (Dict ℕ FrameList) → Dict ℕ FrameList → Dict ℕ FrameList
unfolding set_defaults
default_unknown [] found = found
default_unknown (m ∷ ms) found = default_unknown ms (set_defaults m found)

-- The `lookup` of `find_incomplete_hashes`.
unfoldable pub entries : HashList → ℕ → Dict ℕ FrameList
unfolding write_types default_unknown
entries h sub_cmd =
    if sub_cmd == 3
    then h.line
    else default_unknown (values h.unknown_type_frames) (write_types h path_types [])

-- The parent of a tile, when it has one of its own.
parent_of : ℕ → SvgFrameList → Option ℕ
parent_of data_hash fl = elim fl.data' [
  | [] ↦ none
  | tile ∷ _ ↦
      if tile.paternal_hash_a == 0 || tile.paternal_hash_a == data_hash
      then none
      else some tile.paternal_hash_a
]

belongs : ℕ → ℕ × SvgFrameList → Bool
unfolding parent_of
belongs id (data_hash, fl) =
    data_hash == id || elim (parent_of data_hash fl) [ none ↦ false | some p ↦ p == id ]

-- `svg_for_hash.get(hash_id, [])`
unfoldable pub tiles : HashList → ℕ → ℕ → List (ℕ × SvgFrameList)
unfolding belongs
tiles h sub_cmd id = if sub_cmd == 3 then [] else filter (belongs id) h.svg

abbrev pub tile_incomplete : ℕ × SvgFrameList → Bool
tile_incomplete (_, fl) = not (is_empty (find_missing_frames (some fl)))

abbrev pub entry_incomplete : Option FrameList → List (ℕ × SvgFrameList) → Bool
entry_incomplete none ts = is_empty ts || any tile_incomplete ts
entry_incomplete (some fl) ts =
    not (is_empty (find_missing_frames (some fl))) || any tile_incomplete ts

unfoldable pub is_incomplete : HashList → ℕ → ℕ → Bool
is_incomplete h sub_cmd id = entry_incomplete (lookup id (entries h sub_cmd)) (tiles h sub_cmd id)

unfoldable pub find_incomplete_hashes : HashList → ℕ → List ℕ
unfolding is_incomplete
find_incomplete_hashes h sub_cmd =
    filter (λ id. not (id == 0) && is_incomplete h sub_cmd id) (declared h sub_cmd)

first_match : NavGetHashListData → List RootHashList → Option RootHashList
first_match d [] = none
first_match d (rl ∷ rls) = if matches d rl then some rl else first_match d rls

unfoldable pub missing_root_hash_frame : HashList → NavGetHashListData → List ℕ
unfolding first_match
missing_root_hash_frame h d = find_missing_frames (first_match d h.root_hash_lists)

unfoldable pub missing_hash_frame : HashList → ℕ → List ℕ
missing_hash_frame h sub_cmd =
    flat_map (λ rl. find_missing_frames (some rl))
      (filter (λ rl. rl.sub_cmd == sub_cmd) h.root_hash_lists)

-- `missing_frame` of a `NavGetCommDataAck`.
unfoldable pub missing_frame_comm : HashList → NavGetCommData → List ℕ
missing_frame_comm h d = elim (path_type_of d.type) [
  | none ↦ []
  | some p ↦ find_missing_frames (lookup d.hash (bucket p h))
]

-- `missing_frame` of an `SvgMessageAckT`.
unfoldable pub missing_frame_svg : HashList → SvgMessage → List ℕ
missing_frame_svg h d = find_missing_frames (lookup d.data_hash h.svg)

unfoldable pub is_map_synced : HashList → ℕ → Bool
is_map_synced h bol_hash =
    if bol_hash == 0
    then false
    else if not (computed_bol_hash h == bol_hash)
    then false
    else if not (is_empty (find_incomplete_hashes h 0))
    then false
    else not (any (λ a. not (elem a.hash (area_root_hashlist h))) h.area_name)

unfoldable pub area_names_stale : HashList → Bool
area_names_stale h = not (is_empty h.area) && is_empty h.area_name
