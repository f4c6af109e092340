-- ===== src/HashList/Receive.antt =====
-- pymammotion/data/model/hash_list.py, class `HashList`: storing what arrives from the device.
pub mod Distinct
use py_mammotion.Base.{
  ℕ, String, Bool, true, false, ◌&&◌, not, Option, none, some, List, [], ◌∷◌, ◌++◌, ◌==◌, nat_keys,
  string_keys, if◌then◌else◌, is_empty,
}
use py_mammotion.Base.Dict.{Dict, keys, lookup, insert, erase, restrict, contains}
use py_mammotion.HashList.Frames.{
  CommDataCouple, NavGetCommData, SvgMessage, NavGetHashListData, FrameList, RootHashList, Frames,
  find_missing_frames, add_hash_data, add_svg_data, comm_frame, first_frame, append_frame,
  has_number, hash_frame,
}
use py_mammotion.HashList.Store.{
  HashList, Plan, MowPath, EdgePoints, AreaHashNameList, PathType, value, area_type, svg_value,
  dynamics_line_value, bucket, set_bucket, path_type_of,
}
use py_mammotion.HashList.Update.{hashlist, prune}

-- `_add_hash_data` on the dictionary of one type.
unfoldable pub add_typed : PathType → HashList → NavGetCommData → HashList × Bool
add_typed p h d = let (m, new) = add_hash_data (bucket p h) d in (set_bucket p m h, new)

abbrev pub unknown_bucket : HashList → ℕ → Dict ℕ FrameList
unknown_bucket h t = elim (lookup t h.unknown_type_frames) [ none ↦ [] | some m ↦ m ]

unfoldable pub add_unknown : HashList → NavGetCommData → HashList × Bool
add_unknown h d =
    let (m, new) = add_hash_data (unknown_bucket h d.type) d in
    (record h { unknown_type_frames = insert d.type m h.unknown_type_frames }, new)

unfoldable pub add_area : HashList → NavGetCommData → HashList × Bool
unfolding add_typed
add_area h d = let (h', new) = add_typed area_type h d in (prune (hashlist h') h', new)

unfoldable pub add_dynamics_line : HashList → NavGetCommData → HashList × Bool
add_dynamics_line h d =
    let line = if d.current_frame == 1 then [] else h.dynamics_line in
    (record h { dynamics_line = line ++ d.data_couple }, true)

-- `update(hash_data)` of a `NavGetCommData`.
unfoldable pub update_comm : HashList → NavGetCommData → HashList × Bool
update_comm h d =
    if d.type == value area_type
    then add_area h d
    else if d.type == dynamics_line_value
    then add_dynamics_line h d
    else if d.type == svg_value
    then (h, false)
    else elim (path_type_of d.type) [ some p ↦ add_typed p h d | none ↦ add_unknown h d ]

-- `update(hash_data)` of an `SvgMessage`.
unfoldable pub update_svg : HashList → SvgMessage → HashList × Bool
update_svg h d = let (m, new) = add_svg_data h.svg d in (record h { svg = m }, new)

replace_frame : NavGetHashListData → List NavGetHashListData → List NavGetHashListData
replace_frame d [] = d ∷ []
replace_frame d (x ∷ xs) =
    if x.current_frame == d.current_frame then d ∷ xs else x ∷ replace_frame d xs

abbrev pub matches : NavGetHashListData → RootHashList → Bool
matches d rl = rl.total_frame == d.total_frame && rl.sub_cmd == d.sub_cmd

-- The first matching list takes the frame; with no match a new list goes to the end.
unfoldable pub upsert_root : NavGetHashListData → List RootHashList → List RootHashList
unfolding replace_frame
upsert_root d [] = record { total_frame = d.total_frame; sub_cmd = d.sub_cmd; data' = d ∷ [] } ∷ []
upsert_root d (rl ∷ rls) =
    if matches d rl
    then record rl { data' = replace_frame d rl.data' } ∷ rls
    else rl ∷ upsert_root d rls

unfoldable pub update_root_hash_list : HashList → NavGetHashListData → HashList
unfolding upsert_root
update_root_hash_list h d = record h { root_hash_lists = upsert_root d h.root_hash_lists }

upsert_name : ℕ → String → List AreaHashNameList → List AreaHashNameList
upsert_name id name [] = record { name = name; hash = id } ∷ []
upsert_name id name (a ∷ rest) =
    if a.hash == id then record a { name = name } ∷ rest else a ∷ upsert_name id name rest

unfoldable pub upsert_area_name : HashList → ℕ → String → HashList
unfolding upsert_name
upsert_area_name h id name = record h { area_name = upsert_name id name h.area_name }

unfoldable pub update_plan : HashList → Plan → HashList
update_plan h p = if p.total_plan_num == 0 then h else record h { plan = insert p.plan_id p h.plan }

unfoldable pub update_dynamics_line : HashList → List CommDataCouple → HashList
update_dynamics_line h points = record h { dynamics_line = points }

unfoldable pub update_mow_path : HashList → MowPath → HashList
update_mow_path h p =
    let frames : Dict ℕ MowPath = elim (lookup p.transaction_id h.current_mow_path) [
      | none ↦ []
      | some m ↦ m
    ] in
    record h {
      current_mow_path =
          insert p.transaction_id (insert p.current_frame p frames) h.current_mow_path;
    }

unfoldable pub upsert_edge_frame : HashList → ℕ → ℕ → ℕ → ℕ → ℕ → List CommDataCouple → HashList
upsert_edge_frame h key action type total current points =
    let edge : EdgePoints = elim (lookup key h.edge_points) [
      | none ↦ record { hash = key; action = action; type = type; total_frame = total; frames = [] }
      | some e ↦ record e { total_frame = total }
    ] in
    record h {
      edge_points =
          insert key (record edge { frames = insert current points edge.frames }) h.edge_points;
    }

-- `[h for h, frame in target.items() if self.find_missing_frames(frame)]`
incomplete_keys : Dict ℕ FrameList → List ℕ
incomplete_keys [] = []
incomplete_keys ((id, fl) ∷ m) =
    let rest = incomplete_keys m in
    if is_empty (find_missing_frames (some fl)) then rest else id ∷ rest

-- `for hash_id in ids: del target[hash_id]`
erase_keys : List ℕ → Dict ℕ FrameList → Dict ℕ FrameList
erase_keys [] m = m
erase_keys (id ∷ ids) m = erase_keys ids (erase id m)

unfoldable pub drop_incomplete_frames : HashList → HashList
unfolding incomplete_keys erase_keys
drop_incomplete_frames h = record h {
  area = erase_keys (incomplete_keys h.area) h.area;
  path = erase_keys (incomplete_keys h.path) h.path;
  obstacle = erase_keys (incomplete_keys h.obstacle) h.obstacle;
}

-- The cached GeoJSON that is cleared with the path is not part of the model's state.
unfoldable pub invalidate_mow_path : HashList → ℕ → HashList
invalidate_mow_path h path_hash =
    if path_hash == 0 then record h { current_mow_path = []; last_ub_path_hash = 0 } else h

unfoldable pub invalidate_breakpoint_line : HashList → ℕ → HashList × Bool
invalidate_breakpoint_line h id =
    if id == 0
    then (record h { line = [] }, false)
    else (let line = restrict (λ k. k == id) h.line in
        (record h { line = line }, not (contains id line)))
