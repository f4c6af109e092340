-- ===== src/HashList/Update.antt =====
-- pymammotion/data/model/hash_list.py, class `HashList`: the operations that change the store.
pub mod Pruning
use py_mammotion.Base.{
  ℕ, ◌<◌, ◌+◌, String, Bool, true, false, ◌&&◌, not, Option, none, some, List, [], ◌∷◌, ◌++◌, map,
  ◌==◌, nat_keys, string_keys, if◌then◌else◌, filter, any, elem, is_empty, ltb,
}
use py_mammotion.Base.Dict.{Dict, keys, lookup, insert, erase, restrict, contains}
use py_mammotion.MurMurHash.{hash_unsigned_list}
use py_mammotion.HashList.Frames.{
  CommDataCouple, NavGetCommData, SvgMessage, NavGetHashListData, FrameList, RootHashList, Frames,
  find_missing_frames, add_hash_data, add_svg_data, comm_frame, has_number, hash_frame,
}
use py_mammotion.HashList.Store.{
  HashList, Plan, MowPath, EdgePoints, AreaHashNameList, PathType, value, svg_value,
  dynamics_line_value, bucket, set_bucket, path_type_of,
}

unfoldable pub flat_map : {A B : Type 0} → (A → List B) → List A → List B
flat_map f [] = []
flat_map f (a ∷ rest) = f a ++ flat_map f rest

-- Property `hashlist`.
unfoldable pub hashlist : HashList → List ℕ
unfolding flat_map
hashlist h = flat_map (λ rl. flat_map (λ obj. obj.data_couple) rl.data') h.root_hash_lists

insert_sorted : NavGetHashListData → List NavGetHashListData → List NavGetHashListData
insert_sorted d [] = d ∷ []
insert_sorted d (x ∷ xs) =
    if ltb d.current_frame x.current_frame then d ∷ x ∷ xs else x ∷ insert_sorted d xs

-- `sorted(data, key=lambda d: d.current_frame)`, a stable sort: insertion from the front.
sorted : List NavGetHashListData → List NavGetHashListData → List NavGetHashListData
unfolding insert_sorted
sorted acc [] = acc
sorted acc (d ∷ rest) = sorted (insert_sorted d acc) rest

unfoldable pub area_root_hashlist : HashList → List ℕ
unfolding flat_map sorted
area_root_hashlist h =
    flat_map (λ rl. flat_map (λ obj. obj.data_couple) (sorted [] rl.data'))
      (filter (λ rl. rl.sub_cmd == 0) h.root_hash_lists)

unfoldable pub computed_bol_hash : HashList → ℕ
computed_bol_hash h =
    let hashes = filter (λ i. not (i == 0)) (area_root_hashlist h) in
    if is_empty hashes then 0 else hash_unsigned_list hashes

-- The loop over the plans: a plan is popped once one of its zones is not an area.
drop_plans : List ℕ → Dict String Plan → Dict String Plan
drop_plans areas [] = []
drop_plans areas ((id, p) ∷ plans) =
    let rest = drop_plans areas plans in
    if any (λ zone. not (elem zone areas)) p.zone_hashs then rest else (id, p) ∷ rest

abbrev pub keep_listed : {V : Type 0} → List ℕ → Dict ℕ V → Dict ℕ V
keep_listed hashes = restrict (λ id. elem id hashes)

-- `update_hash_lists(hashlist)` without a `bol_hash`.
unfoldable pub prune : List ℕ → HashList → HashList
unfolding drop_plans
prune hashes h = if is_empty hashes then h else record h {
  area = keep_listed hashes h.area;
  path = keep_listed hashes h.path;
  obstacle = keep_listed hashes h.obstacle;
  dump = keep_listed hashes h.dump;
  svg = keep_listed hashes h.svg;
  visual_safety_zone = keep_listed hashes h.visual_safety_zone;
  visual_obstacle_zone = keep_listed hashes h.visual_obstacle_zone;
  corridor_line = keep_listed hashes h.corridor_line;
  corridor_point = keep_listed hashes h.corridor_point;
  virtual_wall = keep_listed hashes h.virtual_wall;
  unknown_type_frames =
      restrict (λ t. elim (path_type_of t) [ none ↦ true | some _ ↦ false ]) h.unknown_type_frames;
  plan = drop_plans (keys (keep_listed hashes h.area)) h.plan;
}

unfoldable pub invalidate_maps : HashList → Option ℕ → HashList
invalidate_maps h none = h
invalidate_maps h (some bol_hash) =
    if computed_bol_hash h == bol_hash
    then h
    else (let h' = record h {
      root_hash_lists = filter (λ rl. not (rl.sub_cmd == 0)) h.root_hash_lists;
    } in
        prune (hashlist h') h')

-- `update_hash_lists(hashlist, bol_hash)`
unfoldable pub update_hash_lists : HashList → List ℕ → Option ℕ → HashList
update_hash_lists h hashes bol_hash =
    if is_empty hashes then h else prune hashes (invalidate_maps h bol_hash)
