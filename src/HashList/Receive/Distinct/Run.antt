-- ===== src/HashList/Receive/Distinct/Run.antt =====
-- The invariant over any sequence of operations on the store.
use py_mammotion.Base.{
  ℕ, ◌≡◌, refl, Bool, true, false, Option, none, some, List, [], ◌∷◌, ◌++◌, map, arith, ◌==◌,
  nat_keys, eqb_iff, if◌then◌else◌, filter, elem, nodup, Bool-cases, inl, inr, All,
}
use py_mammotion.Base.Dict.{Dict, erase, lookup-erase, Each}
use py_mammotion.HashList.Frames.{
  FrameList, RootHashList, NavGetCommData, SvgMessage, NavGetHashListData, numbers, comm_frame,
  svg_frame, hash_frame,
}
use py_mammotion.HashList.Frames.Adding.{IsDistinct, add_svg_data-IsDistinct, nodup-append_one}
use py_mammotion.HashList.Store.{
  HashList, PathType, area_type, path_type, obstacle_type, bucket, path_type_of,
}
use py_mammotion.HashList.Update.{invalidate_maps, computed_bol_hash}
use py_mammotion.HashList.Receive.{
  add_typed, add_unknown, add_area, add_dynamics_line, update_comm, update_svg, upsert_root,
  replace_frame, matches, update_root_hash_list, incomplete_keys, erase_keys,
  drop_incomplete_frames,
}
use py_mammotion.HashList.Receive.Distinct.{
  IsDistinctStore, bucket_of_rest, prune-IsDistinctStore, add_typed-IsDistinctStore,
  add_unknown-IsDistinctStore,
}

numbers-replace_frame :
    (d : NavGetHashListData) (xs : List NavGetHashListData)
    → map (λ x. x.current_frame) (replace_frame d xs) ≡ (
        if elem d.current_frame (map (λ x. x.current_frame) xs)
        then map (λ x. x.current_frame) xs
        else map (λ x. x.current_frame) xs ++ d.current_frame ∷ [])
unfolding replace_frame elem
numbers-replace_frame d [] = refl
numbers-replace_frame d (x ∷ xs) =
    ground (arith, numbers-replace_frame d xs, eqb_iff x.current_frame d.current_frame)

replace_frame-IsDistinct :
    (d : NavGetHashListData) (rl : RootHashList)
    → IsDistinct rl
    → IsDistinct (record rl { data' = replace_frame d rl.data' })
replace_frame-IsDistinct d rl w = elim (Bool-cases (elem d.current_frame (numbers rl))) [
  | inl old ↦ rw (numbers-replace_frame d rl.data', old) w
  | inr new ↦
      rw (numbers-replace_frame d rl.data', new)
        (nodup-append_one (numbers rl) d.current_frame new w)
]

upsert_root-IsDistinct :
    (d : NavGetHashListData) (rls : List RootHashList)
    → All IsDistinct rls
    → All IsDistinct (upsert_root d rls)
unfolding upsert_root nodup elem
upsert_root-IsDistinct d [] w = (refl, tt)
upsert_root-IsDistinct d (rl ∷ rls) w = elim (Bool-cases (matches d rl)) [
  | inl e ↦ rw e (replace_frame-IsDistinct d rl w.0, w.1)
  | inr e ↦ rw e (w.0, upsert_root-IsDistinct d rls w.1)
]

All-filter :
    (p : RootHashList → Bool) (rls : List RootHashList)
    → All IsDistinct rls
    → All IsDistinct (filter p rls)
unfolding filter
All-filter p [] w = tt
All-filter p (rl ∷ rls) w = elim (Bool-cases (p rl)) [
  | inl e ↦ rw e (w.0, All-filter p rls w.1)
  | inr e ↦ rw e (All-filter p rls w.1)
]

erase_keys-Each :
    (ids : List ℕ) (m : Dict ℕ FrameList) → Each IsDistinct m → Each IsDistinct (erase_keys ids m)
unfolding erase_keys
erase_keys-Each [] m w = w
erase_keys-Each (id ∷ ids) m w =
    erase_keys-Each ids (erase id m) (λ k fl q. w k fl (ground (arith, lookup-erase id k m)))

add_dynamics_line-IsDistinctStore :
    (h : HashList) (d : NavGetCommData)
    → IsDistinctStore h
    → IsDistinctStore (add_dynamics_line h d).0
unfolding add_dynamics_line
add_dynamics_line-IsDistinctStore h d w = record {
  typed = λ p. rw (bucket_of_rest p h h.root_hash_lists h.svg _ h.unknown_type_frames) (w.typed p);
  tiles = w.tiles;
  unknown = w.unknown;
  roots = w.roots;
}

if-Store :
    (b : Bool) (x y : HashList × Bool)
    → IsDistinctStore x.0
    → IsDistinctStore y.0
    → IsDistinctStore (if b then x else y).0
if-Store true x y wx wy = wx
if-Store false x y wx wy = wy

add_other-IsDistinctStore :
    (h : HashList) (d : NavGetCommData) (o : Option PathType)
    → IsDistinctStore h
    → IsDistinctStore
        (elim o as (λ _. HashList × Bool) [ some p ↦ add_typed p h d | none ↦ add_unknown h d ]).0
add_other-IsDistinctStore h d none w = add_unknown-IsDistinctStore h d w
add_other-IsDistinctStore h d (some p) w = add_typed-IsDistinctStore p h d w

update_comm-IsDistinctStore :
    (h : HashList) (d : NavGetCommData) → IsDistinctStore h → IsDistinctStore (update_comm h d).0
unfolding update_comm add_area
update_comm-IsDistinctStore h d w =
    if-Store _ _ _ (prune-IsDistinctStore _ _ (add_typed-IsDistinctStore area_type h d w)) (
      if-Store _ _ _ (add_dynamics_line-IsDistinctStore h d w)
        (if-Store _ _ _ w (add_other-IsDistinctStore h d (path_type_of d.type) w)))

with_roots-IsDistinctStore :
    (h : HashList) (rls : List RootHashList)
    → All IsDistinct rls
    → IsDistinctStore h
    → IsDistinctStore (record h { root_hash_lists = rls })
with_roots-IsDistinctStore h rls wr w = record {
  typed = λ p. rw (bucket_of_rest p h rls h.svg h.dynamics_line h.unknown_type_frames) (w.typed p);
  tiles = w.tiles;
  unknown = w.unknown;
  roots = wr;
}

-- What can happen to the store: frames arrive, a `bol_hash` is reported, incomplete entries are
-- dropped.
pub data Op : Type 0 where
  comm : NavGetCommData → Op
  svg : SvgMessage → Op
  root : NavGetHashListData → Op
  invalidate : Option ℕ → Op
  drop_incomplete : Op

abbrev pub apply : HashList → Op → HashList
apply h (comm d) = (update_comm h d).0
apply h (svg d) = (update_svg h d).0
apply h (root d) = update_root_hash_list h d
apply h (invalidate b) = invalidate_maps h b
apply h drop_incomplete = drop_incomplete_frames h

pub run : HashList → List Op → HashList
run h [] = h
run h (op ∷ ops) = run (apply h op) ops

invalidate_maps-IsDistinctStore :
    (h : HashList) (b : Option ℕ) → IsDistinctStore h → IsDistinctStore (invalidate_maps h b)
unfolding invalidate_maps
invalidate_maps-IsDistinctStore h none w = w
invalidate_maps-IsDistinctStore h (some b) w = elim (Bool-cases (computed_bol_hash h == b)) [
  | inl e ↦ rw e w
  | inr e ↦ rw e (
      prune-IsDistinctStore _ _
        (with_roots-IsDistinctStore h _ (All-filter _ h.root_hash_lists w.roots) w))
]

drop_incomplete-typed :
    (h : HashList) (p : PathType)
    → IsDistinctStore h
    → Each IsDistinct (bucket p (drop_incomplete_frames h))
unfolding drop_incomplete_frames bucket
drop_incomplete-typed h area_type w =
    erase_keys-Each (incomplete_keys h.area) h.area (w.typed area_type)
drop_incomplete-typed h path_type w =
    erase_keys-Each (incomplete_keys h.path) h.path (w.typed path_type)
drop_incomplete-typed h obstacle_type w =
    erase_keys-Each (incomplete_keys h.obstacle) h.obstacle (w.typed obstacle_type)
drop_incomplete-typed h p w = w.typed p

apply-IsDistinctStore : (h : HashList) (op : Op) → IsDistinctStore h → IsDistinctStore (apply h op)
unfolding update_svg update_root_hash_list drop_incomplete_frames
apply-IsDistinctStore h (comm d) w = update_comm-IsDistinctStore h d w
apply-IsDistinctStore h (svg d) w = record {
  typed = λ p.
      rw (bucket_of_rest p h h.root_hash_lists _ h.dynamics_line h.unknown_type_frames) (w.typed p);
  tiles = add_svg_data-IsDistinct h.svg d w.tiles;
  unknown = w.unknown;
  roots = w.roots;
}
apply-IsDistinctStore h (root d) w =
    with_roots-IsDistinctStore h _ (upsert_root-IsDistinct d h.root_hash_lists w.roots) w
apply-IsDistinctStore h (invalidate b) w = invalidate_maps-IsDistinctStore h b w
apply-IsDistinctStore h drop_incomplete w = record {
  typed = λ p. drop_incomplete-typed h p w;
  tiles = w.tiles;
  unknown = w.unknown;
  roots = w.roots;
}

-- From a store in which no frame list holds two frames with one number, any sequence of comm-data
-- frames, tiles, manifest frames, invalidations by bol_hash and drops of incomplete frames leads to
-- such a store: under every known type, every unknown type, the tiles and the manifest.
pub run-IsDistinctStore :
    (h : HashList) (ops : List Op) → IsDistinctStore h → IsDistinctStore (run h ops)
unfolding run
run-IsDistinctStore h [] w = w
run-IsDistinctStore h (op ∷ ops) w =
    run-IsDistinctStore (apply h op) ops (apply-IsDistinctStore h op w)
