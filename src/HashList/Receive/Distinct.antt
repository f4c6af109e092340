-- ===== src/HashList/Receive/Distinct.antt =====
-- The numbers of the frames in the lists of the store, through each operation that stores a frame.
pub mod Run
use py_mammotion.Base.{
  ℕ, ◌≡◌, refl, subst, sym, Bool, true, false, not, Option, none, some, List, [], ◌∷◌, ◌++◌, map,
  arith, ◌==◌, nat_keys, eqb_iff, if◌then◌else◌, filter, elem, nodup, is_empty, ◌||◌, Bool-cases,
  Option-cases, inl, inr, All,
}
use py_mammotion.Base.Dict.{
  Dict, lookup, insert, restrict, Each, Each-nil, Each-insert, Each-restrict, lookup-restrict,
}
use py_mammotion.HashList.Frames.{
  CommDataCouple, Frames, FrameList, SvgFrameList, RootHashList, NavGetCommData, SvgMessage,
  NavGetHashListData, numbers, comm_frame, svg_frame, hash_frame, add_hash_data, add_svg_data,
  find_missing_frames, first_frame, append_frame, has_number,
}
use py_mammotion.HashList.Frames.Adding.{
  IsDistinct, add_hash_data-IsDistinct, append_frame-IsDistinct, nodup-append_one,
}
use py_mammotion.HashList.Store.{
  HashList, PathType, value, area_type, bucket, set_bucket, path_type_of,
}
use py_mammotion.HashList.Update.{prune, hashlist, invalidate_maps, computed_bol_hash}
use py_mammotion.HashList.Update.Pruning.{lookup-bucket-prune, is_pruned}
use py_mammotion.HashList.Receive.{
  add_typed, add_unknown, add_area, add_dynamics_line, update_comm, update_svg, upsert_root,
  replace_frame, matches, update_root_hash_list, drop_incomplete_frames, invalidate_breakpoint_line,
  unknown_bucket,
}

pub record IsDistinctStore (h : HashList) : Type 0 where
  pub typed : (p : PathType) → Each IsDistinct (bucket p h)
  pub tiles : Each IsDistinct h.svg
  pub unknown : Each (Each IsDistinct) h.unknown_type_frames
  pub roots : All IsDistinct h.root_hash_lists

bucket-set_bucket :
    (p q : PathType) (d : Dict ℕ FrameList) (h : HashList)
    → bucket p (set_bucket q d h) ≡ (if value p == value q then d else bucket p h)
unfolding bucket set_bucket
bucket-set_bucket area_type q d h = ground arith
bucket-set_bucket _ q d h = ground arith

Each-set_bucket :
    (q : PathType) (d : Dict ℕ FrameList) (h : HashList)
    → Each IsDistinct d
    → ((p : PathType) → Each IsDistinct (bucket p h))
    → (p : PathType) → Each IsDistinct (bucket p (set_bucket q d h))
Each-set_bucket q d h wd wh p = elim (Bool-cases (value p == value q)) [
  | inl e ↦ rw (bucket-set_bucket p q d h, e) wd
  | inr e ↦ rw (bucket-set_bucket p q d h, e) (wh p)
]

-- The per-type dictionaries are apart from the manifest, the tiles, the live path and the frames of
-- unknown type.
pub bucket_of_rest :
    (p : PathType) (h : HashList) (roots : List RootHashList) (tiles : Dict ℕ SvgFrameList)
    (points : List CommDataCouple) (unknown : Dict ℕ (Dict ℕ FrameList))
    → bucket p (record h {
      root_hash_lists = roots;
      svg = tiles;
      dynamics_line = points;
      unknown_type_frames = unknown;
    })
      ≡ bucket p h
unfolding bucket
bucket_of_rest area_type h r t l u = refl
bucket_of_rest _ h r t l u = refl

set_bucket_rest :
    (q : PathType) (d : Dict ℕ FrameList) (h : HashList)
    → ((set_bucket q d h).svg ≡ h.svg)
      × ((set_bucket q d h).unknown_type_frames ≡ h.unknown_type_frames)
      × ((set_bucket q d h).root_hash_lists ≡ h.root_hash_lists)
unfolding set_bucket
set_bucket_rest area_type d h = (refl, refl, refl)
set_bucket_rest _ d h = (refl, refl, refl)

set_bucket-IsDistinctStore :
    (q : PathType) (d : Dict ℕ FrameList) (h : HashList)
    → Each IsDistinct d
    → IsDistinctStore h
    → IsDistinctStore (set_bucket q d h)
set_bucket-IsDistinctStore q d h wd w = record {
  typed = Each-set_bucket q d h wd w.typed;
  tiles = rw (set_bucket_rest q d h).0 w.tiles;
  unknown = rw (set_bucket_rest q d h).1 w.unknown;
  roots = rw (set_bucket_rest q d h).2 w.roots;
}

pub prune-IsDistinctStore :
    (hashes : List ℕ) (h : HashList) → IsDistinctStore h → IsDistinctStore (prune hashes h)
unfolding prune
prune-IsDistinctStore [] h w = w
prune-IsDistinctStore (x ∷ xs) h w = record {
  typed = λ p id fl q. w.typed p id fl (ground (arith, lookup-bucket-prune p (x ∷ xs) h id));
  tiles = Each-restrict IsDistinct _ h.svg w.tiles;
  unknown = Each-restrict (Each IsDistinct) _ h.unknown_type_frames w.unknown;
  roots = w.roots;
}

pub add_typed-IsDistinctStore :
    (p : PathType) (h : HashList) (d : NavGetCommData)
    → IsDistinctStore h
    → IsDistinctStore (add_typed p h d).0
unfolding add_typed
add_typed-IsDistinctStore p h d w =
    set_bucket-IsDistinctStore p _ h (add_hash_data-IsDistinct (bucket p h) d (w.typed p)) w

unknown_bucket-IsDistinct :
    (h : HashList) (t : ℕ) → IsDistinctStore h → Each IsDistinct (unknown_bucket h t)
unknown_bucket-IsDistinct h t w = go (lookup t h.unknown_type_frames) refl
  where
    go :
        (o : Option (Dict ℕ FrameList))
        → lookup t h.unknown_type_frames ≡ o
        → Each IsDistinct (unknown_bucket h t)
    go none e = rw (e, unknown_bucket) (Each-nil IsDistinct)
    go (some m) e = rw (e, unknown_bucket) (w.unknown t m e)

pub add_unknown-IsDistinctStore :
    (h : HashList) (d : NavGetCommData) → IsDistinctStore h → IsDistinctStore (add_unknown h d).0
unfolding add_unknown
add_unknown-IsDistinctStore h d w = record {
  typed = λ p. rw (bucket_of_rest p h h.root_hash_lists h.svg h.dynamics_line _) (w.typed p);
  tiles = w.tiles;
  unknown =
      Each-insert (Each IsDistinct) d.type _ h.unknown_type_frames
        (add_hash_data-IsDistinct _ d (unknown_bucket-IsDistinct h d.type w)) w.unknown;
  roots = w.roots;
}
