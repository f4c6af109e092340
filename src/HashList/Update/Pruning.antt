-- ===== src/HashList/Update/Pruning.antt =====
-- What pruning by the manifest and invalidation by `bol_hash` keep.
use py_mammotion.Base.{
  ℕ, ◌≡◌, refl, ◌≢◌, Bool, true, false, ◌||◌, not, none, some, List, [], ◌∷◌, arith, ◌==◌, nat_keys,
  eqb_iff, if◌then◌else◌, filter, elem, is_empty, Bool-cases, inl, inr,
}
use py_mammotion.Base.Dict.{lookup, lookup-restrict}
use py_mammotion.HashList.Frames.{RootHashList}
use py_mammotion.HashList.Store.{
  HashList, PathType, bucket, area_type, transfer_zone_type, line_type, no_go_zone_variant_type,
  no_go_zone_type,
}
use py_mammotion.HashList.Update.{
  flat_map, area_root_hashlist, computed_bol_hash, prune, invalidate_maps,
}

-- `update_hash_lists` has no line for these four.
abbrev pub is_pruned : PathType → Bool
is_pruned transfer_zone_type = false
is_pruned line_type = false
is_pruned no_go_zone_variant_type = false
is_pruned no_go_zone_type = false
is_pruned _ = true

-- After pruning by a list of hash IDs, a frame dictionary answers for a listed ID as before and for
-- any other with none, except that those of transfer zones, lines and both kinds of no-go zone, and
-- all of them if the list is empty, answer as before.
pub lookup-bucket-prune :
    (p : PathType) (hashes : List ℕ) (h : HashList) (id : ℕ)
    → lookup id (bucket p (prune hashes h)) ≡ (
        if is_empty hashes || not (is_pruned p) || elem id hashes
        then lookup id (bucket p h)
        else none)
unfolding prune bucket
lookup-bucket-prune area_type [] h id = refl
lookup-bucket-prune _ [] h id = refl
lookup-bucket-prune transfer_zone_type (x ∷ xs) h id = refl
lookup-bucket-prune line_type (x ∷ xs) h id = refl
lookup-bucket-prune no_go_zone_variant_type (x ∷ xs) h id = refl
lookup-bucket-prune no_go_zone_type (x ∷ xs) h id = refl
lookup-bucket-prune _ (x ∷ xs) h id = lookup-restrict (λ i. elem i (x ∷ xs)) id _

pub root_hash_lists-prune :
    (hashes : List ℕ) (h : HashList) → (prune hashes h).root_hash_lists ≡ h.root_hash_lists
unfolding prune
root_hash_lists-prune [] h = refl
root_hash_lists-prune (x ∷ xs) h = refl

abbrev pub without_areas : List RootHashList → List RootHashList
without_areas = filter (λ rl. not (rl.sub_cmd == 0))

areas-without_areas :
    (rls : List RootHashList) → filter (λ rl. rl.sub_cmd == 0) (without_areas rls) ≡ []
unfolding filter
areas-without_areas [] = refl
areas-without_areas (rl ∷ rls) = ground (arith, areas-without_areas rls)

pub others-without_areas :
    (s : ℕ) (rls : List RootHashList)
    → s ≢ 0
    → filter (λ rl. rl.sub_cmd == s) (without_areas rls) ≡ filter (λ rl. rl.sub_cmd == s) rls
unfolding filter
others-without_areas s [] n = refl
others-without_areas s (rl ∷ rls) n = ground (arith, others-without_areas s rls n)

pub root_hash_lists-invalidate_maps :
    (h : HashList) (bol_hash : ℕ)
    → (invalidate_maps h (some bol_hash)).root_hash_lists ≡ (
        if computed_bol_hash h == bol_hash
        then h.root_hash_lists
        else without_areas h.root_hash_lists)
unfolding invalidate_maps
root_hash_lists-invalidate_maps h b = elim (Bool-cases (computed_bol_hash h == b)) [
  | inl e ↦ rw e
  | inr e ↦ rw e (root_hash_lists-prune _ _)
]

-- `computed_bol_hash` reads the manifest alone.
computed_bol_hash-empty :
    (h : HashList) → filter (λ rl. rl.sub_cmd == 0) h.root_hash_lists ≡ [] → computed_bol_hash h ≡ 0
unfolding computed_bol_hash area_root_hashlist flat_map filter
computed_bol_hash-empty h e = rw e

-- If the hash that a map computes from its manifest differs from the reported bol_hash, then after
-- invalidate_maps the computed hash is 0, and for every sub_cmd but 0 the manifest is unchanged.
pub invalidate_maps-stale :
    (h : HashList) (bol_hash s : ℕ)
    → computed_bol_hash h ≢ bol_hash
    → s ≢ 0
    → (computed_bol_hash (invalidate_maps h (some bol_hash)) ≡ 0)
      × (filter (λ rl. rl.sub_cmd == s) (invalidate_maps h (some bol_hash)).root_hash_lists
          ≡ filter (λ rl. rl.sub_cmd == s) h.root_hash_lists)
invalidate_maps-stale h b s stale n = (
  computed_bol_hash-empty _ (rw kept (areas-without_areas h.root_hash_lists)),
  rw kept (others-without_areas s h.root_hash_lists n),
)
  where
    kept : (invalidate_maps h (some b)).root_hash_lists ≡ without_areas h.root_hash_lists
    kept = ground (arith, root_hash_lists-invalidate_maps h b, eqb_iff (computed_bol_hash h) b)
