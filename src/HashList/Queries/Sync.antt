-- ===== src/HashList/Queries/Sync.antt =====
-- What the store holds of the declared hash IDs when `find_incomplete_hashes` is empty.
use py_mammotion.Base.{
  ℕ, ◌≡◌, refl, ap, ◌≢◌, ◌⊎◌, true, false, ◌&&◌, not, Option, none, some, List, [], ◌∷◌, arith,
  ◌==◌, nat_keys, eqb_iff, elem, elem-filter, In, here, there, is_empty, any, Bool-cases, inl, inr,
}
use py_mammotion.Base.Dict.{Dict, lookup, insert, contains, values, lookup-insert}
use py_mammotion.HashList.Frames.{FrameList, find_missing_frames, comm_frame, svg_frame}
use py_mammotion.HashList.Store.{HashList, PathType, bucket, line_type, path_types}
use py_mammotion.HashList.Update.{computed_bol_hash}
use py_mammotion.HashList.Queries.{
  declared, entries, tiles, write_all, write_type, write_types, set_defaults, default_unknown,
  is_incomplete, find_incomplete_hashes, entry_incomplete, tile_incomplete, is_map_synced,
}

-- A frame list that the store holds for a hash ID, under a known type other than lines or under
-- an unknown one.
pub data HeldBy (h : HashList) (id : ℕ) (fl : FrameList) : Type 0 where
  known : (p : PathType) → p ≢ line_type → In (id, fl) (bucket p h) → HeldBy h id fl
  unknown :
      (m : Dict ℕ FrameList) → In m (values h.unknown_type_frames) → In (id, fl) m → HeldBy h id fl

-- The hash ID has complete frames, or complete tiles and no frames; no tile of it is partial.
pub data Fetched (h : HashList) (id : ℕ) : Type 0 where
  by_frames :
      (fl : FrameList)
      → HeldBy h id fl
      → find_missing_frames (some fl) ≡ []
      → any tile_incomplete (tiles h 0 id) ≡ false
      → Fetched h id
  by_tiles :
      is_empty (tiles h 0 id) ≡ false → any tile_incomplete (tiles h 0 id) ≡ false → Fetched h id

module _ (id : ℕ) (fl : FrameList) where
  after_insert :
      (k : ℕ) (v : FrameList) (found : Dict ℕ FrameList)
      → lookup id (insert k v found) ≡ some fl
      → ◌≡◌ {A = ℕ × FrameList} (id, fl) (k, v) ⊎ (lookup id found ≡ some fl)
  after_insert k v found q = ground (arith, lookup-insert k id v found, eqb_iff k id)

  lookup-write_all :
      (target found : Dict ℕ FrameList)
      → lookup id (write_all target found) ≡ some fl
      → In (id, fl) target ⊎ (lookup id found ≡ some fl)
  unfolding write_all
  lookup-write_all [] found q = inr q
  lookup-write_all ((k, v) ∷ target) found q = elim (lookup-write_all target (insert k v found) q) [
    | inl i ↦ inl (there i)
    | inr r ↦ elim (after_insert k v found r) [ inl e ↦ inl (here e) | inr r' ↦ inr r' ]
  ]

  lookup-set_defaults :
      (target found : Dict ℕ FrameList)
      → lookup id (set_defaults target found) ≡ some fl
      → In (id, fl) target ⊎ (lookup id found ≡ some fl)
  unfolding set_defaults
  lookup-set_defaults [] found q = inr q
  lookup-set_defaults ((k, v) ∷ target) found q = elim (Bool-cases (contains k found)) [
    | inl old ↦ elim (lookup-set_defaults target found (rw old at q)) [
      | inl i ↦ inl (there i)
      | inr r ↦ inr r
    ]
    | inr new ↦ elim (lookup-set_defaults target (insert k v found) (rw new at q)) [
      | inl i ↦ inl (there i)
      | inr r ↦ elim (after_insert k v found r) [ inl e ↦ inl (here e) | inr r' ↦ inr r' ]
    ]
  ]

module _ (h : HashList) (id : ℕ) (fl : FrameList) where
  lookup-write_type :
      (p : PathType) (found : Dict ℕ FrameList)
      → lookup id (write_type h p found) ≡ some fl
      → HeldBy h id fl ⊎ (lookup id found ≡ some fl)
  unfolding write_type
  lookup-write_type line_type found q = inr q
  lookup-write_type p found q = elim (lookup-write_all id fl (bucket p h) found q) [
    | inl i ↦ inl (known p (λ e. absurd (cc e)) i)
    | inr r ↦ inr r
  ]

  lookup-write_types :
      (ps : List PathType) (found : Dict ℕ FrameList)
      → lookup id (write_types h ps found) ≡ some fl
      → HeldBy h id fl ⊎ (lookup id found ≡ some fl)
  unfolding write_types
  lookup-write_types [] found q = inr q
  lookup-write_types (p ∷ ps) found q = elim (lookup-write_types ps (write_type h p found) q) [
    | inl held ↦ inl held
    | inr r ↦ lookup-write_type p found r
  ]

  lookup-default_unknown :
      (ms : List (Dict ℕ FrameList)) (found : Dict ℕ FrameList)
      → ((m : Dict ℕ FrameList) → In m ms → In m (values h.unknown_type_frames))
      → lookup id (default_unknown ms found) ≡ some fl
      → HeldBy h id fl ⊎ (lookup id found ≡ some fl)
  unfolding default_unknown
  lookup-default_unknown [] found sub q = inr q
  lookup-default_unknown (m ∷ ms) found sub q =
      elim (lookup-default_unknown ms (set_defaults m found) (λ m' i. sub m' (there i)) q) [
        | inl held ↦ inl held
        | inr r ↦ elim (lookup-set_defaults id fl m found r) [
          | inl i ↦ inl (unknown m (sub m (here refl)) i)
          | inr r' ↦ inr r'
        ]
      ]

  lookup-entries : lookup id (entries h 0) ≡ some fl → HeldBy h id fl
  unfolding entries lookup
  lookup-entries q = elim (lookup-default_unknown (values h.unknown_type_frames) _ (λ m i. i) q) [
    | inl held ↦ held
    | inr r ↦ elim (lookup-write_types path_types [] r) [
      | inl held ↦ held
      | inr r' ↦ absurd (cc r')
    ]
  ]

Fetched-of_complete :
    (h : HashList) (id : ℕ) (o : Option FrameList)
    → lookup id (entries h 0) ≡ o
    → entry_incomplete o (tiles h 0 id) ≡ false
    → Fetched h id
Fetched-of_complete h id none e c = by_tiles (ground arith) (ground arith)
Fetched-of_complete h id (some fl) e c =
    by_frames fl (lookup-entries h id fl e) (ground arith) (ground arith)

not_incomplete :
    (h : HashList) (id : ℕ)
    → elem id (find_incomplete_hashes h 0) ≡ false
    → id ≢ 0
    → elem id (declared h 0) ≡ true
    → is_incomplete h 0 id ≡ false
unfolding find_incomplete_hashes
not_incomplete h id none_left n d =
    ground (
      arith,
      elem-filter (λ i. not (i == 0) && is_incomplete h 0 i) id (declared h 0),
      eqb_iff id 0,
    )

-- A declared hash ID that find_incomplete_hashes does not report is fetched.
pub unreported-Fetched :
    (h : HashList) (id : ℕ)
    → elem id (find_incomplete_hashes h 0) ≡ false
    → id ≢ 0
    → elem id (declared h 0) ≡ true
    → Fetched h id
unfolding is_incomplete
unreported-Fetched h id out n d = Fetched-of_complete h id _ refl (not_incomplete h id out n d)

-- If find_incomplete_hashes reports nothing for sub_cmd 0, every non-zero hash ID that the area
-- manifest declares has complete frames under some type other than lines, or tiles, and no partial
-- tile.
pub find_incomplete_hashes-Fetched :
    (h : HashList) (id : ℕ)
    → find_incomplete_hashes h 0 ≡ []
    → id ≢ 0
    → elem id (declared h 0) ≡ true
    → Fetched h id
unfolding elem
find_incomplete_hashes-Fetched h id none_left n d =
    unreported-Fetched h id (ap (elem id) none_left) n d

-- If is_map_synced accepts a map for a bol_hash, the hash that the map computes from its own
-- manifest is that bol_hash, and every non-zero hash ID that the area manifest declares has been
-- fetched: a frame list of it is held under a known type other than lines or an unknown one and
-- misses no frame, or it has tiles; and no tile of it is partial.
pub is_map_synced-Fetched :
    (h : HashList) (bol_hash id : ℕ)
    → is_map_synced h bol_hash ≡ true
    → id ≢ 0
    → elem id (declared h 0) ≡ true
    → (computed_bol_hash h ≡ bol_hash) × Fetched h id
unfolding is_map_synced
is_map_synced-Fetched h b id synced n d = (
  ground (arith, eqb_iff (computed_bol_hash h) b),
  find_incomplete_hashes-Fetched h id (ground arith) n d,
)
