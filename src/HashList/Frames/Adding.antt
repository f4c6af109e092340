-- ===== src/HashList/Frames/Adding.antt =====
-- What `_add_hash_data` and `_add_svg_data` do to a dictionary of frame lists.
use py_mammotion.Base.{
  ℕ, ◌≡◌, refl, true, false, Option, none, some, List, [], ◌∷◌, ◌++◌, map, arith, nat_keys, ◌==◌,
  if◌then◌else◌, eqb_iff, any, elem, nodup, elem-append, Bool-cases, Option-cases, inl, inr,
}
use py_mammotion.Base.Dict.{Dict, lookup, insert, lookup-insert, Each, Each-insert}
use py_mammotion.HashList.Frames.{
  HasFrame, Frames, FrameList, SvgFrameList, NavGetCommData, SvgMessage, numbers, has_number,
  comm_eq, first_frame, append_frame, add_hash_data, add_svg_data, comm_frame, svg_frame,
}

abbrev pub IsDistinct : {A : Type 0} ⦃f : HasFrame A⦄ → Frames A → Type 0
IsDistinct fl = nodup (numbers fl) ≡ true

-- A frame whose number is there already is dropped; any other goes to the end.
abbrev pub with_frame : {A : Type 0} ⦃f : HasFrame A⦄ → A → Option (Frames A) → ℕ → Frames A
with_frame d none total = first_frame total d
with_frame ⦃f⦄ d (some fl) total =
    if has_number (f.frame_number d) fl.data' then fl else append_frame fl d

any_of_comm_eq :
    (d : NavGetCommData) (xs : List NavGetCommData)
    → any (comm_eq d) xs ≡ true
    → has_number d.current_frame xs ≡ true
unfolding any has_number comm_eq
any_of_comm_eq d [] h = cc
any_of_comm_eq d (x ∷ xs) h =
    ground (arith, any_of_comm_eq d xs, eqb_iff d.current_frame x.current_frame)

module _ {A : Type 0} ⦃f : HasFrame A⦄ where
  has_number-elem : (k : ℕ) (xs : List A) → has_number k xs ≡ elem k (map f.frame_number xs)
  unfolding has_number elem
  has_number-elem k [] = refl
  has_number-elem k (x ∷ xs) = ground (arith, has_number-elem k xs)

  map-append_one :
      (xs : List A) (d : A)
      → map f.frame_number (xs ++ d ∷ []) ≡ map f.frame_number xs ++ f.frame_number d ∷ []
  map-append_one [] d = refl
  map-append_one (x ∷ xs) d = rw (map-append_one xs d)

pub nodup-append_one :
    (xs : List ℕ) (k : ℕ) → elem k xs ≡ false → nodup xs ≡ true → nodup (xs ++ k ∷ []) ≡ true
unfolding nodup elem
nodup-append_one [] k h d = refl
nodup-append_one (x ∷ xs) k h d =
    ground (arith, nodup-append_one xs k, elem-append x xs (k ∷ []), eqb_iff x k, eqb_iff k x)

module _ {A : Type 0} ⦃f : HasFrame A⦄ where
  pub append_frame-IsDistinct :
      (fl : Frames A) (d : A)
      → has_number (f.frame_number d) fl.data' ≡ false
      → IsDistinct fl
      → IsDistinct (append_frame fl d)
  append_frame-IsDistinct fl d h w =
      rw map-append_one
        (nodup-append_one (numbers fl) (f.frame_number d) (rw (← has_number-elem) h) w)

  pub with_frame-IsDistinct :
      (fl : Frames A) (d : A) (total : ℕ)
      → IsDistinct fl
      → IsDistinct (with_frame d (some fl) total)
  with_frame-IsDistinct fl d total w = elim (Bool-cases (has_number (f.frame_number d) fl.data')) [
    | inl e ↦ rw e w
    | inr e ↦ rw e (append_frame-IsDistinct fl d e w)
  ]

-- The equality test of `_add_hash_data` is subsumed by the one on frame numbers, so it decides the
-- returned flag alone.
stored : Dict ℕ FrameList → NavGetCommData → Dict ℕ FrameList
stored m d = elim (lookup d.hash m) [
  | none ↦ insert d.hash (first_frame d.total_frame d) m
  | some fl ↦ if has_number d.current_frame fl.data' then m else insert d.hash (append_frame fl d) m
]

add_hash_data-stored :
    (m : Dict ℕ FrameList) (d : NavGetCommData) → (add_hash_data m d).0 ≡ stored m d
unfolding add_hash_data stored
add_hash_data-stored m d = elim (Option-cases (lookup d.hash m)) [
  | inl e ↦ rw (e, add_hash_data, stored)
  | inr (fl, e) ↦ rw (e, add_hash_data, stored) (ground (arith, any_of_comm_eq d fl.data'))
]

lookup-stored :
    (m : Dict ℕ FrameList) (d : NavGetCommData) (h : ℕ) (o : Option FrameList)
    → lookup d.hash m ≡ o
    → lookup h (stored m d)
      ≡ (if d.hash == h then some (with_frame d (lookup d.hash m) d.total_frame) else lookup h m)
unfolding stored
lookup-stored m d h none e = rw (e, stored) (lookup-insert d.hash h _ m)
lookup-stored m d h (some fl) e =
    rw (e, stored) (ground (arith, lookup-insert d.hash h (append_frame fl d) m, eqb_iff d.hash h))

-- After add_hash_data, the dictionary answers for every other hash ID as before, and for the hash
-- ID of the frame with the old frame list if it has a frame of that number, with the old list and
-- the frame at its end if it has not, and with a list of that frame alone if there was none.
pub lookup-add_hash_data :
    (m : Dict ℕ FrameList) (d : NavGetCommData) (h : ℕ)
    → lookup h (add_hash_data m d).0
      ≡ (if d.hash == h then some (with_frame d (lookup d.hash m) d.total_frame) else lookup h m)
lookup-add_hash_data m d h = rw (add_hash_data-stored m d) (lookup-stored m d h _ refl)

pub add_hash_data-IsDistinct :
    (m : Dict ℕ FrameList) (d : NavGetCommData)
    → Each IsDistinct m
    → Each IsDistinct (add_hash_data m d).0
unfolding stored lookup nodup
add_hash_data-IsDistinct m d w = rw (add_hash_data-stored m d) (go (lookup d.hash m) refl)
  where
    go : (o : Option FrameList) → lookup d.hash m ≡ o → Each IsDistinct (stored m d)
    go none e = rw (e, stored) (Each-insert IsDistinct d.hash _ m refl w)
    go (some fl) e = elim (Bool-cases (has_number d.current_frame fl.data')) [
      | inl old ↦ rw (e, stored, old) w
      | inr new ↦
          rw (e, stored, new)
            (Each-insert IsDistinct d.hash _ m (append_frame-IsDistinct fl d new (w d.hash fl e)) w)
    ]

pub add_svg_data-IsDistinct :
    (m : Dict ℕ SvgFrameList) (d : SvgMessage)
    → Each IsDistinct m
    → Each IsDistinct (add_svg_data m d).0
unfolding add_svg_data lookup nodup
add_svg_data-IsDistinct m d w = go (lookup d.data_hash m) refl
  where
    go : (o : Option SvgFrameList) → lookup d.data_hash m ≡ o → Each IsDistinct (add_svg_data m d).0
    go none e = rw (e, add_svg_data) (Each-insert IsDistinct d.data_hash _ m refl w)
    go (some fl) e = elim (Bool-cases (has_number d.current_frame fl.data')) [
      | inl old ↦ rw (e, add_svg_data, old) w
      | inr new ↦
          rw (e, add_svg_data, new)
            (Each-insert IsDistinct d.data_hash _ m
              (append_frame-IsDistinct fl d new (w d.data_hash fl e)) w)
    ]
