-- ===== src/HashList/Frames/Missing.antt =====
-- Which frame numbers `find_missing_frames` reports.
use py_mammotion.Base.{
  ap, ℕ, zero, suc, ◌+◌, ◌≤◌, ◌≡◌, refl, true, false, ◌&&◌, not, some, [], ◌∷◌, List, arith,
  nat_keys, eqb_iff, leb, ltb, length, elem, nodup, elem-filter, All, Bool-cases, inl, inr, map,
  ◌==◌,
}
use py_mammotion.Base.Pigeonhole.{Between, elem_of_full}
use py_mammotion.HashList.Frames.{HasFrame, Frames, numbers, range, find_missing_frames}

-- The frames of one list have distinct numbers, each between 1 and `total_frame`.
pub record IsWellFormed {A : Type 0} ⦃f : HasFrame A⦄ (fl : Frames A) : Type 0 where
  pub distinct : nodup (numbers fl) ≡ true
  pub in_range : All (Between fl.total_frame) (numbers fl)

-- Every frame from 1 to `total_frame` has arrived.
abbrev pub IsComplete : {A : Type 0} → ⦃f : HasFrame A⦄ → Frames A → Type 0
IsComplete fl = (k : ℕ) → Between fl.total_frame k → elem k (numbers fl) ≡ true

pub elem-range :
    (k start count : ℕ) → elem k (range start count) ≡ (leb start k && ltb k (start + count))
unfolding elem range
elem-range k start zero = ground arith
elem-range k start (suc count) = ground (arith, elem-range k (start + 1) count, eqb_iff start k)

length-map : {A B : Type 0} (f : A → B) (xs : List A) → length (map f xs) ≡ length xs
length-map f [] = refl
length-map f (x ∷ xs) = omega (arith, length-map f xs)

pub empty_of_no_elem : (xs : List ℕ) → ((k : ℕ) → elem k xs ≡ false) → xs ≡ []
unfolding elem
empty_of_no_elem [] h = refl
empty_of_no_elem (x ∷ xs) h = ground (arith, h x)

module _ {A : Type 0} ⦃f : HasFrame A⦄ (fl : Frames A) (w : IsWellFormed fl) where
  full_of_length : fl.total_frame ≤ length fl.data' → IsComplete fl
  full_of_length h k between =
      elem_of_full fl.total_frame k (numbers fl) w.distinct w.in_range
        (omega (arith, length-map f.frame_number fl.data')) between

  -- In a frame list whose frame numbers are distinct and lie between 1 and total_frame,
  -- find_missing_frames reports a number exactly when it lies between 1 and total_frame and no
  -- frame has it.
  pub elem-find_missing_frames :
      (k : ℕ)
      → elem k (find_missing_frames (some fl))
        ≡ (leb 1 k && leb k fl.total_frame && not (elem k (numbers fl)))
  unfolding find_missing_frames elem
  elem-find_missing_frames k = elim (Bool-cases (fl.total_frame == length fl.data')) [
    | inl e ↦ ground (arith, full_of_length (omega (arith, (eqb_iff _ _).0 e)) k)
    | inr e ↦ ground (
      arith,
      elem-filter (λ num. not (elem num (numbers fl))) k (range 1 fl.total_frame),
      elem-range k 1 fl.total_frame,
    )
  ]

  -- Nothing is reported exactly when the list is complete.
  pub find_missing_frames-IsComplete : find_missing_frames (some fl) ≡ [] → IsComplete fl
  unfolding elem
  find_missing_frames-IsComplete h k between =
      ground (arith, elem-find_missing_frames k, ap (elem k) h)

  -- In a frame list whose frame numbers are distinct and lie between 1 and total_frame, and that
  -- has every such number, find_missing_frames reports nothing.
  pub complete-find_missing_frames : IsComplete fl → find_missing_frames (some fl) ≡ []
  complete-find_missing_frames c =
      empty_of_no_elem _ λ k. ground (arith, elem-find_missing_frames k, c k)
