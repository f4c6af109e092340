-- ===== src/HashList/MowPaths.antt =====
-- pymammotion/data/model/hash_list.py, class `HashList`: what is missing of the mow paths, which are
-- kept by transaction and frame.
use py_mammotion.Base.{
  ℕ, ◌≡◌, Bool, true, false, not, List, [], ◌∷◌, ◌==◌, nat_keys, if◌then◌else◌, Bool-cases, inl,
  inr, arith, filter, any, elem, elem-filter, is_empty,
}
use py_mammotion.Base.Dict.{Dict, values, contains}
use py_mammotion.Base.Pigeonhole.{Between}
use py_mammotion.HashList.Frames.{range}
use py_mammotion.HashList.Frames.Missing.{elem-range}
use py_mammotion.HashList.Store.{HashList, MowPath}

-- The numbers from 1 to the `total_frame` of the first frame that are not held.
unfoldable pub missing_of_transaction : Dict ℕ MowPath → List ℕ
missing_of_transaction [] = []
missing_of_transaction ((n, p) ∷ frames) =
    filter (λ k. not (contains k ((n, p) ∷ frames))) (range 1 p.total_frame)

unfoldable pub missing_in : Dict ℕ (Dict ℕ MowPath) → Dict ℕ (List ℕ)
unfolding missing_of_transaction
missing_in [] = []
missing_in ((t, frames) ∷ paths) =
    let rest = missing_in paths in
    if is_empty (missing_of_transaction frames)
    then rest
    else (t, missing_of_transaction frames) ∷ rest

unfoldable pub find_missing_mow_path_frames : HashList → Dict ℕ (List ℕ)
unfolding missing_in
find_missing_mow_path_frames h = missing_in h.current_mow_path

unfoldable pub starts_with : ℕ → MowPath → Bool
starts_with path_hash p = elim p.path_packets [
  | [] ↦ false
  | packet ∷ _ ↦ packet.path_hash == path_hash
]

unfoldable pub has_mow_path_for_hash : HashList → ℕ → Bool
unfolding starts_with
has_mow_path_for_hash h path_hash =
    any (λ frames. any (starts_with path_hash) (values frames)) (values h.current_mow_path)

-- Every frame that the first one counts is held.
abbrev pub HasAll : Dict ℕ MowPath → Type 0
HasAll [] = Unit
HasAll ((n, p) ∷ frames) = (k : ℕ) → Between p.total_frame k → contains k ((n, p) ∷ frames) ≡ true

abbrev pub AllComplete : Dict ℕ (Dict ℕ MowPath) → Type 0
AllComplete [] = Unit
AllComplete ((t, frames) ∷ paths) = HasAll frames × AllComplete paths

empty_absurd : (k : ℕ) (l : List ℕ) → is_empty l ≡ true → elem k l ≡ true → ⊥
unfolding elem
empty_absurd k [] e h = ground (arith, h)
empty_absurd k (x ∷ l) e h = ground (arith, e)

missing_of_transaction-HasAll :
    (frames : Dict ℕ MowPath) → is_empty (missing_of_transaction frames) ≡ true → HasAll frames
unfolding missing_of_transaction
missing_of_transaction-HasAll [] e = tt
missing_of_transaction-HasAll ((n, p) ∷ frames) e = λ k between.
    elim (Bool-cases (contains k ((n, p) ∷ frames))) [
      | inl held ↦ held
      | inr gone ↦ absurd (
          empty_absurd k (missing_of_transaction ((n, p) ∷ frames)) e (
            ground (
              arith,
              gone,
              between,
              elem-filter (λ j. not (contains j ((n, p) ∷ frames))) k (range 1 p.total_frame),
              elem-range k 1 p.total_frame,
            )))
    ]

pub missing_in-AllComplete :
    (paths : Dict ℕ (Dict ℕ MowPath)) → is_empty (missing_in paths) ≡ true → AllComplete paths
unfolding missing_in
missing_in-AllComplete [] e = tt
missing_in-AllComplete ((t, frames) ∷ paths) e =
    elim (Bool-cases (is_empty (missing_of_transaction frames))) [
      | inl full ↦ (
        missing_of_transaction-HasAll frames full,
        missing_in-AllComplete paths (ground (arith, e, full)),
      )
      | inr gap ↦ absurd (ground (arith, e, gap))
    ]
