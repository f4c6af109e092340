-- ===== src/Base/Pigeonhole.antt =====
-- Distinct frame numbers between 1 and n: there are at most n of them, and with n of them no
-- number is missing.
use py_mammotion.Base.{
  ℕ, zero, suc, ◌≤◌, ◌≡◌, refl, true, false, not, List, [], ◌∷◌, arith, ◌==◌, length, filter, elem,
  nodup, elem-filter, All, eqb_iff, nat_keys, Bool-cases, inl, inr,
}

abbrev pub Between : ℕ → ℕ → Type 0
Between n x = (1 ≤ x) × (x ≤ n)

remove : ℕ → List ℕ → List ℕ
remove a = filter (λ x. not (x == a))

remove-absent : (a : ℕ) (xs : List ℕ) → elem a xs ≡ false → remove a xs ≡ xs
unfolding elem remove filter
remove-absent a [] h = refl
remove-absent a (x ∷ xs) h = ground (arith, remove-absent a xs)

length-remove : (a : ℕ) (xs : List ℕ) → nodup xs ≡ true → length xs ≤ suc (length (remove a xs))
unfolding nodup remove filter
length-remove a [] h = omega arith
length-remove a (x ∷ xs) h = ground (arith, length-remove a xs, remove-absent a xs, eqb_iff x a)

nodup-remove : (a : ℕ) (xs : List ℕ) → nodup xs ≡ true → nodup (remove a xs) ≡ true
unfolding nodup remove filter
nodup-remove a [] h = refl
nodup-remove a (x ∷ xs) h = ground (arith, nodup-remove a xs, elem-filter (λ y. not (y == a)) x xs)

Between-remove :
    (n : ℕ) (xs : List ℕ) → All (Between (suc n)) xs → All (Between n) (remove (suc n) xs)
unfolding remove filter
Between-remove n [] h = tt
Between-remove n (x ∷ xs) h = ground (arith, Between-remove n xs h.1)

pub length-le_of_nodup :
    (n : ℕ) (xs : List ℕ) → nodup xs ≡ true → All (Between n) xs → length xs ≤ n
length-le_of_nodup zero [] d h = omega arith
length-le_of_nodup zero (x ∷ xs) d h = absurd (omega arith)
length-le_of_nodup (suc n) xs d h = omega (
  arith,
  length-remove (suc n) xs d,
  length-le_of_nodup n (remove (suc n) xs) (nodup-remove (suc n) xs d) (Between-remove n xs h),
)

pub elem_of_full :
    (n k : ℕ) (xs : List ℕ)
    → nodup xs ≡ true
    → All (Between n) xs
    → n ≤ length xs
    → Between n k
    → elem k xs ≡ true
elem_of_full n k xs d h full hk = elim (Bool-cases (elem k xs)) [
  | inl e ↦ e
  | inr e ↦ absurd (omega (arith, length-le_of_nodup n (k ∷ xs) (unfold nodup in rw e d) (hk, h)))
]
