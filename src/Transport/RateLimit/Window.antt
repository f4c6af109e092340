-- ===== src/Transport/RateLimit/Window.antt =====
-- The window of recent timestamps, as the loops that stop early and the pruning see it.
use py_mammotion.Base.{
  ℕ, ◌+◌, ◌≤◌, ◌<◌, ◌≡◌, refl, ap, ◌∙◌, List, [], ◌∷◌, ◌++◌, arith, leb, length, length-append, All,
  All-append, All-mono, Bool-cases, inl, inr,
}
use mathlib.Core.List.{reverse, reverse-cons}
use py_mammotion.Transport.RateLimit.{pop_older, count_recent, recent}

-- Timestamps are appended by a clock that does not run backwards.
abbrev pub IsAscending : List ℕ → Type 0
IsAscending [] = Unit
IsAscending (x ∷ xs) = All (λ y. x ≤ y) xs × IsAscending xs

pub IsAscending-append_one :
    (xs : List ℕ) (now : ℕ) → IsAscending xs → All (λ x. x ≤ now) xs → IsAscending (xs ++ now ∷ [])
IsAscending-append_one [] now a b = (tt, tt)
IsAscending-append_one (x ∷ xs) now a b =
    (All-append (λ y. x ≤ y) xs (now ∷ []) a.0 (b.0, tt), IsAscending-append_one xs now a.1 b.1)

All-reverse : (P : ℕ → Type 0) (xs : List ℕ) → All P xs → All P (reverse xs)
All-reverse P [] h = tt
All-reverse P (x ∷ xs) h =
    rw (reverse-cons x xs) (All-append P (reverse xs) (x ∷ []) (All-reverse P xs h.1) (h.0, tt))

length-reverse : (xs : List ℕ) → length (reverse xs) ≡ length xs
length-reverse [] = refl
length-reverse (x ∷ xs) =
    omega
      (arith, ap length (reverse-cons x xs), length-append (reverse xs) (x ∷ []), length-reverse xs)

module _ (now window : ℕ) where
  abbrev IsRecent : ℕ → Type 0
  IsRecent ts = now ≤ ts + window

  count_recent-old :
      (ys : List ℕ) (x : ℕ)
      → x + window < now
      → count_recent now window (ys ++ x ∷ []) ≡ count_recent now window ys
  unfolding count_recent
  count_recent-old [] x h = ground arith
  count_recent-old (y ∷ ys) x h = ground (arith, count_recent-old ys x h)

  count_recent-All : (ys : List ℕ) → All IsRecent ys → count_recent now window ys ≡ length ys
  unfolding count_recent
  count_recent-All [] h = refl
  count_recent-All (y ∷ ys) h = ground (arith, count_recent-All ys h.1)

  pub recent-All : (xs : List ℕ) → All IsRecent xs → recent now window xs ≡ xs
  unfolding recent
  recent-All [] h = refl
  recent-All (x ∷ xs) h = ground (arith, recent-All xs h.1)

  recent-old :
      (x : ℕ) (xs : List ℕ) → x + window < now → recent now window (x ∷ xs) ≡ recent now window xs
  unfolding recent
  recent-old x xs h = ground arith

  IsRecent-above : (x : ℕ) (xs : List ℕ) → now ≤ x + window → All (λ y. x ≤ y) xs → All IsRecent xs
  IsRecent-above x xs h = All-mono (λ y. x ≤ y) IsRecent (λ y le. omega arith) xs

  count_recent-nil : count_recent now window [] ≡ length (recent now window [])
  unfolding count_recent recent
  count_recent-nil = refl

  -- The early stop of the counting loop loses nothing.
  pub count_recent-reverse :
      (xs : List ℕ)
      → IsAscending xs
      → count_recent now window (reverse xs) ≡ length (recent now window xs)
  count_recent-reverse [] a = count_recent-nil
  count_recent-reverse (x ∷ xs) a = elim (Bool-cases (leb now (x + window))) [
    | inl e ↦
        let above : All IsRecent (x ∷ xs) =
          (ground arith, IsRecent-above x xs (ground arith) a.0) in
        rw (recent-All (x ∷ xs) above) (
          count_recent-All (reverse (x ∷ xs)) (All-reverse IsRecent (x ∷ xs) above)
          ∙ length-reverse (x ∷ xs))
    | inr e ↦
        rw (reverse-cons x xs, recent-old x xs (ground arith))
          (count_recent-old (reverse xs) x (ground arith) ∙ count_recent-reverse xs a.1)
  ]

  pub pop_older-recent :
      (xs : List ℕ) → IsAscending xs → pop_older now window xs ≡ recent now window xs
  unfolding pop_older recent
  pop_older-recent [] a = refl
  pop_older-recent (x ∷ xs) a = elim (Bool-cases (leb now (x + window))) [
    | inl e ↦ ground (arith, recent-All xs (IsRecent-above x xs (ground arith) a.0))
    | inr e ↦ ground (arith, pop_older-recent xs a.1)
  ]

  pub recent-append :
      (xs ys : List ℕ) → recent now window (xs ++ ys) ≡ recent now window xs ++ recent now window ys
  unfolding recent
  recent-append [] ys = refl
  recent-append (x ∷ xs) ys = ground (arith, recent-append xs ys)
