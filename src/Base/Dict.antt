-- ===== src/Base/Dict.antt =====
-- Python's `dict`: an association list in insertion order. Assignment to a key that is there
-- writes in place, and to a new key appends.
use py_mammotion.Base.{
  ◌≡◌, refl, Bool, true, false, ◌&&◌, ◌||◌, not, Option, none, some, List, [], ◌∷◌, arith, Eq, ◌==◌,
  if◌then◌else◌, elem, Bool-cases, inl, inr, subst,
}

abbrev pub Dict {ℓ κ} : Type ℓ → Type κ → Type (ℓ ⊔ κ)
Dict K V = List (K × V)

module _ {ℓ κ} {K : Type ℓ} {V : Type κ} where
  -- `list(d)`, `d.keys()`
  unfoldable pub keys : Dict K V → List K
  keys [] = []
  keys ((k, v) ∷ d) = k ∷ keys d

  -- `list(d.values())`
  unfoldable pub values : Dict K V → List V
  values [] = []
  values ((k, v) ∷ d) = v ∷ values d

  -- `{k: v for k, v in d.items() if p(k)}`
  unfoldable pub restrict : (K → Bool) → Dict K V → Dict K V
  restrict p [] = []
  restrict p ((k, v) ∷ d) = let rest = restrict p d in if p k then (k, v) ∷ rest else rest

module _ {ℓ κ} {K : Type ℓ} {V : Type κ} ⦃e : Eq K⦄ where
  -- `d.get(k)`
  unfoldable pub lookup : K → Dict K V → Option V
  lookup k [] = none
  lookup k ((j, v) ∷ d) = if j == k then some v else lookup k d

  -- `d[k] = v`
  unfoldable pub insert : K → V → Dict K V → Dict K V
  insert k v [] = (k, v) ∷ []
  insert k v ((j, w) ∷ d) = if j == k then (j, v) ∷ d else (j, w) ∷ insert k v d

  -- `d.pop(k, None)`
  unfoldable pub erase : K → Dict K V → Dict K V
  erase k [] = []
  erase k ((j, v) ∷ d) = let rest = erase k d in if j == k then rest else (j, v) ∷ rest

  -- `k in d`
  unfoldable pub contains : K → Dict K V → Bool
  contains k [] = false
  contains k ((j, v) ∷ d) = j == k || contains k d

module _ {ℓ κ} {K : Type ℓ} {V : Type κ} ⦃e : Eq K⦄ where
  pub lookup-insert :
      (k j : K) (v : V) (d : Dict K V)
      → lookup j (insert k v d) ≡ (if k == j then some v else lookup j d)
  unfolding lookup insert
  lookup-insert k j v [] = refl
  lookup-insert k j v ((i, w) ∷ d) =
      ground (arith, e.same_iff k j, e.same_iff i k, e.same_iff i j, lookup-insert k j v d)

  pub lookup-erase :
      (k j : K) (d : Dict K V) → lookup j (erase k d) ≡ (if k == j then none else lookup j d)
  unfolding lookup erase
  lookup-erase k j [] = ground arith
  lookup-erase k j ((i, w) ∷ d) =
      ground (arith, e.same_iff k j, e.same_iff i k, e.same_iff i j, lookup-erase k j d)

  pub lookup-restrict :
      (p : K → Bool) (j : K) (d : Dict K V)
      → lookup j (restrict p d) ≡ (if p j then lookup j d else none)
  unfolding lookup restrict
  lookup-restrict p j [] = ground arith
  lookup-restrict p j ((i, w) ∷ d) = ground (arith, e.same_iff i j, lookup-restrict p j d)

  pub contains-insert :
      (k j : K) (v : V) (d : Dict K V) → contains j (insert k v d) ≡ (k == j || contains j d)
  unfolding contains insert
  contains-insert k j v [] = refl
  contains-insert k j v ((i, w) ∷ d) =
      ground (arith, e.same_iff k j, e.same_iff i k, e.same_iff i j, contains-insert k j v d)

  pub contains-erase :
      (k j : K) (d : Dict K V) → contains j (erase k d) ≡ (not (k == j) && contains j d)
  unfolding contains erase
  contains-erase k j [] = ground arith
  contains-erase k j ((i, w) ∷ d) =
      ground (arith, e.same_iff k j, e.same_iff i k, e.same_iff i j, contains-erase k j d)

  pub contains_iff :
      (k : K) (d : Dict K V) → contains k d ≡ (elim (lookup k d) [ none ↦ false | some v ↦ true ])
  unfolding contains lookup
  contains_iff k [] = refl
  contains_iff k ((j, v) ∷ d) = ground (arith, contains_iff k d)

  pub elem-keys : (k : K) (d : Dict K V) → elem k (keys d) ≡ contains k d
  unfolding elem keys contains
  elem-keys k [] = refl
  elem-keys k ((j, v) ∷ d) = ground (arith, elem-keys k d)

  -- Every value that the dictionary holds has the property.
  abbrev pub Each {μ} : (V → Type μ) → Dict K V → Type (ℓ ⊔ κ ⊔ μ)
  Each P d = (k : K) (v : V) → lookup k d ≡ some v → P v

  pub Each-nil {μ} : (P : V → Type μ) → Each P []
  unfolding lookup
  Each-nil P k v q = absurd (cc q)

  pub Each-insert {μ} :
      (P : V → Type μ) (k : K) (v : V) (d : Dict K V) → P v → Each P d → Each P (insert k v d)
  Each-insert P k v d pv h j w q = elim (Bool-cases (k == j)) [
    | inl same ↦ subst P (ground (arith, lookup-insert k j v d)) pv
    | inr other ↦ h j w (ground (arith, lookup-insert k j v d))
  ]

  pub Each-restrict {μ} :
      (P : V → Type μ) (p : K → Bool) (d : Dict K V) → Each P d → Each P (restrict p d)
  Each-restrict P p d h j w q = h j w (ground (arith, lookup-restrict p j d))

pub ruleset dict_laws = (lookup-insert, lookup-erase, lookup-restrict)
