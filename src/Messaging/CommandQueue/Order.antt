-- ===== src/Messaging/CommandQueue/Order.antt =====
-- Which item `get` takes.
use py_mammotion.Base.{
  ◌≤◌, ◌<◌, ◌≡◌, refl, ◌⊎◌, true, false, Option, none, some, List, [], ◌∷◌, arith, nat_keys, All,
  All-mono, Bool-cases, inl, inr, subst, sym, ◌≢◌,
}
use py_mammotion.Messaging.CommandQueue.{QueueItem, rank, before, lesser, pop_min}

-- `m` was taken out of the one list, and the other is what is left, in the same order.
pub data Picked (m : QueueItem) : List QueueItem → List QueueItem → Type 0 where
  hit : {x : QueueItem} {xs : List QueueItem} → m ≡ x → Picked m (x ∷ xs) xs
  skip :
      {x : QueueItem} {xs rest : List QueueItem} → Picked m xs rest → Picked m (x ∷ xs) (x ∷ rest)

-- A lower priority number, or the same and no later arrival.
abbrev pub Precedes : QueueItem → QueueItem → Type 0
Precedes a b =
    (rank a.priority < rank b.priority)
    ⊎ ((rank a.priority ≡ rank b.priority) × (a.sequence ≤ b.sequence))

pub record IsNext (items : List QueueItem) (m : QueueItem) (rest : List QueueItem) : Type 0 where
  pub picked : Picked m items rest
  pub first : All (Precedes m) rest

before-Precedes : (a b : QueueItem) → before a b ≡ true → Precedes a b
unfolding before
before-Precedes a b h = ground arith

not_before-Precedes : (a b : QueueItem) → before a b ≡ false → Precedes b a
unfolding before
not_before-Precedes a b h = ground arith

Precedes-trans : (a b c : QueueItem) → Precedes a b → Precedes b c → Precedes a c
Precedes-trans a b c p q = ground arith

lesser-some :
    (x : QueueItem) (xs : List QueueItem) (o : Option (QueueItem × List QueueItem))
    → lesser x xs o ≢ none
unfolding lesser
lesser-some x xs none q = absurd (cc q)
lesser-some x xs (some (n, left)) q = ground arith

pop_min-none : (items : List QueueItem) → pop_min items ≡ none → items ≡ []
unfolding pop_min
pop_min-none [] e = refl
pop_min-none (x ∷ xs) e = absurd (lesser-some x xs (pop_min xs) e)

same-IsNext :
    (items : List QueueItem) (n m : QueueItem) (left rest : List QueueItem)
    → ◌≡◌ {A = Option (QueueItem × List QueueItem)} (some (n, left)) (some (m, rest))
    → IsNext items n left
    → IsNext items m rest
same-IsNext items n m left rest e h =
    let p : n ≡ m = cc e in let q : left ≡ rest = cc e in rw (sym p, sym q) h

take_head :
    (x : QueueItem) (xs : List QueueItem) (n : QueueItem) (left : List QueueItem)
    → IsNext xs n left
    → Precedes x n
    → All (Precedes x) xs
take_head x xs n left h p =
    picked_all xs left h.picked
      (All-mono (Precedes n) (Precedes x) (λ a q. Precedes-trans x n a p q) left h.first)
  where
    picked_all :
        (ys rest : List QueueItem) → Picked n ys rest → All (Precedes x) rest → All (Precedes x) ys
    picked_all [] rest k r = tt
    picked_all (y ∷ ys) _ (hit e) r = (subst (Precedes x) e p, r)
    picked_all (y ∷ ys) (_ ∷ rest) (skip k) r = (r.0, picked_all ys rest k r.1)

lesser-IsNext :
    (x : QueueItem) (xs : List QueueItem) (m : QueueItem) (rest : List QueueItem)
    (o : Option (QueueItem × List QueueItem))
    → (o ≡ none → xs ≡ [])
    → ((n : QueueItem) (left : List QueueItem) → o ≡ some (n, left) → IsNext xs n left)
    → lesser x xs o ≡ some (m, rest)
    → IsNext (x ∷ xs) m rest
unfolding lesser
lesser-IsNext x xs m rest none em ih e =
    same-IsNext _ x m xs rest e (record { picked = hit refl; first = rw (em refl) tt })
lesser-IsNext x xs m rest (some (n, left)) em ih e = elim (Bool-cases (before x n)) [
  | inl y ↦
      let h : IsNext (x ∷ xs) x xs = record {
        picked = hit refl;
        first = take_head x xs n left (ih n left refl) (before-Precedes x n y);
      } in
      same-IsNext _ x m xs rest (ground arith) h
  | inr y ↦
      let h : IsNext (x ∷ xs) n (x ∷ left) = record {
        picked = skip (ih n left refl).picked;
        first = (not_before-Precedes x n y, (ih n left refl).first);
      } in
      same-IsNext _ n m (x ∷ left) rest (ground arith) h
]

-- If pop_min takes an item out of a list of queued items, that item is one of them, the others stay
-- in their order, and it precedes each of them: its priority number is lower, or equal and its
-- sequence number no greater.
pub pop_min-IsNext :
    (items : List QueueItem) (m : QueueItem) (rest : List QueueItem)
    → pop_min items ≡ some (m, rest)
    → IsNext items m rest
unfolding pop_min
pop_min-IsNext [] m rest e = absurd (cc e)
pop_min-IsNext (x ∷ xs) m rest e =
    lesser-IsNext x xs m rest (pop_min xs) (pop_min-none xs) (pop_min-IsNext xs) e
