-- ===== src/Messaging/CommandQueue/Dedup.antt =====
-- The dedup keys of `DeviceCommandQueue`: `_pending_dedup_keys` against the items that wait.
pub mod Run
use py_mammotion.Base.{
  ℕ, ◌+◌, ◌≤◌, ◌≡◌, refl, Bool, true, false, ◌&&◌, ◌||◌, not, Option, none, some, List, [], ◌∷◌,
  ◌++◌, arith, ◌==◌, string_keys, String, filter, elem, nodup, All, All-mono, All-append,
  elem-append, elem-filter, sym, ap, ◌∙◌, inl, inr, Option-cases, ◌⊎◌,
}
use py_mammotion.Messaging.CommandQueue.{
  QueueItem, CommandQueue, Priority, init, new_item, may_skip, put, enqueue, taken, dequeue,
  pop_min, is_pending, add_key, discard_key, pause_for_reconnect, resume_after_reconnect,
}
use py_mammotion.Messaging.CommandQueue.Order.{Picked, hit, skip, IsNext, pop_min-IsNext}

-- The dedup keys of the items, in order.
unfoldable pub keys_of : List QueueItem → List String
keys_of [] = []
keys_of (x ∷ xs) = add_key x.dedup_key (keys_of xs)

abbrev pub is_key : Option String → String → Bool
is_key none k = false
is_key (some j) k = j == k

pub record IsKeyed (q : CommandQueue) : Type 0 where
  pub exact : (k : String) → elem k q.pending_dedup_keys ≡ elem k (keys_of q.queue)
  pub distinct : nodup (keys_of q.queue) ≡ true
  pub numbered : All (λ i. i.sequence ≤ q.seq) q.queue

pub elem-add_key :
    (k : String) (d : Option String) (ks : List String)
    → elem k (add_key d ks) ≡ (is_key d k || elem k ks)
unfolding elem
elem-add_key k none ks = refl
elem-add_key k (some j) ks = refl

pub elem-discard_key :
    (k : String) (d : Option String) (ks : List String)
    → elem k (discard_key d ks) ≡ (elem k ks && not (is_key d k))
elem-discard_key k none ks = ground arith
elem-discard_key k (some j) ks =
    ground (arith, elem-filter (λ i. not (j == i)) k ks, string_keys.same_iff j k)

pub elem-keys_of-append :
    (k : String) (xs ys : List QueueItem)
    → elem k (keys_of (xs ++ ys)) ≡ (elem k (keys_of xs) || elem k (keys_of ys))
unfolding keys_of elem
elem-keys_of-append k [] ys = refl
elem-keys_of-append k (x ∷ xs) ys = ground (
  arith,
  elem-keys_of-append k xs ys,
  elem-add_key k x.dedup_key (keys_of xs),
  elem-add_key k x.dedup_key (keys_of (xs ++ ys)),
)

nodup-add_key :
    (d : Option String) (ks : List String)
    → nodup (add_key d ks) ≡ (not (is_pending d ks) && nodup ks)
unfolding nodup
nodup-add_key none ks = refl
nodup-add_key (some j) ks = refl

nodup-tail : (d : Option String) (ks : List String) → nodup (add_key d ks) ≡ true → nodup ks ≡ true
nodup-tail d ks h = ground (arith, nodup-add_key d ks)

pending-cons :
    (c d : Option String) (ks : List String)
    → is_pending c (add_key d ks) ≡ false
    → is_pending c ks ≡ false
pending-cons none d ks h = refl
pending-cons (some j) d ks h = ground (arith, elem-add_key j d ks)

overlaps : Option String → Option String → Bool
overlaps none c = false
overlaps (some j) c = is_key c j

pending-snoc :
    (d : Option String) (xs : List QueueItem) (i : QueueItem)
    → is_pending d (keys_of (xs ++ i ∷ [])) ≡ (is_pending d (keys_of xs) || overlaps d i.dedup_key)
unfolding keys_of elem overlaps
pending-snoc none xs i = refl
pending-snoc (some j) xs i =
    ground (arith, elem-keys_of-append j xs (i ∷ []), elem-add_key j i.dedup_key [])

not_overlaps :
    (d c : Option String) (ks : List String)
    → is_pending c (add_key d ks) ≡ false
    → overlaps d c ≡ false
unfolding overlaps elem
not_overlaps none c ks h = refl
not_overlaps (some j) none ks h = refl
not_overlaps (some j) (some i) ks h =
    ground (arith, string_keys.same_iff j i, string_keys.same_iff i j)

pub nodup-snoc :
    (xs : List QueueItem) (i : QueueItem)
    → nodup (keys_of xs) ≡ true
    → is_pending i.dedup_key (keys_of xs) ≡ false
    → nodup (keys_of (xs ++ i ∷ [])) ≡ true
unfolding keys_of nodup elem
nodup-snoc [] i h n = ground (arith, nodup-add_key i.dedup_key [])
nodup-snoc (x ∷ xs) i h n =
    let tail : nodup (keys_of (xs ++ i ∷ [])) ≡ true =
      nodup-snoc xs i (nodup-tail x.dedup_key (keys_of xs) h)
        (pending-cons i.dedup_key x.dedup_key (keys_of xs) n) in
    ground (
      arith,
      tail,
      nodup-add_key x.dedup_key (keys_of xs),
      nodup-add_key x.dedup_key (keys_of (xs ++ i ∷ [])),
      pending-snoc x.dedup_key xs i,
      not_overlaps x.dedup_key i.dedup_key (keys_of xs) n,
    )

-- A key that is not pending is none of the keys.
key_gone :
    (k : String) (d : Option String) (ks : List String)
    → is_pending d ks ≡ false
    → is_key d k ≡ true
    → elem k ks ≡ false
key_gone k none ks h q = absurd (cc q)
key_gone k (some j) ks h q = rw (sym ((string_keys.same_iff j k).0 q)) h

Picked-key :
    (k : String) (m : QueueItem) (items rest : List QueueItem)
    → Picked m items rest
    → is_key m.dedup_key k ≡ true
    → elem k (keys_of items) ≡ true
unfolding keys_of
Picked-key k m [] rest p h = elim p [ ]
Picked-key k m (x ∷ xs) _ (hit e) h =
    ground (arith, elem-add_key k x.dedup_key (keys_of xs), ap (λ i. is_key i.dedup_key k) e)
Picked-key k m (x ∷ xs) (_ ∷ rest) (skip p) h =
    ground (arith, elem-add_key k x.dedup_key (keys_of xs), Picked-key k m xs rest p)

pub Picked-elem :
    (k : String) (m : QueueItem) (items rest : List QueueItem)
    → Picked m items rest
    → nodup (keys_of items) ≡ true
    → elem k (keys_of rest) ≡ (elem k (keys_of items) && not (is_key m.dedup_key k))
unfolding keys_of
Picked-elem k m [] rest p h = elim p [ ]
Picked-elem k m (x ∷ xs) _ (hit e) h = ground (
  arith,
  nodup-add_key x.dedup_key (keys_of xs),
  elem-add_key k x.dedup_key (keys_of xs),
  key_gone k x.dedup_key (keys_of xs),
  ap (λ i. is_key i.dedup_key k) e,
)
Picked-elem k m (x ∷ xs) (_ ∷ rest) (skip p) h = ground (
  arith,
  Picked-elem k m xs rest p,
  nodup-tail x.dedup_key (keys_of xs) h,
  elem-add_key k x.dedup_key (keys_of xs),
  elem-add_key k x.dedup_key (keys_of rest),
  nodup-add_key x.dedup_key (keys_of xs),
  key_gone k x.dedup_key (keys_of xs),
  Picked-key k m xs rest p,
)

Picked-pending :
    (d : Option String) (m : QueueItem) (items rest : List QueueItem)
    → Picked m items rest
    → nodup (keys_of items) ≡ true
    → is_pending d (keys_of items) ≡ false
    → is_pending d (keys_of rest) ≡ false
Picked-pending none m items rest p h n = refl
Picked-pending (some j) m items rest p h n = ground (arith, Picked-elem j m items rest p h)

pub Picked-nodup :
    (m : QueueItem) (items rest : List QueueItem)
    → Picked m items rest
    → nodup (keys_of items) ≡ true
    → nodup (keys_of rest) ≡ true
unfolding keys_of
Picked-nodup m [] rest p h = elim p [ ]
Picked-nodup m (x ∷ xs) _ (hit e) h = ground (arith, nodup-add_key x.dedup_key (keys_of xs))
Picked-nodup m (x ∷ xs) (_ ∷ rest) (skip p) h = ground (
  arith,
  nodup-add_key x.dedup_key (keys_of xs),
  nodup-add_key x.dedup_key (keys_of rest),
  Picked-nodup m xs rest p,
  Picked-pending x.dedup_key m xs rest p,
)

pub Picked-All :
    (P : QueueItem → Type 0) (m : QueueItem) (items rest : List QueueItem)
    → Picked m items rest
    → All P items
    → All P rest
Picked-All P m [] rest p h = elim p [ ]
Picked-All P m (x ∷ xs) _ (hit e) h = h.1
Picked-All P m (x ∷ xs) (_ ∷ rest) (skip p) h = (h.0, Picked-All P m xs rest p h.1)
