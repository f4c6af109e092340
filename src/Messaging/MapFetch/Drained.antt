-- ===== src/Messaging/MapFetch/Drained.antt =====
-- What a run keeps from one state to the next, and that draining the queue keeps it.
use py_mammotion.Base.{
  maybe, ℕ, zero, suc, ◌+◌, ◌≤◌, ◌≡◌, refl, ap, ◌∙◌, Bool, true, false, Option, none, some, List,
  [], ◌∷◌, ◌++◌, if◌then◌else◌, arith, length, length-append, elem, nat_keys, is_empty, ltb, leb,
  ◌&&◌,
}
use py_mammotion.Messaging.MapFetch.{
  Leaf, comm_data, svg_tile, Command, todev_ble_sync, get_area_name_list,
  get_all_boundary_hash_list, get_hash_response, synchronize_hash_data, ack_frame, FetchState,
  Ended, frames_coming, flow, drain, drain_step, belongs_to,
}
use py_mammotion.Messaging.MapFetch.Sends.{
  Post, if-Post, sending, send-bind, Post-mono, sending-sent, flow-sending, Taken,
}

abbrev pub leaf_of : Command → Option Leaf
leaf_of (ack_frame f) = some f
leaf_of (synchronize_hash_data h) = none
leaf_of (get_hash_response d) = none
leaf_of todev_ble_sync = none
leaf_of get_area_name_list = none
leaf_of get_all_boundary_hash_list = none

abbrev pub request_of : Command → Option ℕ
request_of (ack_frame f) = none
request_of (synchronize_hash_data h) = some h
request_of (get_hash_response d) = none
request_of todev_ble_sync = none
request_of get_area_name_list = none
request_of get_all_boundary_hash_list = none

-- The frames that commands ack, the requests for a hash, and the hashes whose last frame is acked.
unfoldable pub acked : List Command → List Leaf
unfolding maybe
acked [] = []
acked (c ∷ l) = let rest = acked l in maybe (leaf_of c) rest (λ f. f ∷ rest)

unfoldable pub requests : List Command → List ℕ
unfolding maybe
requests [] = []
requests (c ∷ l) = let rest = requests l in maybe (request_of c) rest (λ h. h ∷ rest)

unfoldable pub ended_by : Leaf → List ℕ → List ℕ
ended_by (comm_data d) l =
    if ltb 0 d.total_frame && leb d.total_frame d.current_frame then d.hash ∷ l else l
ended_by (svg_tile d) l =
    if ltb 0 d.total_frame && leb d.total_frame d.current_frame
    then d.data_hash ∷ d.paternal_hash_a ∷ l
    else l

unfoldable pub ended_hashes : List Command → List ℕ
unfolding maybe ended_by
ended_hashes [] = []
ended_hashes (c ∷ l) = let rest = ended_hashes l in maybe (leaf_of c) rest (λ f. ended_by f rest)

unfoldable pub count : (Leaf → Bool) → List Leaf → ℕ
count p [] = 0
count p (f ∷ l) = if p f then suc (count p l) else count p l

count-append : (p : Leaf → Bool) (l r : List Leaf) → count p (l ++ r) ≡ count p l + count p r
unfolding count
count-append p [] r = omega arith
count-append p (f ∷ l) r = ground (arith, count-append p l r)

-- The frames that are acked, queued or still to come.
unfoldable pub accounted : (Leaf → Bool) → FetchState → ℕ
unfolding count acked flow
accounted p s = count p (acked s.sent) + count p (flow s)

pub record Kept (s s' : FetchState) : Type 0 where
  pub accounts : (p : Leaf → Bool) → accounted p s' ≡ accounted p s
  pub shorter : length (flow s') ≤ length (flow s)
  pub remembers :
      (h : ℕ) → elem h (ended_hashes s.sent) ≡ true → elem h (ended_hashes s'.sent) ≡ true

-- No request is among the commands sent since.
abbrev pub Quiet : FetchState → FetchState → Type 0
Quiet s s' = Kept s s' × (requests s'.sent ≡ requests s.sent)

pub Kept-refl : (s : FetchState) → Kept s s
Kept-refl s = record { accounts = λ p. refl; shorter = omega arith; remembers = λ h e. e }

pub Kept-trans : {a b c : FetchState} → Kept a b → Kept b c → Kept a c
Kept-trans k l = record {
  accounts = λ p. l.accounts p ∙ k.accounts p;
  shorter = omega (arith, k.shorter, l.shorter);
  remembers = λ h e. l.remembers h (k.remembers h e);
}

pub Quiet-trans : {a b c : FetchState} → Quiet a b → Quiet b c → Quiet a c
Quiet-trans k l = (Kept-trans k.0 l.0, l.1 ∙ k.1)

elem-ended_by : (h : ℕ) (f : Leaf) (l : List ℕ) → elem h l ≡ true → elem h (ended_by f l) ≡ true
unfolding ended_by elem
elem-ended_by h (comm_data d) l e = ground arith
elem-ended_by h (svg_tile d) l e = ground arith

-- One frame goes from the flow to the acked ones.
count-moved :
    (p : Leaf → Bool) (f : Leaf) (a q q1 : List Leaf)
    → f ∷ q1 ≡ q
    → count p (f ∷ a) + count p q1 ≡ count p a + count p q
unfolding count
count-moved p f a q q1 e = rw (← e) (ground arith)

-- A taken frame that is acked.
pub acking-Quiet :
    (s s1 : FetchState) (f : Leaf) → Taken s f s1 → Quiet s (sending (ack_frame f) s1)
unfolding accounted acked requests ended_hashes
acking-Quiet s s1 f t =
    let c = ack_frame f in
    let sent = sending-sent c s1 ∙ ap (λ l. c ∷ l) t.1 in
    (
      record {
        accounts = λ p.
            ap (λ l. count p (acked l) + count p (flow (sending c s1))) sent
            ∙ ap (λ q. count p (acked (c ∷ s.sent)) + count p q) (flow-sending c s1)
            ∙ count-moved p f (acked s.sent) (flow s) (flow s1) t.0;
        shorter = omega (arith, ap length (flow-sending c s1), ap length t.0);
        remembers = λ h e.
            ap (λ l. elem h (ended_hashes l)) sent ∙ elem-ended_by h f (ended_hashes s.sent) e;
      },
      ap requests sent,
    )

-- Any other command.
pub sending-Kept : (c : Command) (s : FetchState) → leaf_of c ≡ none → Kept s (sending c s)
unfolding accounted acked ended_hashes
sending-Kept c s e = record {
  accounts = λ p.
      ap (λ l. count p (acked l) + count p (flow (sending c s))) (sending-sent c s)
      ∙ ap (λ q. count p (acked (c ∷ s.sent)) + count p q) (flow-sending c s)
      ∙ ap (λ o. count p (maybe o (acked s.sent) (λ f. f ∷ acked s.sent)) + count p (flow s)) e;
  shorter = omega (arith, ap length (flow-sending c s));
  remembers = λ h d.
      ap (λ l. elem h (ended_hashes l)) (sending-sent c s)
      ∙ ap (λ o. elem h (maybe o (ended_hashes s.sent) (λ f. ended_by f (ended_hashes s.sent)))) e
      ∙ d;
}

pub requests-sending :
    (c : Command) (s : FetchState)
    → requests (sending c s).sent
      ≡ maybe (request_of c) (requests s.sent) (λ h. h ∷ requests s.sent)
unfolding requests
requests-sending c s = ap requests (sending-sent c s)

-- A frame that goes back to the end of the queue.
pushed-Quiet :
    (s : FetchState) (f : Leaf) (rest : List Leaf)
    → f ∷ rest ≡ s.comm_queue
    → Quiet s (record s { comm_queue = rest ++ f ∷ [] })
unfolding accounted flow count
pushed-Quiet s f rest e =
    let c = frames_coming s.coming in
    (
      record {
        accounts = λ p. ground (
          arith,
          ap (count p) e,
          count-append p rest (f ∷ []),
          count-append p (rest ++ f ∷ []) c,
          count-append p s.comm_queue c,
        );
        shorter = omega (
          arith,
          ap length e,
          length-append rest (f ∷ []),
          length-append (rest ++ f ∷ []) c,
          length-append s.comm_queue c,
        );
        remembers = λ h d. d;
      },
      refl,
    )

drain_step-Quiet :
    (again : FetchState → Ended Unit) (current_hash : ℕ) (q : List Leaf) (s : FetchState)
    → q ≡ s.comm_queue
    → ((s' : FetchState)
        → suc (length (flow s')) ≤ length (flow s)
        → Post (λ _. Quiet s') (Quiet s') (again s'))
    → Post (λ _. Quiet s) (Quiet s) (drain_step again current_hash q s)
unfolding drain_step flow
drain_step-Quiet again c [] s e ih = (Kept-refl s, refl)
drain_step-Quiet again c (f ∷ rest) s e ih =
    let s1 : FetchState = record s { comm_queue = rest } in
    let s2 = sending (ack_frame f) s1 in
    let here = acking-Quiet s s1 f (ap (λ q. q ++ frames_coming s.coming) e, refl) in
    let shorter : suc (length (flow s2)) ≤ length (flow s) = omega (
      arith,
      ap length (flow-sending (ack_frame f) s1),
      ap (λ (l : List Leaf). length (l ++ frames_coming s.coming)) e,
    ) in
    if-Post (λ _. Quiet s) (Quiet s) (belongs_to c f) _ _
      (λ b.
        send-bind (λ _. Quiet s) (Quiet s) (ack_frame f) s1 (λ _. again) here
          (Post-mono (λ _. Quiet s2) (λ _. Quiet s) (Quiet s2) (Quiet s) (again s2)
            (λ _ s' k. Quiet-trans here k) (λ s' k. Quiet-trans here k) (ih s2 shorter)))
      (λ b. pushed-Quiet s f rest e)

none_queued : (q c : List Leaf) → length (q ++ c) ≤ 0 → is_empty q ≡ false → ⊥
none_queued [] c le e = cc
none_queued (f ∷ q) c le e = omega (arith, le)

-- Enough fuel for the frames that can still come.
pub drain-Quiet :
    (fuel current_hash : ℕ) (s : FetchState)
    → length (flow s) ≤ fuel
    → Post (λ _. Quiet s) (Quiet s) (drain fuel current_hash s)
unfolding drain flow
drain-Quiet zero c s le =
    if-Post (λ _. Quiet s) (Quiet s) (is_empty s.comm_queue) _ _ (λ e. (Kept-refl s, refl))
      (λ e. absurd (none_queued s.comm_queue (frames_coming s.coming) le e))
drain-Quiet (suc fuel) c s le =
    drain_step-Quiet (drain fuel c) c s.comm_queue s refl
      (λ s' lt. drain-Quiet fuel c s' (omega (arith, le, lt)))
