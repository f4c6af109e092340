-- ===== src/Messaging/MapFetch/Fetched.antt =====
-- The invariant of the loop of step 4.
use py_mammotion.Base.{
  maybe, ℕ, zero, suc, ◌<◌, ◌≡◌, refl, sym, ap, subst, ◌∙◌, true, false, not, List, [], ◌∷◌, arith,
  ◌==◌, length, elem, elem-filter, filter, nat_keys, is_empty, leb,
}
use py_mammotion.HashList.Queries.{find_incomplete_hashes}
use py_mammotion.Messaging.MapFetch.{
  Leaf, is_last, addresses, comm_data, svg_tile, synchronize_hash_data, ack_frame, FetchState,
  next_frame, flow, drain, Progress, addressed_by, addresses, in_scope, missing_frame,
  still_missing, counted, move_on, advance, complete, handle_frame, fetch_loop, no_progress_limit,
}
use py_mammotion.Messaging.MapFetch.Sends.{
  Post, Post-bind, Post-mono, if-Post, sending, send-bind, sending-sent, flow-sending, Taken,
  Waited, next_frame-Taken,
}
use py_mammotion.Messaging.MapFetch.Drained.{
  requests, ended_hashes, ended_by, Kept, Kept-refl, Kept-trans, Quiet, acking-Quiet, sending-Kept,
  requests-sending, drain-Quiet, accounted, acked, count,
}

-- No request follows one for the same hash.
abbrev pub IsChanging : List ℕ → Type 0
IsChanging [] = Unit
IsChanging (x ∷ []) = Unit
IsChanging (x ∷ y ∷ r) = (x == y ≡ false) × IsChanging (y ∷ r)

abbrev pub Newest : ℕ → List ℕ → Type 0
Newest h [] = ⊥
Newest h (x ∷ r) = x ≡ h

-- `b` is a state before.
pub record Fetching (b : FetchState) (p : Progress) (s : FetchState) : Type 0 where
  pub kept : Kept b s
  pub addressed : (h : ℕ) → elem h p.addressed_hashes ≡ true → elem h (ended_hashes s.sent) ≡ true
  pub covered :
      is_empty p.missing_hashes ≡ true
      → (h : ℕ) → elem h (find_incomplete_hashes s.map 0) ≡ true
      → elem h p.addressed_hashes ≡ true
  pub changing : IsChanging (requests s.sent)
  pub newest : is_empty p.missing_hashes ≡ false → Newest p.current_hash (requests s.sent)

abbrev pub Stopped : FetchState → FetchState → Type 0
Stopped b s = Kept b s × IsChanging (requests s.sent)

abbrev Onward : FetchState → FetchState → Progress → FetchState → Type 0
Onward b s p s' = Fetching b p s' × Kept s s'

pub IsChanging-cons :
    (h c : ℕ) (l : List ℕ) → h == c ≡ false → Newest c l → IsChanging l → IsChanging (h ∷ l)
IsChanging-cons h c [] e n w = absurd n
IsChanging-cons h c (x ∷ l) e n w = (subst (λ y. h == y ≡ false) (sym n) e, w)

pub nil-elem : (h : ℕ) (l : List ℕ) → is_empty l ≡ true → elem h l ≡ false
unfolding elem
nil-elem h [] e = refl
nil-elem h (x ∷ l) e = cc

module _ (b : FetchState) where
  stop : (p : Progress) (s s' : FetchState) → Fetching b p s → Quiet s s' → Stopped b s'
  stop p s s' w k = (Kept-trans w.kept k.0, subst IsChanging (sym k.1) w.changing)

  carry :
      (p : Progress) (s s' : FetchState)
      → is_empty p.missing_hashes ≡ false
      → Fetching b p s
      → Quiet s s'
      → Fetching b p s'
  carry p s s' more w k = record {
    kept = Kept-trans w.kept k.0;
    addressed = λ h e. k.0.remembers h (w.addressed h e);
    covered = λ e. absurd (cc);
    changing = subst IsChanging (sym k.1) w.changing;
    newest = λ e. subst (Newest p.current_hash) (sym k.1) (w.newest e);
  }

  elem-addressed_by :
      (h : ℕ) (f : Leaf) (l l' : List ℕ)
      → (elem h l ≡ true → elem h l' ≡ true)
      → elem h (addressed_by f l) ≡ true
      → elem h (ended_by f l') ≡ true
  unfolding addressed_by is_last addresses ended_by elem
  elem-addressed_by h (comm_data d) l l' k e = ground (arith, k)
  elem-addressed_by h (svg_tile d) l l' k e = ground (arith, k)

  move_on-Onward :
      (new : List ℕ) (p : Progress) (s : FetchState)
      → new ≡ p.missing_hashes
      → Kept b s
      → ((h : ℕ) → elem h p.addressed_hashes ≡ true → elem h (ended_hashes s.sent) ≡ true)
      → (is_empty new ≡ true
          → (h : ℕ) → elem h (find_incomplete_hashes s.map 0) ≡ true
          → elem h p.addressed_hashes ≡ true)
      → IsChanging (requests s.sent)
      → Newest p.current_hash (requests s.sent)
      → Post (Onward b s) (Stopped b) (move_on new p s)
  unfolding move_on maybe
  move_on-Onward [] p s e k a c ch n = (
    record { kept = k; addressed = a; covered = λ _. c refl; changing = ch; newest = λ _. n },
    Kept-refl s,
  )
  move_on-Onward (h ∷ rest) p s e k a c ch n =
      let s2 = sending (synchronize_hash_data h) s in
      let k2 : Kept s s2 = sending-Kept (synchronize_hash_data h) s refl in
      let asked : requests s2.sent ≡ h ∷ requests s.sent =
        requests-sending (synchronize_hash_data h) s in
      if-Post (Onward b s) (Stopped b) (h == p.current_hash) _ _
        (λ same. (
          record {
            kept = k;
            addressed = a;
            covered = λ q. absurd (cc (ap is_empty e));
            changing = ch;
            newest = λ _. n;
          },
          Kept-refl s,
        ))
        (λ other.
          let ch2 : IsChanging (requests s2.sent) =
            subst IsChanging (sym asked)
              (IsChanging-cons h p.current_hash (requests s.sent) other n ch) in
          send-bind (Onward b s) (Stopped b) (synchronize_hash_data h) s _ (Kept-trans k k2, ch2)
            (
              record {
                kept = Kept-trans k k2;
                addressed = λ x q. k2.remembers x (a x q);
                covered = λ q. absurd (cc (ap is_empty e));
                changing = ch2;
                newest = λ _. subst (Newest h) (sym asked) refl;
              },
              k2,
            ))

  -- A hash that is not missing any more is fetched or addressed.
  still_missing-nil :
      (s : FetchState) (l : List ℕ)
      → is_empty (still_missing s l) ≡ true
      → (h : ℕ) → elem h (find_incomplete_hashes s.map 0) ≡ true
      → elem h l ≡ true
  unfolding still_missing
  still_missing-nil s l e h i = ground (
    arith,
    elem-filter (λ x. not (elem x l)) h (find_incomplete_hashes s.map 0),
    nil-elem h (filter (λ x. not (elem x l)) (find_incomplete_hashes s.map 0)) e,
  )

  advance-Onward :
      (p : Progress) (s : FetchState)
      → is_empty p.missing_hashes ≡ false
      → Fetching b p s
      → Post (Onward b s) (Stopped b) (advance p s)
  unfolding advance
  advance-Onward p s more w =
      let new = still_missing s p.addressed_hashes in
      if-Post (Onward b s) (Stopped b) (leb no_progress_limit (counted new p)) _ _
        (λ _. (w.kept, w.changing))
        (λ _.
          move_on-Onward new (record p { missing_hashes = new; no_progress = counted new p }) s refl
            w.kept w.addressed (still_missing-nil s p.addressed_hashes) w.changing (w.newest more))

  complete-Onward :
      (f : Leaf) (p : Progress) (s : FetchState)
      → is_empty p.missing_hashes ≡ false
      → Fetching b p s
      → Post (Onward b s) (Stopped b) (complete f p s)
  unfolding complete
  complete-Onward f p s more w =
      if-Post (Onward b s) (Stopped b) (is_empty (missing_frame s.map f)) _ _
        (λ _.
          Post-bind (λ _. Quiet s) (Onward b s) (Stopped b)
            (drain (length (flow s)) p.current_hash s) (λ _. advance p)
            (Post-mono (λ _. Quiet s) (λ _. Quiet s) (Quiet s) (Stopped b)
              (drain (length (flow s)) p.current_hash s) (λ _ s' k. k) (λ s' k. stop p s s' w k)
              (drain-Quiet (length (flow s)) p.current_hash s (omega arith)))
            (λ _ s' k.
              Post-mono (Onward b s') (Onward b s) (Stopped b) (Stopped b) (advance p s')
                (λ p' s'' o. (o.0, Kept-trans k.0 o.1)) (λ s'' o. o)
                (advance-Onward p s' more (carry p s s' more w k))))
        (λ _. (w, Kept-refl s))

  -- The state after the ack, in which the frame's hashes are addressed.
  acked-Fetching :
      (f : Leaf) (p : Progress) (s s1 : FetchState)
      → is_empty p.missing_hashes ≡ false
      → Fetching b p s
      → Taken s f s1
      → Fetching b
          (record p { addressed_hashes = addressed_by f p.addressed_hashes })
          (sending (ack_frame f) s1)
  unfolding ended_hashes
  acked-Fetching f p s s1 more w t =
      let c = carry p s (sending (ack_frame f) s1) more w (acking-Quiet s s1 f t) in
      record {
        kept = c.kept;
        addressed = λ h e.
            ap (λ l. elem h (ended_hashes l))
              (sending-sent (ack_frame f) s1 ∙ ap (λ l. ack_frame f ∷ l) t.1)
            ∙ elem-addressed_by h f p.addressed_hashes (ended_hashes s.sent) (w.addressed h) e;
        covered = λ e. absurd (cc);
        changing = c.changing;
        newest = c.newest;
      }

  handle_frame-Onward :
      (p : Progress) (f : Leaf) (s s1 : FetchState)
      → is_empty p.missing_hashes ≡ false
      → Fetching b p s
      → Taken s f s1
      → Post (Onward b (sending (ack_frame f) s1)) (Stopped b) (handle_frame p f s1)
  unfolding handle_frame
  handle_frame-Onward p f s s1 more w t =
      let s2 = sending (ack_frame f) s1 in
      let k = acking-Quiet s s1 f t in
      send-bind (Onward b s2) (Stopped b) (ack_frame f) s1 _ (stop p s s2 w k) (
        if-Post (Onward b s2) (Stopped b) (in_scope f p.missing_hashes p.current_hash) _ _
          (λ _.
            complete-Onward f (record p { addressed_hashes = addressed_by f p.addressed_hashes }) s2
              more (acked-Fetching f p s s1 more w t))
          (λ _. (carry p s s2 more w k, Kept-refl s2)))

  abbrev pub Done : Progress → FetchState → Type 0
  Done p s = Fetching b p s × (is_empty p.missing_hashes ≡ true)

  Waited-Stopped : (p : Progress) (s s' : FetchState) → Fetching b p s → Waited s s' → Stopped b s'
  unfolding accounted
  Waited-Stopped p s s' w t = stop p s s' w (
    record {
      accounts = λ q. ground (arith, ap (λ l. count q (acked l)) t.1, ap (count q) t.0);
      shorter = omega (arith, ap length t.0);
      remembers = λ h e. ap (λ l. elem h (ended_hashes l)) t.1 ∙ e;
    },
    ap requests t.1,
  )

  pub fetch_loop-Done :
      (fuel : ℕ) (p : Progress) (s : FetchState)
      → length (flow s) < fuel
      → Fetching b p s
      → Post Done (Stopped b) (fetch_loop fuel p s)
  unfolding fetch_loop
  fetch_loop-Done zero p s lt w = absurd (omega (arith, lt))
  fetch_loop-Done (suc fuel) p s lt w =
      if-Post Done (Stopped b) (is_empty p.missing_hashes) _ _ (λ e. (w, e))
        (λ more.
          Post-bind (Taken s) Done (Stopped b) (next_frame s) _
            (Post-mono (Taken s) (Taken s) (Waited s) (Stopped b) (next_frame s) (λ f s' t. t)
              (λ s' t. Waited-Stopped p s s' w t) (next_frame-Taken s))
            (λ f s1 t.
              Post-bind (Onward b (sending (ack_frame f) s1)) Done (Stopped b) (handle_frame p f s1)
                (fetch_loop fuel) (handle_frame-Onward p f s s1 more w t)
                (λ p' s' o.
                  fetch_loop-Done fuel p' s'
                    (omega (
                      arith,
                      lt,
                      ap length t.0,
                      ap length (flow-sending (ack_frame f) s1),
                      o.1.shorter,
                    ))
                    o.0)))
