-- ===== src/Messaging/MowPath/Invariant.antt =====
-- Invariants of a fetch of cover paths.
use py_mammotion.Base.{
  maybe, ℕ, ◌+◌, ◌≡◌, refl, Bool, true, false, not, Option, none, some, List, [], ◌∷◌, nat_keys,
  if◌then◌else◌, ltb, leb, elem, is_empty,
}
use py_mammotion.Base.Dict.{erase}
use py_mammotion.HashList.Store.{MowPath}
use py_mammotion.HashList.MowPaths.{find_missing_mow_path_frames}
use py_mammotion.Messaging.MapFetch.{Raise, head_or, tail}
use py_mammotion.Messaging.MowPath.{
  PathArrival, cover_path_upload, other_message, PathAwait, PathCommand, PathState, PathEnd,
  fetched, timed_out, raised, ◌>>=◌, arrive, silence, send, no_progress_limit, handle_frame,
  collect_queued, next_frame, collect, missing_frame_count,
}

-- What holds of the state of a fetch that ends without an exception.
unfoldable pub IfFetched : (PathState → Type 0) → PathEnd → Type 0
IfFetched Q (fetched s) = Q s
IfFetched Q (timed_out s) = Unit
IfFetched Q (raised e s) = Unit

module _ (P Q : PathState → Type 0) where
  pub IfFetched-bind :
      (m : PathEnd) (k : PathState → PathEnd)
      → IfFetched P m
      → ((s : PathState) → P s → IfFetched Q (k s))
      → IfFetched Q (m >>= k)
  unfolding ◌>>=◌ IfFetched
  IfFetched-bind (fetched s) k h next = next s h
  IfFetched-bind (timed_out s) k h next = tt
  IfFetched-bind (raised e s) k h next = tt

-- The state after a send, with what has come in the meantime.
abbrev pub after_send : PathCommand → PathState → PathState
after_send c s =
    arrive (head_or silence s.coming).arrivals
      (record s { sent = c ∷ s.sent; coming = tail s.coming })

pub arrive-sent : (l : List PathArrival) (s : PathState) → (arrive l s).sent ≡ s.sent
unfolding arrive
arrive-sent [] s = refl
arrive-sent (cover_path_upload p ∷ more) s = arrive-sent more _
arrive-sent (other_message g ∷ more) s = arrive-sent more _

abbrev pub without_queued : MowPath → List MowPath → PathState → PathState
without_queued p queue s = record s {
  path_queue = queue;
  map = record s.map { current_mow_path = erase p.transaction_id s.map.current_mow_path };
}

module _ (Q : PathState → Type 0) where
  if-IfFetched :
      (b : Bool) (x y : PathEnd)
      → (b ≡ true → IfFetched Q x)
      → (b ≡ false → IfFetched Q y)
      → IfFetched Q (if b then x else y)
  if-IfFetched true x y h k = h refl
  if-IfFetched false x y h k = k refl

  arrived-IfFetched :
      (r : Option Raise) (s : PathState) → Q s → IfFetched Q (maybe r (fetched s) (λ e. raised e s))
  unfolding maybe IfFetched
  arrived-IfFetched none s h = h
  arrived-IfFetched (some e) s h = tt

  pub send-IfFetched :
      (c : PathCommand) (s : PathState) → Q (after_send c s) → IfFetched Q (send c s)
  unfolding send
  send-IfFetched c s h = arrived-IfFetched (head_or silence s.coming).send_raises (after_send c s) h

  handle_frame-IfFetched :
      (p : MowPath) (queue : List MowPath) (s : PathState) (m n : ℕ)
      (loop : PathState → ℕ → ℕ → PathEnd)
      → IfFetched Q (loop (without_queued p queue s) m n)
      → ((i j : ℕ) → IfFetched Q (loop (record s { path_queue = queue }) i j))
      → (is_empty (find_missing_mow_path_frames s.map) ≡ true → Q (record s { path_queue = queue }))
      → IfFetched Q (handle_frame p (record s { path_queue = queue }) m n loop)
  unfolding handle_frame IfFetched
  handle_frame-IfFetched p queue s m n loop dropped kept done =
      let s' = record s { path_queue = queue } in
      let stalled = if ltb (missing_frame_count s) m then 0 else n + 1 in
      let more = loop s' (missing_frame_count s) stalled in
      let complete = is_empty (find_missing_mow_path_frames s.map) in
      let accept = if complete then fetched s' else more in
      let guarded = if leb no_progress_limit stalled then timed_out s' else accept in
      if-IfFetched (not (elem p.transaction_id s.current_run_tx_ids)) _ guarded (λ _. dropped)
        λ _.
          if-IfFetched (leb no_progress_limit stalled) (timed_out s') accept (λ _. tt)
            λ _. if-IfFetched complete (fetched s') more done λ _. kept _ _

-- What each turn of the loop keeps, by the awaits that are left and the queue, and what it gives.
pub record LoopInvariant (I : List PathAwait → List MowPath → PathState → Type 0)
    (Q : PathState → Type 0) : Type 0 where
  pub arrives :
      (a : PathAwait) (coming : List PathAwait) (s : PathState)
      → I (a ∷ coming) s.path_queue s
      → I coming
          (arrive a.arrivals (record s { coming = coming })).path_queue
          (arrive a.arrivals (record s { coming = coming }))
  pub dropped :
      (p : MowPath) (coming : List PathAwait) (queue : List MowPath) (s : PathState)
      → I coming (p ∷ queue) s
      → I coming queue (without_queued p queue s)
  pub kept :
      (p : MowPath) (coming : List PathAwait) (queue : List MowPath) (s : PathState)
      → I coming (p ∷ queue) s
      → I coming queue (record s { path_queue = queue })
  pub done :
      (p : MowPath) (coming : List PathAwait) (queue : List MowPath) (s : PathState)
      → I coming (p ∷ queue) s
      → is_empty (find_missing_mow_path_frames s.map) ≡ true
      → Q (record s { path_queue = queue })

module _ (I : List PathAwait → List MowPath → PathState → Type 0) (Q : PathState → Type 0)
    (w : LoopInvariant I Q) where
  collect_queued-IfFetched :
      (queue : List MowPath) (s : PathState) (m n : ℕ)
      → I [] queue s
      → IfFetched Q (collect_queued queue s m n)
  unfolding collect_queued IfFetched
  collect_queued-IfFetched [] s m n h = tt
  collect_queued-IfFetched (p ∷ queue) s m n h =
      handle_frame-IfFetched Q p queue s m n (collect_queued queue)
        (collect_queued-IfFetched queue _ m n (w.dropped p [] queue s h))
        (λ i j. collect_queued-IfFetched queue _ i j (w.kept p [] queue s h))
        (w.done p [] queue s h)

  next_frame-IfFetched :
      (coming : List PathAwait) (queue : List MowPath) (s : PathState) (m n : ℕ)
      → ((s' : PathState) (i j : ℕ)
          → I coming s'.path_queue s'
          → IfFetched Q (collect coming s' i j))
      → I coming queue s
      → IfFetched Q (next_frame queue s m n (collect coming))
  unfolding next_frame IfFetched
  next_frame-IfFetched coming [] s m n more h = tt
  next_frame-IfFetched coming (p ∷ queue) s m n more h =
      handle_frame-IfFetched Q p queue s m n (collect coming)
        (more _ m n (w.dropped p coming queue s h)) (λ i j. more _ i j (w.kept p coming queue s h))
        (w.done p coming queue s h)

  pub collect-IfFetched :
      (coming : List PathAwait) (s : PathState) (m n : ℕ)
      → I coming s.path_queue s
      → IfFetched Q (collect coming s m n)
  unfolding collect
  collect-IfFetched [] s m n h = collect_queued-IfFetched s.path_queue s m n h
  collect-IfFetched (a ∷ coming) s m n h =
      next_frame-IfFetched coming _ _ m n (collect-IfFetched coming) (w.arrives a coming s h)
