-- ===== src/Messaging/EdgeMapping/Whole.antt =====
-- What is held when a border has been mapped.
use py_mammotion.Base.{
  maybe, ℕ, ◌≡◌, refl, ap, ◌∙◌, Bool, true, false, ◌&&◌, not, Option, none, some, List, [], ◌∷◌,
  nat_keys, if◌then◌else◌, ltb, leb, filter, any, elem-filter, is_empty, nodup, All, arith,
}
use py_mammotion.Base.Dict.{
  Dict, keys, values, lookup, insert, contains, elem-keys, Each, Each-nil, Each-insert,
}
use py_mammotion.Base.Pigeonhole.{Between, elem_of_full}
use py_mammotion.HashList.Frames.{range}
use py_mammotion.HashList.Frames.Missing.{elem-range, empty_of_no_elem}
use py_mammotion.HashList.Store.{EdgePoints}
use py_mammotion.Messaging.Transfers.Holes.{IsFiled, insert-IsFiled, length-keys}
use py_mammotion.Messaging.MapFetch.{Raise}
use py_mammotion.Messaging.EdgeMapping.{
  NavEdgePoints, along_border, response_edgewise_mapping, Received, Attempt, EdgeState, EdgeEnd,
  mapped, timed_out, raised, is_complete, missing_frames, existing_for, accumulated, collect, run,
}

-- No number from 1 to a total above 0 is missing.
unfoldable pub is_whole : EdgePoints → Bool
is_whole e = ltb 0 e.total_frame && is_empty (missing_frames e)

-- Some hash of the result is whole, if the run has a result.
unfoldable pub HasWhole : EdgeEnd → Type 0
HasWhole (mapped s) = any is_whole (values s.result) ≡ true
HasWhole (timed_out s) = Unit
HasWhole (raised e s) = Unit

any-insert :
    (p : EdgePoints → Bool) (k : ℕ) (e : EdgePoints) (d : Dict ℕ EdgePoints)
    → p e ≡ true
    → any p (values (insert k e d)) ≡ true
unfolding any values insert
any-insert p k e [] h = ground (arith, h)
any-insert p k e ((j, x) ∷ d) h = ground (arith, h, any-insert p k e d h)

if-HasWhole :
    (b : Bool) (x y : EdgeEnd)
    → (b ≡ true → HasWhole x)
    → HasWhole y
    → HasWhole (if b then x else y)
if-HasWhole true x y h k = h refl
if-HasWhole false x y h k = k

maybe-HasWhole :
    (s : EdgeState) (o : Option Raise) (x : EdgeEnd)
    → HasWhole x
    → HasWhole (maybe o x (λ e. raised e s))
unfolding maybe HasWhole
maybe-HasWhole s none x h = h
maybe-HasWhole s (some r) x h = tt

module _ (total : ℕ) where
  -- A frame of a border of that many frames.
  abbrev pub IsNumbered : Received → Type 0
  IsNumbered r = (r.frame.total_frame ≡ total) × Between total r.frame.current_frame

  abbrev Filed : EdgePoints → Type 0
  Filed e = IsFiled total e.frames

  existing_for-Filed :
      (f : NavEdgePoints) (collected : Dict ℕ EdgePoints) (o : Option EdgePoints)
      → Each Filed collected
      → lookup f.hash collected ≡ o
      → Filed (existing_for f o)
  unfolding existing_for keys nodup
  existing_for-Filed f collected none each q = record { distinct = refl; in_range = tt }
  existing_for-Filed f collected (some e) each q = each f.hash e q

  accumulated-Filed :
      (f : NavEdgePoints) (collected : Dict ℕ EdgePoints)
      → Between total f.current_frame
      → Each Filed collected
      → Filed (accumulated f collected)
  unfolding accumulated
  accumulated-Filed f collected b each =
      insert-IsFiled total f.current_frame f.data_couple _ b
        (existing_for-Filed f collected (lookup f.hash collected) each refl)

  total_of :
      (f : NavEdgePoints) (o : Option EdgePoints) → (existing_for f o).total_frame ≡ f.total_frame
  unfolding existing_for
  total_of f none = refl
  total_of f (some e) = refl

  total_frame-accumulated :
      (f : NavEdgePoints) (collected : Dict ℕ EdgePoints)
      → (accumulated f collected).total_frame ≡ f.total_frame
  unfolding accumulated
  total_frame-accumulated f collected = total_of f (lookup f.hash collected)

  is_complete-is_whole :
      (e : EdgePoints) → e.total_frame ≡ total → Filed e → is_complete e ≡ true → is_whole e ≡ true
  unfolding is_complete is_whole missing_frames
  is_complete-is_whole e same w complete =
      let none_missing : filter (λ n. not (contains n e.frames)) (range 1 e.total_frame) ≡ [] =
        empty_of_no_elem _ λ k. ground (
          arith,
          same,
          elem-filter (λ n. not (contains n e.frames)) k (range 1 e.total_frame),
          elem-range k 1 e.total_frame,
          elem-keys k e.frames,
          length-keys e.frames,
          complete,
          elem_of_full total k (keys e.frames) w.distinct w.in_range,
        ) in
      ground (arith, complete, ap is_empty none_missing)

  collect-HasWhole :
      (l : List Received) (collected : Dict ℕ EdgePoints) (s : EdgeState)
      → All IsNumbered l
      → Each Filed collected
      → HasWhole (collect l collected s)
  unfolding collect HasWhole
  collect-HasWhole [] collected s numbered each = tt
  collect-HasWhole (r ∷ more) collected s numbered each =
      let existing = accumulated r.frame collected in
      let collected' = insert r.frame.hash existing collected in
      let s' = record s { sent = response_edgewise_mapping r.frame ∷ s.sent } in
      let done = mapped (record s' { result = collected' }) in
      let rest = collect more collected' s' in
      let last = leb r.frame.total_frame r.frame.current_frame && is_complete existing in
      let filed = accumulated-Filed r.frame collected numbered.0.1 each in
      maybe-HasWhole s r.ack_raises (if last then done else rest) (
        if-HasWhole last done rest
          (λ e. any-insert is_whole r.frame.hash existing collected (
            is_complete-is_whole existing (total_frame-accumulated r.frame collected ∙ numbered.0.0)
              filed (ground (arith, e))))
          (collect-HasWhole more collected' s' numbered.1
            (Each-insert Filed r.frame.hash existing collected filed each)))

  -- If every frame that a run of the edge saga receives states one total and has a number from 1 to
  -- it, and the run has a result, then for some hash of that result the total is above 0 and
  -- missing_frames is empty.
  pub run-HasWhole : (a : Attempt) (s : EdgeState) → All IsNumbered a.received → HasWhole (run a s)
  unfolding run
  run-HasWhole a s numbered =
      let s' = record s { result = [] } in
      let s1 = record s' { skip_start = true; sent = along_border ∷ s.sent } in
      if-HasWhole s.skip_start (collect a.received [] s') _
        (λ _. collect-HasWhole a.received [] s' numbered (Each-nil Filed))
        (maybe-HasWhole s' a.start_raises (collect a.received [] s1)
          (collect-HasWhole a.received [] s1 numbered (Each-nil Filed)))
