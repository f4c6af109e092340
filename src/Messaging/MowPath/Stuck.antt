-- ===== src/Messaging/MowPath/Stuck.antt =====
-- A transaction that an earlier run has left incomplete.
use py_mammotion.Base.{
  ℕ, ◌≡◌, refl, sym, subst, Bool, true, false, not, Option, none, some, List, [], ◌∷◌, ◌==◌,
  nat_keys, eqb_iff, is_empty, arith, All, All-append,
}
use py_mammotion.Base.Dict.{Dict, lookup, erase, lookup-insert, lookup-erase}
use py_mammotion.HashList.Store.{HashList, MowPath}
use py_mammotion.HashList.Receive.{update_mow_path}
use py_mammotion.HashList.MowPaths.{
  missing_of_transaction, missing_in, find_missing_mow_path_frames,
}
use py_mammotion.Messaging.MapFetch.{head_or, tail}
use py_mammotion.Messaging.MowPath.{
  PathArrival, cover_path_upload, other_message, PathAwait, PathCommand, todev_ble_sync,
  get_line_info_list, PathState, ◌>>=◌, arrive, silence, send, request_batch, hash_batches,
  run_batches, missing_hashes, fetch_missing, fetch_cover_paths,
}
use py_mammotion.Messaging.MowPath.Invariant.{
  IfFetched, IfFetched-bind, after_send, send-IfFetched, LoopInvariant, collect-IfFetched,
}
use py_mammotion.Messaging.MowPath.Complete.{filled, fetch_cover_paths-missing}

-- Frames of a transaction are held, and one is missing.
unfoldable pub is_gapped : Option (Dict ℕ MowPath) → Bool
is_gapped none = false
is_gapped (some frames) = not (is_empty (missing_of_transaction frames))

-- The transaction is gapped in the map.
abbrev pub IsGapped : ℕ → HashList → Type 0
IsGapped t h = is_gapped (lookup t h.current_mow_path) ≡ true

missing_in-gapped :
    (t : ℕ) (paths : Dict ℕ (Dict ℕ MowPath))
    → is_gapped (lookup t paths) ≡ true
    → is_empty (missing_in paths) ≡ false
unfolding missing_in lookup is_gapped
missing_in-gapped t [] g = absurd (ground (arith, g))
missing_in-gapped t ((j, frames) ∷ paths) g =
    ground (arith, g, eqb_iff j t, missing_in-gapped t paths)

erase-gapped :
    (t j : ℕ) (paths : Dict ℕ (Dict ℕ MowPath))
    → j == t ≡ false
    → is_gapped (lookup t paths) ≡ true
    → is_gapped (lookup t (erase j paths)) ≡ true
erase-gapped t j paths e g =
    subst (λ r. is_gapped r ≡ true) (sym (lookup-erase j t paths)) (ground (arith, e, g))

update_mow_path-IsGapped :
    (t : ℕ) (h : HashList) (p : MowPath)
    → p.transaction_id == t ≡ false
    → IsGapped t h
    → IsGapped t (update_mow_path h p)
unfolding update_mow_path
update_mow_path-IsGapped t h p e g =
    subst (λ r. is_gapped r ≡ true) (sym (lookup-insert p.transaction_id t _ h.current_mow_path))
      (ground (arith, e, g))

-- An arrival that has no frame of the transaction, and does not close the gap.
abbrev pub Passes : ℕ → PathArrival → Type 0
Passes t (cover_path_upload p) = p.transaction_id == t ≡ false
Passes t (other_message g) = (h : HashList) → IsGapped t h → IsGapped t (g h)

abbrev pub Foreign : ℕ → MowPath → Type 0
Foreign t p = p.transaction_id == t ≡ false

abbrev pub PassesAll : ℕ → PathAwait → Type 0
PassesAll t a = All (Passes t) a.arrivals

-- What a run keeps, by the awaits that are left and the queue.
abbrev Waiting : ℕ → List PathAwait → List MowPath → PathState → Type 0
Waiting t coming queue s = All (PassesAll t) coming × All (Foreign t) queue × IsGapped t s.map

arrive-Waiting :
    (t : ℕ) (l : List PathArrival) (s : PathState)
    → All (Passes t) l
    → All (Foreign t) s.path_queue
    → IsGapped t s.map
    → All (Foreign t) (arrive l s).path_queue × IsGapped t (arrive l s).map
unfolding arrive
arrive-Waiting t [] s w q g = (q, g)
arrive-Waiting t (cover_path_upload p ∷ more) s w q g =
    arrive-Waiting t more _ w.1 (All-append (Foreign t) s.path_queue (p ∷ []) q (w.0, tt))
      (update_mow_path-IsGapped t s.map p w.0 g)
arrive-Waiting t (other_message f ∷ more) s w q g = arrive-Waiting t more _ w.1 q (w.0 s.map g)

abbrev pub Never : PathState → Type 0
Never s = ⊥

loop-Waiting : (t : ℕ) → LoopInvariant (Waiting t) Never
unfolding find_missing_mow_path_frames
loop-Waiting t = record {
  arrives = λ a coming s w.
      let s' = record s { coming = coming } in
      let arrived = arrive-Waiting t a.arrivals s' w.0.0 w.1 w.2 in (w.0.1, arrived.0, arrived.1);
  dropped = λ p coming queue s w.
      (w.0, w.1.1, erase-gapped t p.transaction_id s.map.current_mow_path w.1.0 w.2);
  kept = λ p coming queue s w. (w.0, w.1.1, w.2);
  done = λ p coming queue s w e.
      absurd (ground (arith, e, missing_in-gapped t s.map.current_mow_path w.2));
}

-- The same of a state between two turns.
abbrev Waits : ℕ → PathState → Type 0
Waits t s = Waiting t s.coming s.path_queue s

first_and_rest :
    (t : ℕ) (coming : List PathAwait)
    → All (PassesAll t) coming
    → PassesAll t (head_or silence coming) × All (PassesAll t) (tail coming)
unfolding head_or tail
first_and_rest t [] w = (tt, tt)
first_and_rest t (a ∷ coming) w = w

arrive-coming : (l : List PathArrival) (s : PathState) → (arrive l s).coming ≡ s.coming
unfolding arrive
arrive-coming [] s = refl
arrive-coming (cover_path_upload p ∷ more) s = arrive-coming more _
arrive-coming (other_message g ∷ more) s = arrive-coming more _

after_send-Waits : (t : ℕ) (c : PathCommand) (s : PathState) → Waits t s → Waits t (after_send c s)
after_send-Waits t c s w =
    let s' = record s { sent = c ∷ s.sent; coming = tail s.coming } in
    let l = (head_or silence s.coming).arrivals in
    let split = first_and_rest t s.coming w.0 in
    let arrived = arrive-Waiting t l s' split.0 w.1 w.2 in
    (subst (All (PassesAll t)) (sym (arrive-coming l s')) split.1, arrived.0, arrived.1)

send-Waits : (t : ℕ) (c : PathCommand) (s : PathState) → Waits t s → IfFetched (Waits t) (send c s)
send-Waits t c s w = send-IfFetched (Waits t) c s (after_send-Waits t c s w)

request_batch-Never :
    (t i : ℕ) (b : List ℕ) (s : PathState) → Waits t s → IfFetched Never (request_batch i b s)
unfolding request_batch
request_batch-Never t i b s w =
    let asked = record s { current_run_tx_ids = i ∷ s.current_run_tx_ids } in
    IfFetched-bind (Waits t) Never (send (get_line_info_list b i) asked) _
      (send-Waits t (get_line_info_list b i) asked w)
      λ s' w'. collect-IfFetched (Waiting t) Never (loop-Waiting t) s'.coming s' _ 0 w'

run_batches-Never :
    (t : ℕ) (clock : ℕ → ℕ) (i : ℕ) (batches : List (List ℕ)) (s : PathState)
    → is_empty batches ≡ false
    → Waits t s
    → IfFetched Never (run_batches clock i batches s)
unfolding run_batches
run_batches-Never t clock i [] s e w = absurd (ground (arith, e))
run_batches-Never t clock i (b ∷ batches) s e w =
    IfFetched-bind Never Never (request_batch (clock i) b s) _
      (request_batch-Never t (clock i) b s w) λ s' never. absurd never

fetch_missing-Never :
    (t : ℕ) (clock : ℕ → ℕ) (s : PathState)
    → is_empty (missing_hashes s.map) ≡ false
    → All (PassesAll t) s.coming
    → IsGapped t s.map
    → IfFetched Never (fetch_missing clock s)
unfolding fetch_missing
fetch_missing-Never t clock s e passes gap =
    let s0 = record s { path_queue = []; current_run_tx_ids = [] } in
    let run = run_batches clock 0 (hash_batches (missing_hashes s.map)) in
    IfFetched-bind Never Never (send todev_ble_sync s0 >>= run) _
      (IfFetched-bind (Waits t) Never (send todev_ble_sync s0) run
        (send-Waits t todev_ble_sync s0 (passes, tt, gap))
        λ r w.
          run_batches-Never t clock 0 (hash_batches (missing_hashes s.map)) r
            (filled (missing_hashes s.map) e) w)
      λ r never. absurd never

-- If some non-zero hash of the line hash list has no cover path in the map, the map holds frames of
-- a transaction but lacks one up to the total that the first held frame states, and no frame of
-- that transaction and no message that closes the gap comes, then fetch_cover_paths never ends
-- without an exception, whichever frames it has asked for arrive.
pub fetch_cover_paths-gapped :
    (t : ℕ) (clock : ℕ → ℕ) (s : PathState)
    → is_empty (missing_hashes s.map) ≡ false
    → All (PassesAll t) s.coming
    → IsGapped t s.map
    → IfFetched Never (fetch_cover_paths clock s)
fetch_cover_paths-gapped t clock s e passes gap =
    subst (IfFetched Never) (sym (fetch_cover_paths-missing clock s e))
      (fetch_missing-Never t clock s e passes gap)
