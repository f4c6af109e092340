-- ===== src/Messaging/MowPath/Complete.antt =====
-- What has been requested and what is held when the cover paths have been fetched.
use py_mammotion.Base.{
  ℕ, zero, suc, ◌+◌, ◌-◌, ◌≡◌, refl, sym, ap, subst, ◌∙◌, true, false, not, List, [], ◌∷◌, ◌++◌,
  nat_keys, filter, is_empty, arith,
}
use mathlib.Core.List.{append_assoc, append-nil}
use py_mammotion.HashList.Frames.{NavGetHashListData}
use py_mammotion.HashList.Store.{HashList}
use py_mammotion.HashList.MowPaths.{
  find_missing_mow_path_frames, has_mow_path_for_hash, AllComplete, missing_in-AllComplete,
}
use py_mammotion.Messaging.MapFetch.{head_or, tail}
use py_mammotion.Messaging.MowPath.Invariant.{
  IfFetched, IfFetched-bind, arrive-sent, send-IfFetched, LoopInvariant, collect-IfFetched,
}
use py_mammotion.Messaging.MowPath.{
  PathCommand, todev_ble_sync, get_line_info_list, PathState, PathEnd, fetched, timed_out, raised,
  ◌>>=◌, silence, send, request_batch, split_batches, hash_batches, run_batches, missing_hashes,
  line_frames, frames_in_order, nonzero_hashes, fetch_missing, fetch_cover_paths,
}

-- No frame of the map is missing, and nothing more has been sent.
abbrev Done : List PathCommand → PathState → Type 0
Done sent s = (is_empty (find_missing_mow_path_frames s.map) ≡ true) × (s.sent ≡ sent)

loop-Done : (sent : List PathCommand) → LoopInvariant (λ _ _ s. s.sent ≡ sent) (Done sent)
loop-Done sent = record {
  arrives = λ a coming s e. arrive-sent a.arrivals _ ∙ e;
  dropped = λ p coming queue s e. e;
  kept = λ p coming queue s e. e;
  done = λ p coming queue s e done. (done, e);
}

request_batch-Done :
    (t : ℕ) (b : List ℕ) (s : PathState)
    → IfFetched (Done (get_line_info_list b t ∷ s.sent)) (request_batch t b s)
unfolding request_batch
request_batch-Done t b s =
    let command = get_line_info_list b t in
    let asked = record s { current_run_tx_ids = t ∷ s.current_run_tx_ids } in
    IfFetched-bind (λ s'. s'.sent ≡ command ∷ s.sent) (Done (command ∷ s.sent)) (send command asked)
      _
      (send-IfFetched (λ s'. s'.sent ≡ command ∷ s.sent) command asked
        (arrive-sent (head_or silence s.coming).arrivals
          (record asked { sent = command ∷ s.sent; coming = tail s.coming })))
      λ s' e. collect-IfFetched _ _ (loop-Done (command ∷ s.sent)) s'.coming s' _ 0 e

-- The hashes that the commands ask for, in order.
unfoldable pub requested : List PathCommand → List ℕ
requested [] = []
requested (todev_ble_sync ∷ sent) = requested sent
requested (get_line_info_list b t ∷ sent) = requested sent ++ b

flat : List (List ℕ) → List ℕ
flat [] = []
flat (b ∷ batches) = b ++ flat batches

flat-split_batches :
    (size room : ℕ) (l : List ℕ)
    → (split_batches size room l).0 ++ flat (split_batches size room l).1 ≡ l
unfolding split_batches flat
flat-split_batches size room [] = refl
flat-split_batches size zero (h ∷ l) = ap (λ r. h ∷ r) (flat-split_batches size (size - 1) l)
flat-split_batches size (suc room) (h ∷ l) = ap (λ r. h ∷ r) (flat-split_batches size room l)

-- The batches have the hashes in order.
flat-hash_batches : (l : List ℕ) → flat (hash_batches l) ≡ l
unfolding hash_batches split_batches flat
flat-hash_batches [] = refl
flat-hash_batches (h ∷ l) = flat-split_batches 20 0 (h ∷ l)

-- Nothing is missing, and the given hashes have been requested since.
abbrev Got : PathState → List ℕ → PathState → Type 0
Got s l s' =
    (is_empty (find_missing_mow_path_frames s'.map) ≡ true)
    × (requested s'.sent ≡ requested s.sent ++ l)

Got-append :
    (s s' : PathState) (t : ℕ) (b l : List ℕ) (m : PathEnd)
    → s'.sent ≡ get_line_info_list b t ∷ s.sent
    → IfFetched (Got s' l) m
    → IfFetched (Got s (b ++ l)) m
unfolding IfFetched requested
Got-append s s' t b l (timed_out r) e h = tt
Got-append s s' t b l (raised x r) e h = tt
Got-append s s' t b l (fetched r) e h =
    (h.0, h.1 ∙ ap (λ c. requested c ++ l) e ∙ append_assoc (requested s.sent) b l)

module _ (clock : ℕ → ℕ) where
  run_batches-Got :
      (i : ℕ) (batches : List (List ℕ)) (s : PathState)
      → (is_empty batches ≡ true → is_empty (find_missing_mow_path_frames s.map) ≡ true)
      → IfFetched (Got s (flat batches)) (run_batches clock i batches s)
  unfolding run_batches flat IfFetched
  run_batches-Got i [] s h = (h refl, sym (append-nil (requested s.sent)))
  run_batches-Got i (b ∷ batches) s h =
      IfFetched-bind (Done (get_line_info_list b (clock i) ∷ s.sent)) (Got s (b ++ flat batches))
        (request_batch (clock i) b s) _ (request_batch-Done (clock i) b s)
        λ s' d.
          Got-append s s' (clock i) b (flat batches) _ d.1
            (run_batches-Got (i + 1) batches s' (λ _. d.0))

pub filled : (l : List ℕ) → is_empty l ≡ false → is_empty (hash_batches l) ≡ false
unfolding hash_batches split_batches
filled [] e = e
filled (h ∷ l) e = refl

Got-sync :
    (s r : PathState) (l : List ℕ) (m : PathEnd)
    → r.sent ≡ todev_ble_sync ∷ s.sent
    → IfFetched (Got r (flat (hash_batches l))) m
    → IfFetched (Got s l) m
unfolding IfFetched requested
Got-sync s r l (timed_out r') e h = tt
Got-sync s r l (raised x r') e h = tt
Got-sync s r l (fetched r') e h = (
  h.0,
  h.1
      ∙ ap (λ c. requested c ++ flat (hash_batches l)) e
      ∙ ap (λ c. requested s.sent ++ c) (flat-hash_batches l),
)

-- The result has every frame of every transaction, and every line hash without a cover path has been
-- requested since the given state.
abbrev pub Fetched : PathState → PathState → Type 0
Fetched s s' =
    AllComplete s'.result
    × (s'.result ≡ s'.map.current_mow_path)
    × (requested s'.sent ≡ requested s.sent ++ missing_hashes s.map)

no_hashes :
    (h : HashList) (l : List NavGetHashListData)
    → is_empty l ≡ true
    → is_empty
        (filter (λ id. not (has_mow_path_for_hash h id)) (nonzero_hashes (frames_in_order l)))
      ≡ true
unfolding nonzero_hashes frames_in_order filter
no_hashes h [] e = refl
no_hashes h (x ∷ l) e = absurd (ground (arith, e))

no_frames : (h : HashList) → is_empty (line_frames h) ≡ true → is_empty (missing_hashes h) ≡ true
unfolding missing_hashes
no_frames h = no_hashes h (line_frames h)

pub fetch_cover_paths-missing :
    (clock : ℕ → ℕ) (s : PathState)
    → is_empty (missing_hashes s.map) ≡ false
    → fetch_cover_paths clock s ≡ fetch_missing clock s
unfolding fetch_cover_paths
fetch_cover_paths-missing clock s e = grind (arith, e, no_frames s.map)

module _ (clock : ℕ → ℕ) where
  fetch_missing-Fetched :
      (s : PathState)
      → is_empty (missing_hashes s.map) ≡ false
      → IfFetched (Fetched s) (fetch_missing clock s)
  unfolding fetch_missing IfFetched find_missing_mow_path_frames
  fetch_missing-Fetched s e =
      let l = missing_hashes s.map in
      let s0 = record s { path_queue = []; current_run_tx_ids = [] } in
      let run = run_batches clock 0 (hash_batches l) in
      IfFetched-bind (Got s l) (Fetched s) (send todev_ble_sync s0 >>= run) _
        (IfFetched-bind (λ r. r.sent ≡ todev_ble_sync ∷ s.sent) (Got s l) (send todev_ble_sync s0)
          run
          (send-IfFetched (λ r. r.sent ≡ todev_ble_sync ∷ s.sent) todev_ble_sync s0
            (arrive-sent (head_or silence s.coming).arrivals
              (record s0 { sent = todev_ble_sync ∷ s.sent; coming = tail s.coming })))
          λ r sent. Got-sync s r l (run r) sent (
            run_batches-Got clock 0 (hash_batches l) r
              λ none_left. absurd (ground (arith, none_left, filled l e))))
        λ r got. (missing_in-AllComplete r.map.current_mow_path got.0, refl, got.1)

  -- If some non-zero hash of the line hash list has no cover path in the map, and fetch_cover_paths
  -- ends without an exception, whatever has come from the device, then its result is the cover
  -- paths of the map, each transaction in it has every frame from 1 to the total that its first
  -- held frame states, and exactly the hashes without a cover path have been requested since, in
  -- order.
  pub fetch_cover_paths-Fetched :
      (s : PathState)
      → is_empty (missing_hashes s.map) ≡ false
      → IfFetched (Fetched s) (fetch_cover_paths clock s)
  fetch_cover_paths-Fetched s e =
      subst (IfFetched (Fetched s)) (sym (fetch_cover_paths-missing clock s e))
        (fetch_missing-Fetched s e)
