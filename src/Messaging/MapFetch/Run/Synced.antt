-- ===== src/Messaging/MapFetch/Run/Synced.antt =====
-- What a run of the saga leaves, and the saga as a whole.
use py_mammotion.Base.{
  maybe, ℕ, suc, ◌≡◌, ◌≢◌, ◌⊎◌, refl, sym, ap, subst, ◌∙◌, Bool, true, ◌&&◌, not, List, [], ◌∷◌,
  Bool-cases, inl, inr, arith, length, elem, nat_keys, is_empty,
}
use py_mammotion.HashList.Update.{invalidate_maps}
use py_mammotion.HashList.Store.{HashList, bucket}
use py_mammotion.HashList.Queries.{find_incomplete_hashes, declared, is_incomplete, entries, tiles}
use py_mammotion.HashList.Queries.Sync.{Fetched, unreported-Fetched}
use py_mammotion.Messaging.Saga.{execute, finished, completed}
use py_mammotion.Messaging.Saga.Finished.{execute-finished}
use py_mammotion.Messaging.MapFetch.{
  Leaf, Command, todev_ble_sync, get_area_name_list, get_all_boundary_hash_list, get_hash_response,
  synchronize_hash_data, ack_frame, FetchState, Ended, ok, raised, no_fuel, Raise, interruption,
  other_error, ◌>>=◌, waited, head_or, tail, silence, send, flow, Progress, first_request,
  fetch_loop, fetch_comm_data,
}
use py_mammotion.Messaging.MapFetch as MapFetch
use py_mammotion.Messaging.MapFetch.Sends.{Post, Post-bind, Post-mono, sending, send-bind}
use py_mammotion.Messaging.MapFetch.Drained.{
  requests, ended_hashes, Kept, Kept-refl, Kept-trans, sending-Kept, requests-sending, accounted,
}
use py_mammotion.Messaging.MapFetch.Fetched.{
  Fetching, Stopped, Done, fetch_loop-Done, nil-elem, IsChanging, Newest,
}
use py_mammotion.Messaging.MapFetch.Run.{
  Config, set_map, fetch_names, fetch_roots, named, run, attempt, map_fetch,
}
use py_mammotion.Messaging.MapFetch.Run.Unasked.{
  Unasked, StaysUnasked, asking-Unasked, fetch_names-Unasked, fetch_roots-Unasked,
}

module _ (b : FetchState) (r : requests b.sent ≡ []) where
  first_request-Fetching :
      (l : List ℕ)
      → l ≡ find_incomplete_hashes b.map 0
      → Post (Fetching b) (Stopped b) (first_request l b)
  unfolding first_request maybe
  first_request-Fetching [] e = record {
    kept = Kept-refl b;
    addressed = λ h q. absurd (cc (nil-elem h [] refl));
    covered =
        λ _ h q. absurd (cc (nil-elem h (find_incomplete_hashes b.map 0) (ap is_empty (sym e))));
    changing = subst IsChanging (sym r) tt;
    newest = λ q. absurd (cc);
  }
  first_request-Fetching (h ∷ rest) e =
      let s1 = sending todev_ble_sync b in
      let s2 = sending (synchronize_hash_data h) s1 in
      let k1 : Kept b s1 = sending-Kept todev_ble_sync b refl in
      let k2 : Kept b s2 = Kept-trans k1 (sending-Kept (synchronize_hash_data h) s1 refl) in
      let r1 : requests s1.sent ≡ [] = requests-sending todev_ble_sync b ∙ r in
      let r2 : requests s2.sent ≡ h ∷ [] =
        requests-sending (synchronize_hash_data h) s1 ∙ ap (λ l. h ∷ l) r1 in
      let c2 : IsChanging (requests s2.sent) = subst IsChanging (sym r2) tt in
      send-bind (Fetching b) (Stopped b) todev_ble_sync b _ (k1, subst IsChanging (sym r1) tt)
        (send-bind (Fetching b) (Stopped b) (synchronize_hash_data h) s1 _ (k2, c2)
          (record {
            kept = k2;
            addressed = λ h' q. absurd (cc (nil-elem h' [] refl));
            covered = λ q. absurd (cc);
            changing = c2;
            newest = λ _. subst (Newest h) (sym r2) refl;
          }))

-- The state in which step 4 starts.
abbrev pub subscribed : FetchState → FetchState
subscribed s = record s { comm_queue = [] }

fetch_comm_data-Done :
    (s : FetchState)
    → requests s.sent ≡ []
    → Post (Done (subscribed s)) (Stopped (subscribed s)) (fetch_comm_data s)
unfolding fetch_comm_data
fetch_comm_data-Done s r =
    let b = subscribed s in
    Post-bind (Fetching b) (Done b) (Stopped b) (first_request (find_incomplete_hashes s.map 0) b) _
      (first_request-Fetching b r (find_incomplete_hashes s.map 0) refl)
      (λ p s' w. fetch_loop-Done b (suc (length (flow s'))) p s' (omega arith) w)

-- Every hash that is not fetched had its last frame acked.
abbrev Covers : FetchState → Type 0
Covers s =
    (h : ℕ) → elem h (find_incomplete_hashes s.map 0) ≡ true → elem h (ended_hashes s.sent) ≡ true

abbrev Settled : FetchState → Type 0
Settled s = IsChanging (requests s.sent)

Unasked-Settled : (s : FetchState) → Unasked s → Settled s
Unasked-Settled s r = subst IsChanging (sym r) tt

-- The names are no part of what is fetched.
find_incomplete_hashes-named :
    (h : HashList) → find_incomplete_hashes (named h) 0 ≡ find_incomplete_hashes h 0
unfolding named find_incomplete_hashes is_incomplete declared entries tiles bucket
find_incomplete_hashes-named h = elim (Bool-cases (is_empty h.area_name && not (is_empty h.area))) [
  | inl e ↦ rw e refl
  | inr e ↦ rw e refl
]

finish-Covers :
    (p : Progress) (b s : FetchState)
    → Done b p s
    → Covers (set_map (named s.map) s) × Settled (set_map (named s.map) s)
unfolding set_map
finish-Covers p b s d = (
  λ h e.
      d.0.addressed h
        (d.0.covered d.1 h (ap (elem h) (sym (find_incomplete_hashes-named s.map)) ∙ e)),
  d.0.changing,
)

abbrev Outcome : Ended Unit → Type 0
Outcome = Post (λ _ s. Covers s × Settled s) Settled

step4-Outcome :
    (s : FetchState)
    → Unasked s
    → Outcome (fetch_comm_data s >>= λ p s'. ok tt (set_map (named s'.map) s'))
step4-Outcome s r =
    Post-bind (Done (subscribed s)) (λ _ s'. Covers s' × Settled s') Settled (fetch_comm_data s) _
      (Post-mono (Done (subscribed s)) (Done (subscribed s)) (Stopped (subscribed s)) Settled
        (fetch_comm_data s) (λ p s' d. d) (λ s' d. d.1) (fetch_comm_data-Done s r))
      (λ p s' d. finish-Covers p (subscribed s) s' d)

-- The steps before step 4, as a whole.
goes_on :
    (m : Ended Unit) (k : Unit → FetchState → Ended Unit)
    → StaysUnasked m
    → ((s : FetchState) → Unasked s → Outcome (k tt s))
    → Outcome (m >>= k)
goes_on m k h f =
    Post-bind (λ _. Unasked) (λ _ s. Covers s × Settled s) Settled m k
      (Post-mono (λ _. Unasked) (λ _. Unasked) Unasked Settled m (λ _ s r. r) Unasked-Settled h)
      (λ _ s r. f s r)

run-Outcome : (c : Config) (s : FetchState) → Outcome (run c s)
unfolding run requests
run-Outcome c s =
    let s0 : FetchState = record s {
      map = invalidate_maps s.map s.bol_hash;
      sent = [];
      comm_queue = [];
    } in
    let s1 = sending todev_ble_sync s0 in
    let u1 : Unasked s1 = asking-Unasked todev_ble_sync s0 refl refl in
    send-bind (λ _ s'. Covers s' × Settled s') Settled todev_ble_sync s0 _ (Unasked-Settled s1 u1)
      (goes_on (fetch_names c s1) _ (fetch_names-Unasked c s1 u1)
        (λ s2 u2. goes_on (fetch_roots s2) _ (fetch_roots-Unasked s2 u2) step4-Outcome))

-- The state that a step leaves, however it ends.
abbrev pub state_of : {A : Type 0} → Ended A → FetchState
state_of (ok a s) = s
state_of (MapFetch.timed_out s) = s
state_of (raised e s) = s
state_of (no_fuel s) = s

Post-state_of :
    {A : Type 0} (P : A → FetchState → Type 0) (Q : FetchState → Type 0) (m : Ended A)
    → ((a : A) (s : FetchState) → P a s → Q s)
    → Post P Q m
    → Q (state_of m)
Post-state_of P Q (ok a s) f h = f a s h
Post-state_of P Q (MapFetch.timed_out s) f h = h
Post-state_of P Q (raised e s) f h = h
Post-state_of P Q (no_fuel s) f h = absurd h

-- However step 4 of the map saga ends, if no hash has been asked for before, then for every choice
-- of frames, as many of them are acked, queued or still to come as were before, so that no frame is
-- lost, none is acked twice, and none is left unacked but those in the queue.
pub fetch_comm_data-accounted :
    (s : FetchState) (p : Leaf → Bool)
    → requests s.sent ≡ []
    → accounted p (state_of (fetch_comm_data s)) ≡ accounted p (subscribed s)
fetch_comm_data-accounted s p r =
    Post-state_of (Done (subscribed s)) (λ s'. accounted p s' ≡ accounted p (subscribed s))
      (fetch_comm_data s) (λ q s' d. d.0.kept.accounts p)
      (Post-mono (Done (subscribed s)) (Done (subscribed s)) (Stopped (subscribed s)) _
        (fetch_comm_data s) (λ q s' d. d) (λ s' d. d.0.accounts p) (fetch_comm_data-Done s r))

-- However a run of the map saga ends, it never asks for the data of a hash twice in a row, which
-- would have the device start from its first frame.
pub run-IsChanging : (c : Config) (s : FetchState) → IsChanging (requests (state_of (run c s)).sent)
run-IsChanging c s =
    Post-state_of (λ _ s'. Covers s' × Settled s') Settled (run c s) (λ _ s' o. o.1)
      (run-Outcome c s)

out_of_fuel : (m : Ended Unit) (s : FetchState) → Outcome m → m ≢ no_fuel s
out_of_fuel (ok a s') s o = λ e. absurd (cc)
out_of_fuel (MapFetch.timed_out s') s o = λ e. absurd (cc)
out_of_fuel (raised x s') s o = λ e. absurd (cc)
out_of_fuel (no_fuel s') s o = absurd o

-- A run of the map saga ends, whatever comes from the device: the loop that fetches the hash data
-- and the drain of its queue stop by their own tests, by a timeout or by what a send raises, within
-- as many rounds as frames come.
pub run-no_fuel : (c : Config) (s s' : FetchState) → run c s ≢ no_fuel s'
run-no_fuel c s s' = out_of_fuel (run c s) s' (run-Outcome c s)

Covers-attempt : (m : Ended Unit) (s : FetchState) → Outcome m → attempt m ≡ completed s → Covers s
unfolding attempt
Covers-attempt (ok a s') s o e = let q : s' ≡ s = cc in subst Covers q o.0
Covers-attempt (MapFetch.timed_out s') s o e = absurd (cc)
Covers-attempt (raised interruption s') s o e = absurd (cc)
Covers-attempt (raised other_error s') s o e = absurd (cc)
Covers-attempt (no_fuel s') s o e = absurd o

-- If execute of the map saga finishes, whatever has come from the device, then every non-zero hash
-- ID that the area manifest in the map declares is fetched: complete frames of it are held, or
-- tiles, and no tile of it is partial; or a frame that claims to be the last one of it was acked in
-- the last run.
pub execute-Fetched :
    (c : Config) (fuel id : ℕ) (s s' : FetchState)
    → execute (map_fetch c) fuel s ≡ finished s'
    → id ≢ 0
    → elem id (declared s'.map 0) ≡ true
    → Fetched s'.map id ⊎ (elem id (ended_hashes s'.sent) ≡ true)
unfolding map_fetch
execute-Fetched c fuel id s s' e n d =
    let r = execute-finished (map_fetch c) s' fuel s e in
    elim (Bool-cases (elem id (find_incomplete_hashes s'.map 0))) [
      | inr out ↦ inl (unreported-Fetched s'.map id out n d)
      | inl left ↦ inr (Covers-attempt (run c r.0) s' (run-Outcome c r.0) r.1 id left)
    ]
