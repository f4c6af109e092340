-- ===== src/Messaging/MapFetch/Run/Unasked.antt =====
-- The steps of a run before step 4 ask for no hash data.
use py_mammotion.Base.{maybe, ◌≡◌, refl, ap, ◌∙◌, ◌||◌, Option, none, some, List, [], ◌∷◌, nat_keys}
use py_mammotion.HashList.Frames.{NavGetHashListData}
use py_mammotion.HashList.Receive.{update_root_hash_list}
use py_mammotion.HashList.Store.{AreaHashNameList}
use py_mammotion.Messaging.Transfers.{StreamEnd, Stream, collected, timed_out}
use py_mammotion.Messaging.MapFetch.{
  Leaf, Command, todev_ble_sync, get_area_name_list, get_all_boundary_hash_list, get_hash_response,
  synchronize_hash_data, ack_frame, FetchState, Ended, ok, raised, no_fuel, Raise, interruption,
  other_error, ◌>>=◌, waited, head_or, tail, silence, send, flow, Progress, first_request,
  fetch_loop, fetch_comm_data,
}
use py_mammotion.Messaging.MapFetch as MapFetch
use py_mammotion.Messaging.MapFetch.Sends.{
  Post, Post-bind, if-Post, sending, send-bind, waited-sent,
}
use py_mammotion.Messaging.MapFetch.Drained.{request_of, requests, requests-sending}
use py_mammotion.Messaging.MapFetch.Run.{
  Config, set_map, store_names, names_reply, fetch_names, ack_roots, roots_end, take_roots,
  roots_stream, fetch_roots,
}

-- No request for the data of a hash has been sent.
abbrev pub Unasked : FetchState → Type 0
Unasked s = requests s.sent ≡ []

pub asking-Unasked :
    (c : Command) (s : FetchState) → request_of c ≡ none → Unasked s → Unasked (sending c s)
unfolding maybe
asking-Unasked c s e r =
    requests-sending c s ∙ ap (λ o. maybe o (requests s.sent) (λ h. h ∷ requests s.sent)) e ∙ r

abbrev pub StaysUnasked : Ended Unit → Type 0
StaysUnasked = Post (λ _. Unasked) Unasked

asks_first :
    (c : Command) (s : FetchState) (k : Unit → FetchState → Ended Unit)
    → request_of c ≡ none
    → Unasked s
    → ((s' : FetchState) → Unasked s' → StaysUnasked (k tt s'))
    → StaysUnasked (send c s >>= k)
asks_first c s k e r f =
    let r' = asking-Unasked c s e r in
    send-bind (λ _. Unasked) Unasked c s k r' (f (sending c s) r')

store_names-Unasked :
    (l : List AreaHashNameList) (s : FetchState) → Unasked s → Unasked (store_names l s)
unfolding store_names set_map
store_names-Unasked [] s r = r
store_names-Unasked (a ∷ l) s r = r

reply-Unasked :
    (o : Option (List AreaHashNameList)) (s : FetchState)
    → Unasked s
    → StaysUnasked (maybe o (MapFetch.timed_out s) (λ names. ok tt (store_names names s)))
unfolding maybe
reply-Unasked none s r = r
reply-Unasked (some l) s r = store_names-Unasked l s r

names_reply-Unasked : (s : FetchState) → Unasked s → StaysUnasked (names_reply s)
unfolding names_reply
names_reply-Unasked s r =
    reply-Unasked (head_or silence s.coming).reply (waited s) (ap requests (waited-sent s) ∙ r)

pub fetch_names-Unasked : (c : Config) (s : FetchState) → Unasked s → StaysUnasked (fetch_names c s)
unfolding fetch_names
fetch_names-Unasked c s r =
    if-Post (λ _. Unasked) Unasked (c.is_luba1 || c.skip_area_names) _ _ (λ _. r)
      (λ _. asks_first get_area_name_list s (λ _. names_reply) refl r names_reply-Unasked)

ack_roots-Unasked :
    (l : List NavGetHashListData) (s : FetchState) → Unasked s → StaysUnasked (ack_roots l s)
unfolding ack_roots set_map
ack_roots-Unasked [] s r = r
ack_roots-Unasked (d ∷ l) s r =
    asks_first (get_hash_response d) (set_map (update_root_hash_list s.map d) s) (λ _. ack_roots l)
      refl r (ack_roots-Unasked l)

roots_end-Unasked :
    (e : StreamEnd NavGetHashListData) (s : FetchState) → Unasked s → StaysUnasked (roots_end e s)
unfolding roots_end
roots_end-Unasked (collected frames) s r = r
roots_end-Unasked (timed_out n) s r = r

take_roots-Unasked :
    (r : Stream NavGetHashListData) (s : FetchState) → Unasked s → StaysUnasked (take_roots r s)
unfolding take_roots
take_roots-Unasked r s u =
    Post-bind (λ _. Unasked) (λ _. Unasked) Unasked (ack_roots r.acked s) (λ _. roots_end r.end)
      (ack_roots-Unasked r.acked s u) (λ _ s'. roots_end-Unasked r.end s')

pub fetch_roots-Unasked : (s : FetchState) → Unasked s → StaysUnasked (fetch_roots s)
unfolding fetch_roots
fetch_roots-Unasked s u =
    asks_first get_all_boundary_hash_list s _ refl u
      (λ s' u'. take_roots-Unasked (roots_stream s') (record s' { manifest = tail s'.manifest }) u')
