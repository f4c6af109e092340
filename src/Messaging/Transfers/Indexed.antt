-- ===== src/Messaging/Transfers/Indexed.antt =====
-- What `indexed_fetch` requests and yields.
use py_mammotion.Base.{
  ◌≡◌, refl, Option, some, List, [], ◌∷◌, ◌++◌, map, ℕ, zero, suc, ◌+◌, arith, length, nat_keys,
}
use py_mammotion.Messaging.Transfers.{fetched, fetch_loop, indexed_fetch}

abbrev pub indices : ℕ → ℕ → List ℕ
indices start zero = []
indices start (suc n) = start ∷ indices (start + 1) n

module _ {F : Type 0} where
  fetch_loop-fetched :
      (frames : List F) (index : ℕ) (more : List (Option F))
      → fetch_loop (length frames) index (map some frames ++ more)
        ≡ record { requested = indices index (length frames); yielded = frames; end = fetched }
  unfolding fetch_loop
  fetch_loop-fetched [] index more = refl
  fetch_loop-fetched (f ∷ frames) index more = rw (fetch_loop-fetched frames (index + 1) more) refl

  -- If the first answer states a total of one more than the readable answers that follow it, then
  -- indexed_fetch requests the indices from 0 below the total in order, yields every answer in
  -- order, and ends without a timeout.
  pub indexed_fetch-fetched :
      (total_of : F → ℕ) (first : F) (frames : List F) (more : List (Option F))
      → total_of first ≡ suc (length frames)
      → indexed_fetch total_of (some first ∷ map some frames ++ more) ≡ record {
        requested = indices 0 (suc (length frames));
        yielded = first ∷ frames;
        end = fetched;
      }
  unfolding indexed_fetch
  indexed_fetch-fetched total_of first frames more e =
      ground (arith, e, fetch_loop-fetched frames 1 more)
