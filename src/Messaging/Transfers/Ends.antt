-- ===== src/Messaging/Transfers/Ends.antt =====
-- How `ack_stream` ends when every frame of a transfer comes.
use py_mammotion.Base.{
  ◌≡◌, ◌≢◌, ◌⊎◌, true, false, not, some, List, [], ◌∷◌, ℕ, zero, suc, ◌+◌, ◌≤◌, ◌<◌, arith,
  Bool-cases, inl, inr, length, elem, map, filter, elem-filter, elem-append, All, length-filter-le,
  ◌==◌, nat_keys, eqb_iff,
}
use py_mammotion.Base.Dict.{Dict, keys, insert}
use py_mammotion.Base.Pigeonhole.{Between}
use py_mammotion.Messaging.Transfers.{
  StreamFrame, timed_out, stream_loop, ack_stream, quiet, is_done,
}
use py_mammotion.Messaging.Transfers.Holes.{keys-insert, length-keys}

others : ℕ → List ℕ → List ℕ
others a = filter (λ x. not (x == a))

length-others : (a : ℕ) (xs : List ℕ) → elem a xs ≡ true → length (others a xs) + 1 ≤ length xs
unfolding others elem filter
length-others a [] h = absurd (cc h)
length-others a (x ∷ xs) h =
    ground (arith, length-others a xs, length-filter-le (λ y. not (y == a)) xs)

elem-others : (a k : ℕ) (xs : List ℕ) → k < a → elem k xs ≡ true → elem k (others a xs) ≡ true
unfolding others
elem-others a k xs l h = ground (arith, elem-filter (λ x. not (x == a)) k xs, eqb_iff k a)

-- A list that has every number from 1 to `n` is at least that long.
enough : (n : ℕ) (xs : List ℕ) → ((k : ℕ) → Between n k → elem k xs ≡ true) → n ≤ length xs
enough zero xs h = omega arith
enough (suc n) xs h = omega (
  arith,
  length-others (suc n) xs (h (suc n) (omega arith, omega arith)),
  enough n (others (suc n) xs)
      (λ k b. elem-others (suc n) k xs (omega (arith, b.1)) (h k (b.0, omega (arith, b.1)))),
)

module _ {F : Type 0} ⦃s : StreamFrame F⦄ (total : ℕ) where
  stream_loop-ends :
      (frames : Dict ℕ F) (queue : List F)
      → length frames < total
      → ((k : ℕ)
          → Between total k
          → (elem k (keys frames) ≡ true) ⊎ (elem k (map s.current_frame queue) ≡ true))
      → All (λ f. s.total_frame f ≡ total) queue
      → (n : ℕ) → (stream_loop false frames (map some queue)).end ≢ timed_out n
  unfolding stream_loop quiet elem
  stream_loop-ends frames [] short h t n = absurd (
      omega (
        arith,
        short,
        length-keys frames,
        enough total (keys frames) (λ k b. ground (arith, h k b)),
      ))
  stream_loop-ends frames (f ∷ queue) short h t n =
      let frames' : Dict ℕ F = insert (s.current_frame f) f frames in
      elim (Bool-cases (is_done f frames')) [
        | inl done ↦ ground arith
        | inr more ↦ λ e.
            stream_loop-ends frames' queue (ground (arith, more, t.0, short))
              (λ k b. ground (
                arith,
                h k b,
                keys-insert (s.current_frame f) f frames,
                elem-append k (keys frames) (s.current_frame f ∷ []),
                eqb_iff (s.current_frame f) k,
              ))
              t.1 n (ground (arith, more, e))
      ]

  -- If readable frames come that all state one total above 0 and among which every number from 1 to
  -- the total occurs, in any order and with any repetitions, then ack_stream without allow_empty
  -- does not time out.
  pub ack_stream-ends :
      (queue : List F)
      → 0 < total
      → All (λ f. s.total_frame f ≡ total) queue
      → ((k : ℕ) → Between total k → elem k (map s.current_frame queue) ≡ true)
      → (n : ℕ) → (ack_stream false (map some queue)).end ≢ timed_out n
  unfolding ack_stream
  ack_stream-ends queue pos t h n = stream_loop-ends [] queue pos (λ k b. inr (h k b)) t n
