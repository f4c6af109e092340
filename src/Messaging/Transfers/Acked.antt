-- ===== src/Messaging/Transfers/Acked.antt =====
-- Which frames `ack_stream` acks.
use py_mammotion.Base.{
  ◌≡◌, refl, ap, Bool, Option, none, some, List, [], ◌∷◌, ◌++◌, map, ℕ, Bool-cases, inl, inr,
  nat_keys,
}
use py_mammotion.Base.Dict.{Dict, insert}
use py_mammotion.Messaging.Transfers.{StreamFrame, stream_loop, ack_stream, is_done}

module _ {F : Type 0} ⦃s : StreamFrame F⦄ where
  stream_loop-acked :
      (allow_empty : Bool) (frames : Dict ℕ F) (queue : List (Option F))
      → map some (stream_loop allow_empty frames queue).acked
          ++ (stream_loop allow_empty frames queue).left
        ≡ queue
  unfolding stream_loop
  stream_loop-acked allow_empty frames [] = refl
  stream_loop-acked allow_empty frames (none ∷ queue) = refl
  stream_loop-acked allow_empty frames (some f ∷ queue) =
      let frames' = insert (s.current_frame f) f frames in
      elim (Bool-cases (is_done f frames')) [
        | inl e ↦ rw e refl
        | inr e ↦ rw e (ap (λ q. some f ∷ q) (stream_loop-acked allow_empty frames' queue))
      ]

  -- Whatever comes, the frames that ack_stream acks, repetitions included, followed by the queue
  -- from where it stopped, are the queue it started with.
  pub ack_stream-acked :
      (allow_empty : Bool) (queue : List (Option F))
      → map some (ack_stream allow_empty queue).acked ++ (ack_stream allow_empty queue).left ≡ queue
  unfolding ack_stream
  ack_stream-acked allow_empty queue = stream_loop-acked allow_empty [] queue
