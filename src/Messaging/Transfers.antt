-- ===== src/Messaging/Transfers.antt =====
-- pymammotion/messaging/transfers.py, `ack_stream` and `indexed_fetch`. What a queue gives is a list of
-- what each `_await_frame` gets: a frame, or none where the wait ends or the frame cannot be
-- unpacked, which both raise `CommandTimeoutError`. After the end of the list the device is silent.
pub mod Acked
pub mod Holes
pub mod Ends
pub mod Indexed
use py_mammotion.Base.{
  ℕ, zero, suc, ◌+◌, ◌-◌, Bool, true, false, ◌&&◌, not, Option, none, some, List, [], ◌∷◌, ◌++◌,
  ◌==◌, nat_keys, if◌then◌else◌, leb, length, is_empty,
}
use py_mammotion.Base.Dict.{Dict, insert}

-- What the transfers read of a frame.
pub record StreamFrame (F : Type 0) : Type 0 where
  pub current_frame : F → ℕ
  pub total_frame : F → ℕ

-- `timed_out` is `CommandTimeoutError` with its frame number.
pub data StreamEnd (F : Type 0) : Type 0 where
  collected : Dict ℕ F → StreamEnd F
  timed_out : ℕ → StreamEnd F

-- How the stream ended, the frames that were acked in order, and the queue from where it stopped.
pub record Stream (F : Type 0) : Type 0 where
  pub end : StreamEnd F
  pub acked : List F
  pub left : List (Option F)

module _ {F : Type 0} ⦃s : StreamFrame F⦄ where
  -- `total and len(frames) >= total`
  abbrev pub is_done : F → Dict ℕ F → Bool
  is_done frame frames = not (s.total_frame frame == 0) && leb (s.total_frame frame) (length frames)

module _ {F : Type 0} where
  quiet : Bool → Dict ℕ F → List (Option F) → Stream F
  quiet allow_empty frames queue = record {
    end = if allow_empty && is_empty frames then collected [] else timed_out (length frames + 1);
    acked = [];
    left = queue;
  }

module _ {F : Type 0} ⦃s : StreamFrame F⦄ where
  -- The loop of `ack_stream` with the frames that it has.
  unfoldable pub stream_loop : Bool → Dict ℕ F → List (Option F) → Stream F
  unfolding quiet
  stream_loop allow_empty frames [] = quiet allow_empty frames []
  stream_loop allow_empty frames (none ∷ queue) = quiet allow_empty frames (none ∷ queue)
  stream_loop allow_empty frames (some frame ∷ queue) =
      let frames' = insert (s.current_frame frame) frame frames in
      let rest = stream_loop allow_empty frames' queue in
      if is_done frame frames'
      then record { end = collected frames'; acked = frame ∷ []; left = queue }
      else record rest { acked = frame ∷ rest.acked }

  unfoldable pub ack_stream : Bool → List (Option F) → Stream F
  unfolding stream_loop
  ack_stream allow_empty queue = stream_loop allow_empty [] queue

pub data FetchEnd : Type 0 where
  fetched : FetchEnd
  no_answer : ℕ → FetchEnd

-- The indices that were requested, the frames that were yielded, and how the fetch ended.
pub record Fetch (F : Type 0) : Type 0 where
  pub requested : List ℕ
  pub yielded : List F
  pub end : FetchEnd

module _ {F : Type 0} where
  -- `for index in range(index, index + count)`
  unfoldable pub fetch_loop : ℕ → ℕ → List (Option F) → Fetch F
  fetch_loop zero index queue = record { requested = []; yielded = []; end = fetched }
  fetch_loop (suc count) index (some frame ∷ queue) =
      let rest = fetch_loop count (index + 1) queue in
      record rest { requested = index ∷ rest.requested; yielded = frame ∷ rest.yielded }
  fetch_loop (suc count) index _ = record {
    requested = index ∷ [];
    yielded = [];
    end = no_answer (index + 1);
  }

  unfoldable pub indexed_fetch : (F → ℕ) → List (Option F) → Fetch F
  unfolding fetch_loop
  indexed_fetch total_of (some first ∷ queue) =
      let rest = fetch_loop (total_of first - 1) 1 queue in
      if total_of first == 0
      then record { requested = 0 ∷ []; yielded = []; end = fetched }
      else record rest { requested = 0 ∷ rest.requested; yielded = first ∷ rest.yielded }
  indexed_fetch total_of _ = record { requested = 0 ∷ []; yielded = []; end = no_answer 1 }
