-- ===== src/Messaging/Transfers/Holes.antt =====
-- Which frames a collection of `ack_stream` has.
use py_mammotion.Base.{
  ◌≡◌, refl, sym, ◌∙◌, true, false, Option, none, some, List, [], ◌∷◌, ◌++◌, ℕ, arith, Bool-cases,
  inl, inr, length, elem, nodup, All, All-append, nat_keys, eqb_iff, if◌then◌else◌,
}
use py_mammotion.Base.Dict.{Dict, keys, insert, contains, elem-keys}
use py_mammotion.Base.Pigeonhole.{Between, elem_of_full}
use py_mammotion.HashList.Frames.Adding.{nodup-append_one}
use py_mammotion.Messaging.Transfers.{
  StreamFrame, collected, stream_loop, ack_stream, quiet, is_done,
}

module _ {F : Type 0} ⦃s : StreamFrame F⦄ where
  -- Every frame of the queue belongs to one transfer of `total` frames.
  abbrev pub OneTransfer : ℕ → List (Option F) → Type 0
  OneTransfer total [] = Unit
  OneTransfer total (none ∷ queue) = OneTransfer total queue
  OneTransfer total (some f ∷ queue) =
      ((s.total_frame f ≡ total) × Between total (s.current_frame f)) × OneTransfer total queue

module _ {F : Type 0} where
  pub length-keys : (d : Dict ℕ F) → length (keys d) ≡ length d
  unfolding keys
  length-keys [] = refl
  length-keys ((k, v) ∷ d) = omega (arith, length-keys d)

  pub keys-insert :
      (k : ℕ) (v : F) (d : Dict ℕ F)
      → keys (insert k v d) ≡ (if elem k (keys d) then keys d else keys d ++ k ∷ [])
  unfolding keys insert elem
  keys-insert k v [] = refl
  keys-insert k v ((j, w) ∷ d) = ground (arith, keys-insert k v d, eqb_iff j k)

  -- The numbers of the frames that have come are distinct and in range.
  pub record IsFiled (total : ℕ) (frames : Dict ℕ F) : Type 0 where
    pub distinct : nodup (keys frames) ≡ true
    pub in_range : All (Between total) (keys frames)

  pub insert-IsFiled :
      (total k : ℕ) (v : F) (frames : Dict ℕ F)
      → Between total k
      → IsFiled total frames
      → IsFiled total (insert k v frames)
  insert-IsFiled total k v frames b w = elim (Bool-cases (elem k (keys frames))) [
    | inl old ↦ record {
      distinct = rw (keys-insert k v frames, old) w.distinct;
      in_range = rw (keys-insert k v frames, old) w.in_range;
    }
    | inr new ↦ record {
      distinct = rw (keys-insert k v frames, new) (nodup-append_one (keys frames) k new w.distinct);
      in_range =
          rw (keys-insert k v frames, new)
            (All-append (Between total) (keys frames) (k ∷ []) w.in_range (b, tt));
    }
  ]

module _ {F : Type 0} ⦃s : StreamFrame F⦄ (total : ℕ) where
  stream_loop-full :
      (frames : Dict ℕ F) (queue : List (Option F)) (got : Dict ℕ F)
      → IsFiled total frames
      → OneTransfer total queue
      → (stream_loop false frames queue).end ≡ collected got
      → (k : ℕ) → Between total k
      → elem k (keys got) ≡ true
  unfolding stream_loop quiet
  stream_loop-full frames [] got w o e k b = absurd (cc e)
  stream_loop-full frames (none ∷ queue) got w o e k b = absurd (cc e)
  stream_loop-full frames (some f ∷ queue) got w o e k b =
      let frames' : Dict ℕ F = insert (s.current_frame f) f frames in
      let w' : IsFiled total frames' = insert-IsFiled total (s.current_frame f) f frames o.0.1 w in
      elim (Bool-cases (is_done f frames')) [
        | inl done ↦
            let full : elem k (keys frames') ≡ true =
              elem_of_full total k (keys frames') w'.distinct w'.in_range
                (ground (arith, done, o.0.0, length-keys frames')) b in
            let same : frames' ≡ got = ground (arith, done, e) in rw (sym same) full
        | inr more ↦ stream_loop-full frames' queue got w' o.1 (ground (arith, more, e)) k b
      ]

  -- If every frame that comes belongs to one transfer of a total, with a number from 1 to the
  -- total, and ack_stream without allow_empty ends with a collection of frames, then every number
  -- from 1 to the total is in the collection.
  pub ack_stream-full :
      (queue : List (Option F)) (got : Dict ℕ F)
      → OneTransfer total queue
      → (ack_stream false queue).end ≡ collected got
      → (k : ℕ) → Between total k
      → contains k got ≡ true
  unfolding ack_stream keys nodup
  ack_stream-full queue got o e k b =
      sym (elem-keys k got)
      ∙ stream_loop-full [] queue got (record { distinct = refl; in_range = tt }) o e k b
