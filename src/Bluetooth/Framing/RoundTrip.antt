-- ===== src/Bluetooth/Framing/RoundTrip.antt =====
-- What a reader makes of the frames of one post.
use py_mammotion.Base.{
  ℕ, zero, suc, ◌+◌, ◌-◌, ◌/◌, ◌%◌, ◌≤◌, ◌<◌, ◌≡◌, refl, ap, ◌∙◌, Bool, true, false, some, List, [],
  ◌∷◌, ◌++◌, nat_keys, eqb_iff, if◌then◌else◌, ltb, length, arith, Bool-cases, inl, inr,
}
use py_mammotion.Bluetooth.Framing.{
  take, drop, check, get_frame_ctrl_value, has_frag, PostOptions, get_post_bytes, next_chunk,
  remaining_after, post_loop, post_contains_data, Posted, sent, write_chunk, write_frame, ended,
  Reader, Parsed, fragment, complete, parse_frame, parse_notification, accept_sequence,
}

-- The frames of a post, one after the other.
unfoldable pub receive : Reader → List (List ℕ) → Reader × List Parsed
receive r [] = (r, [])
receive r (f ∷ fs) =
    let one = parse_notification r (some f) in let all = receive one.0 fs in (all.0, one.1 ∷ all.1)

-- Any number of fragments, and then the end.
abbrev pub is_whole : List Parsed → Bool
is_whole (complete ∷ []) = true
is_whole (fragment ∷ ps) = is_whole ps
is_whole _ = false

-- The frame control byte built from any flags, with direction 0, answers check at the positions 0
-- to 4 with the encrypted flag, the checksum flag, false, the require-ack flag and the fragment
-- flag.
pub check-get_frame_ctrl_value :
    (encrypted checksum require_ack frag : Bool)
    → let v = get_frame_ctrl_value encrypted checksum 0 require_ack frag in
      (check v 0 ≡ encrypted)
      × (check v 1 ≡ checksum)
      × (check v 2 ≡ false)
      × (check v 3 ≡ require_ack)
      × (check v 4 ≡ frag)
unfolding get_frame_ctrl_value check
check-get_frame_ctrl_value true true true true = (refl, refl, refl, refl, refl)
check-get_frame_ctrl_value true true true false = (refl, refl, refl, refl, refl)
check-get_frame_ctrl_value true true false true = (refl, refl, refl, refl, refl)
check-get_frame_ctrl_value true true false false = (refl, refl, refl, refl, refl)
check-get_frame_ctrl_value true false true true = (refl, refl, refl, refl, refl)
check-get_frame_ctrl_value true false true false = (refl, refl, refl, refl, refl)
check-get_frame_ctrl_value true false false true = (refl, refl, refl, refl, refl)
check-get_frame_ctrl_value true false false false = (refl, refl, refl, refl, refl)
check-get_frame_ctrl_value false true true true = (refl, refl, refl, refl, refl)
check-get_frame_ctrl_value false true true false = (refl, refl, refl, refl, refl)
check-get_frame_ctrl_value false true false true = (refl, refl, refl, refl, refl)
check-get_frame_ctrl_value false true false false = (refl, refl, refl, refl, refl)
check-get_frame_ctrl_value false false true true = (refl, refl, refl, refl, refl)
check-get_frame_ctrl_value false false true false = (refl, refl, refl, refl, refl)
check-get_frame_ctrl_value false false false true = (refl, refl, refl, refl, refl)
check-get_frame_ctrl_value false false false false = (refl, refl, refl, refl, refl)

take-length : (xs : List ℕ) → take (length xs) xs ≡ xs
unfolding take
take-length [] = refl
take-length (x ∷ xs) = ap (λ ys. x ∷ ys) (take-length xs)

length-take : (n : ℕ) (xs : List ℕ) → n ≤ length xs → length (take n xs) ≡ n
unfolding take
length-take zero xs h = refl
length-take (suc n) [] h = absurd (omega (arith, h))
length-take (suc n) (x ∷ xs) h = omega (arith, length-take n xs (omega (arith, h)))

append-take-drop : (n : ℕ) (xs : List ℕ) → take n xs ++ drop n xs ≡ xs
unfolding take drop
append-take-drop zero xs = refl
append-take-drop (suc n) [] = refl
append-take-drop (suc n) (x ∷ xs) = ap (λ ys. x ∷ ys) (append-take-drop n xs)

length-drop : (n : ℕ) (xs : List ℕ) → length (drop n xs) ≡ length xs - n
unfolding drop
length-drop zero xs = omega arith
length-drop (suc n) [] = omega arith
length-drop (suc n) (x ∷ xs) = omega (arith, length-drop n xs)

append_assoc : (xs ys zs : List ℕ) → (xs ++ ys) ++ zs ≡ xs ++ (ys ++ zs)
append_assoc [] ys zs = refl
append_assoc (x ∷ xs) ys zs = ap (λ ws. x ∷ ws) (append_assoc xs ys zs)

-- The reader has seen the writer's last frame.
abbrev pub InStep : Reader → ℕ → Type 0
InStep r sequence = r.read_sequence % 256 ≡ sequence % 256

frame_of : PostOptions → Bool → ℕ → List ℕ → List ℕ
frame_of o frag sequence chunk =
    o.type_of
    ∷ get_frame_ctrl_value o.encrypt o.checksum 0 o.require_ack frag
    ∷ (sequence + 1) % 256
    ∷ length chunk
    ∷ chunk

module _ (o : PostOptions) (plain : o.checksum ≡ false) where
  parse_frame-plain :
      (r : Reader) (frag : Bool) (sequence : ℕ) (chunk : List ℕ)
      → InStep r sequence
      → let p = parse_notification r (some (frame_of o frag sequence chunk)) in
        (p.0.notification.data' ≡ r.notification.data' ++ (if frag then drop 2 chunk else chunk))
        × (p.1 ≡ (if frag then fragment else complete))
        × InStep p.0 (sequence + 1)
  unfolding parse_notification accept_sequence parse_frame has_frag frame_of
  parse_frame-plain r frag sequence chunk s = ground (
    arith,
    eqb_iff ((sequence + 1) % 256) (r.read_sequence % 256),
    take-length chunk,
    check-get_frame_ctrl_value o.encrypt o.checksum o.require_ack frag,
  )

  write_chunk-plain :
      (acked : ℕ → Bool) (sequence : ℕ) (frag : Bool) (chunk : List ℕ) (rest : Posted)
      → o.require_ack ≡ false
      → o.type_of < 256
      → length chunk < 256
      → write_chunk o acked sequence frag (some chunk) rest
        ≡ record rest { frames = frame_of o frag sequence chunk ∷ rest.frames }
  unfolding write_chunk write_frame get_post_bytes frame_of
  write_chunk-plain acked sequence frag chunk rest a t l = ground arith

chunk_content :
    (x : ℕ) (xs : List ℕ)
    → drop 2 (length (x ∷ xs) % 256 ∷ length (x ∷ xs) / 256 ∷ take 253 (x ∷ xs))
        ++ drop 253 (x ∷ xs)
      ≡ x ∷ xs
unfolding drop
chunk_content x xs = append-take-drop 253 (x ∷ xs)

-- The post has ended, and a reader in step with it gets the content and is in step again.
pub record Delivers (r : Reader) (content : List ℕ) (p : Posted) : Type 0 where
  pub ended_well : p.outcome ≡ sent
  pub received : (receive r p.frames).0.notification.data' ≡ r.notification.data' ++ content
  pub whole : is_whole (receive r p.frames).1 ≡ true
  pub in_step : InStep (receive r p.frames).0 p.send_sequence

module _ (o : PostOptions) (plain : o.checksum ≡ false) (unacked : o.require_ack ≡ false)
    (byte : o.type_of < 256) where
  add_frame :
      (r : Reader) (sequence : ℕ) (chunk content more : List ℕ) (p : Posted)
      → InStep r sequence
      → drop 2 chunk ++ more ≡ content
      → ((r' : Reader) → InStep r' (sequence + 1) → Delivers r' more p)
      → Delivers r content (record p { frames = frame_of o true sequence chunk ∷ p.frames })
  unfolding receive
  add_frame r sequence chunk content more p s e d =
      let one = parse_notification r (some (frame_of o true sequence chunk)) in
      let f = parse_frame-plain o plain r true sequence chunk s in
      let rest = d one.0 f.2 in
      record {
        ended_well = rest.ended_well;
        received =
            rest.received
            ∙ ap (λ ys. ys ++ more) f.0
            ∙ append_assoc r.notification.data' (drop 2 chunk) more
            ∙ ap (λ ys. r.notification.data' ++ ys) e;
        whole = ground (arith, f.1, rest.whole);
        in_step = rest.in_step;
      }

  last_frame :
      (r : Reader) (sequence : ℕ) (content : List ℕ)
      → InStep r sequence
      → Delivers r content
          (record (ended (sequence + 1) sent) { frames = frame_of o false sequence content ∷ [] })
  unfolding receive ended
  last_frame r sequence content s =
      let f = parse_frame-plain o plain r false sequence content s in
      record { ended_well = refl; received = f.0; whole = ground (arith, f.1); in_step = f.2 }

  post_loop-fragment :
      (acked : ℕ → Bool) (fuel x : ℕ) (xs : List ℕ) (sequence : ℕ)
      → 255 < length (x ∷ xs)
      → length (x ∷ xs) < 65536
      → let rest = post_loop fuel o acked (sequence + 1) (drop 253 (x ∷ xs)) in
        post_loop (suc fuel) o acked sequence (x ∷ xs) ≡ record rest {
          frames =
              frame_of o true sequence
                (length (x ∷ xs) % 256 ∷ length (x ∷ xs) / 256 ∷ take 253 (x ∷ xs))
              ∷ rest.frames;
        }
  unfolding post_loop next_chunk remaining_after
  post_loop-fragment acked fuel x xs sequence long small = ground (
    arith,
    write_chunk-plain o plain acked sequence true
        (length (x ∷ xs) % 256 ∷ length (x ∷ xs) / 256 ∷ take 253 (x ∷ xs))
        (post_loop fuel o acked (sequence + 1) (drop 253 (x ∷ xs))) unacked byte
        (omega (arith, length-take 253 (x ∷ xs) (omega (arith, long)))),
  )

  post_loop-last :
      (acked : ℕ → Bool) (fuel x : ℕ) (xs : List ℕ) (sequence : ℕ)
      → length (x ∷ xs) ≤ 255
      → post_loop (suc (suc fuel)) o acked sequence (x ∷ xs)
        ≡ record (ended (sequence + 1) sent) { frames = frame_of o false sequence (x ∷ xs) ∷ [] }
  unfolding post_loop next_chunk remaining_after ended
  post_loop-last acked fuel x xs sequence short = ground (
    arith,
    write_chunk-plain o plain acked sequence false (x ∷ xs) (ended (sequence + 1) sent) unacked byte
        (omega (arith, short)),
  )

  post_loop-Delivers :
      (acked : ℕ → Bool) (fuel : ℕ) (content : List ℕ) (sequence : ℕ) (r : Reader)
      → 0 < length content
      → length content < fuel
      → length content < 65536
      → InStep r sequence
      → Delivers r content (post_loop fuel o acked sequence content)
  post_loop-Delivers acked fuel [] sequence r pos enough small s = absurd (omega (arith, pos))
  post_loop-Delivers acked zero (x ∷ xs) sequence r pos enough small s =
      absurd (omega (arith, enough))
  post_loop-Delivers acked (suc zero) (x ∷ xs) sequence r pos enough small s =
      absurd (omega (arith, enough))
  post_loop-Delivers acked (suc (suc fuel)) (x ∷ xs) sequence r pos enough small s =
      elim (Bool-cases (ltb 255 (length (x ∷ xs)))) [
        | inl long ↦
            let more = drop 253 (x ∷ xs) in
            rw (post_loop-fragment acked (suc fuel) x xs sequence (ground (arith, long)) small) (
              add_frame r sequence _ (x ∷ xs) more
                (post_loop (suc fuel) o acked (sequence + 1) more) s (chunk_content x xs)
                (λ r' s'.
                  post_loop-Delivers acked (suc fuel) more (sequence + 1) r'
                    (ground (arith, long, length-drop 253 (x ∷ xs)))
                    (ground (arith, enough, length-drop 253 (x ∷ xs)))
                    (ground (arith, small, length-drop 253 (x ∷ xs))) s'))
        | inr short ↦
            rw (post_loop-last acked fuel x xs sequence (ground (arith, short)))
              (last_frame r sequence (x ∷ xs) s)
      ]

-- For a message of at least 1 and less than 65536 bytes, posted without acks and checksums under a
-- type of one byte, the post ends as sent, and a reader whose counter has the low byte of the
-- sender's parses its frames to any number of fragments and then a complete notification, appends
-- exactly the message to its buffer, and is again in step with the sender.
pub post_contains_data-Delivers :
    (o : PostOptions) (acked : ℕ → Bool) (content : List ℕ) (sequence : ℕ) (r : Reader)
    → o.checksum ≡ false
    → o.require_ack ≡ false
    → o.type_of < 256
    → 0 < length content
    → length content < 65536
    → InStep r sequence
    → Delivers r content (post_contains_data o acked sequence content)
unfolding post_contains_data
post_contains_data-Delivers o acked content sequence r plain unacked byte pos small s =
    post_loop-Delivers o plain unacked byte acked (suc (length content)) content sequence r pos
      (omega arith) small s
