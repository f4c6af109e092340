-- ===== src/Transport/RateLimit/Quota.antt =====
-- The send quota: what is recorded, when a send is refused, and when it is allowed again.
use py_mammotion.Base.{
  ℕ, zero, suc, ◌+◌, ◌-◌, ◌≤◌, ◌<◌, ◌≡◌, refl, sym, ap, ◌∙◌, true, false, List, [], ◌∷◌, ◌++◌,
  arith, leb, length, length-append, All, All-append, All-mono, leb→le, Bool-cases, inl, inr,
}
use py_mammotion.Transport.RateLimit.{
  Transport, record_send, sends_in_window, is_rate_limited, seconds_until_send_available, recent,
  nth,
}
use py_mammotion.Transport.RateLimit.Window.{
  IsAscending, IsAscending-append_one, count_recent-reverse, pop_older-recent, recent-append,
  recent-All,
}

-- The recorded sends are in order, and none lies in the future.
pub record IsClocked (t : Transport) (now : ℕ) : Type 0 where
  pub ascending : IsAscending t.send_timestamps
  pub past : All (λ ts. ts ≤ now) t.send_timestamps

-- If the recorded sends are in order and none lies after some time, then the count that stops at
-- the first older entry from the back is, at any time, the number of all recorded sends that the
-- window still holds.
pub sends_in_window_lem :
    (t : Transport) (now at : ℕ)
    → IsClocked t at
    → sends_in_window t now ≡ length (recent now t.send_window t.send_timestamps)
unfolding sends_in_window
sends_in_window_lem t now at c =
    count_recent-reverse now t.send_window t.send_timestamps c.ascending

recent-recent :
    (now later window : ℕ) (xs : List ℕ)
    → now ≤ later
    → recent later window (recent now window xs) ≡ recent later window xs
unfolding recent
recent-recent now later window [] h = refl
recent-recent now later window (x ∷ xs) h = ground (arith, recent-recent now later window xs h)

module _ (now window : ℕ) where
  All-recent : (P : ℕ → Type 0) (xs : List ℕ) → All P xs → All P (recent now window xs)
  unfolding recent
  All-recent P [] h = tt
  All-recent P (x ∷ xs) h = ground (arith, All-recent P xs h.1)

  recent-IsAscending : (xs : List ℕ) → IsAscending xs → IsAscending (recent now window xs)
  unfolding recent
  recent-IsAscending [] a = tt
  recent-IsAscending (x ∷ xs) a =
      ground (arith, recent-IsAscending xs a.1, All-recent (λ y. x ≤ y) xs a.0)

  length-recent-le : (xs : List ℕ) → length (recent now window xs) ≤ length xs
  unfolding recent
  length-recent-le [] = omega arith
  length-recent-le (x ∷ xs) = ground (arith, length-recent-le xs)

  All-nth : (P : ℕ → Type 0) (xs : List ℕ) (i : ℕ) → All P xs → i < length xs → P (nth xs i)
  unfolding nth
  All-nth P [] i h l = absurd (omega arith)
  All-nth P (x ∷ xs) zero h l = h.0
  All-nth P (x ∷ xs) (suc i) h l = All-nth P xs i h.1 (omega arith)

  recent-IsRecent : (xs : List ℕ) → All (λ y. now ≤ y + window) (recent now window xs)
  unfolding recent
  recent-IsRecent [] = tt
  recent-IsRecent (x ∷ xs) = ground (arith, recent-IsRecent xs)

  -- Once the entry at a place has left the window, so have those before it.
  freed :
      (xs : List ℕ) (i : ℕ)
      → IsAscending xs
      → i < length xs
      → nth xs i + window < now
      → length (recent now window xs) + suc i ≤ length xs
  unfolding nth recent
  freed [] i a l h = absurd (omega arith)
  freed (x ∷ xs) zero a l h = ground (arith, length-recent-le xs)
  freed (x ∷ xs) (suc i) a l h =
      ground (arith, freed xs i a.1 (omega arith) h, All-nth (λ y. x ≤ y) xs i a.0 (omega arith))

  -- While the entry at a place is in the window, so are those behind it.
  kept :
      (xs : List ℕ) (i : ℕ)
      → IsAscending xs
      → i < length xs
      → now ≤ nth xs i + window
      → length xs ≤ length (recent now window xs) + i
  unfolding nth recent
  kept [] i a l h = absurd (omega arith)
  kept (x ∷ xs) zero a l h = ground (
    arith,
    recent-All now window xs
        (All-mono (λ y. x ≤ y) (λ y. now ≤ y + window) (λ y le. omega arith) xs a.0),
  )
  kept (x ∷ xs) (suc i) a l h = ground (arith, kept xs i a.1 (omega arith) h)

module _ (t : Transport) (now : ℕ) (c : IsClocked t now) where
  window_now : List ℕ
  window_now = recent now t.send_window t.send_timestamps

  sends_later :
      (later : ℕ)
      → now ≤ later
      → sends_in_window t later ≡ length (recent later t.send_window window_now)
  unfolding window_now
  sends_later later h =
      sends_in_window_lem t later now c
      ∙ ap length (sym (recent-recent now later t.send_window t.send_timestamps h))

  sends_now : sends_in_window t now ≡ length window_now
  unfolding window_now
  sends_now = sends_in_window_lem t now now c

  window-IsAscending : IsAscending window_now
  unfolding window_now
  window-IsAscending = recent-IsAscending now t.send_window t.send_timestamps c.ascending

  ban_over : t.rate_limited_until ≤ now + seconds_until_send_available t now
  unfolding seconds_until_send_available
  ban_over = ground arith

  release_time :
      t.send_limit ≤ length window_now
      → nth window_now (length window_now - t.send_limit) + t.send_window
        ≤ now + seconds_until_send_available t now
  unfolding seconds_until_send_available window_now
  release_time full = ground arith

  sends_later_room :
      (later : ℕ)
      → 0 < t.send_limit
      → now + seconds_until_send_available t now < later
      → sends_in_window t later < t.send_limit
  sends_later_room later l h = elim (Bool-cases (leb t.send_limit (length window_now))) [
    | inl full ↦ omega (
      arith,
      sends_later later (omega arith),
      freed later t.send_window window_now (length window_now - t.send_limit) window-IsAscending
          (omega (arith, leb→le _ _ full)) (omega (arith, release_time (leb→le _ _ full))),
      leb→le _ _ full,
    )
    | inr room ↦ omega (
      arith,
      sends_later later (omega arith),
      length-recent-le later t.send_window window_now,
      below_limit room,
    )
  ]
    where
      below_limit : leb t.send_limit (length window_now) ≡ false → length window_now < t.send_limit
      below_limit e = ground arith

  -- If the recorded sends are in order and none lies after now, and the limit is not 0, then at
  -- every time after now plus seconds_until_send_available, with no send in between,
  -- is_rate_limited is false.
  pub allowed_after :
      (later : ℕ)
      → 0 < t.send_limit
      → now + seconds_until_send_available t now < later
      → is_rate_limited t later ≡ false
  unfolding is_rate_limited
  allowed_after later l h = ground (arith, sends_later_room later l h, ban_over)

  release_exact :
      t.rate_limited_until ≤ now
      → t.send_limit ≤ length window_now
      → now ≤ nth window_now (length window_now - t.send_limit) + t.send_window
      → now + seconds_until_send_available t now
        ≤ nth window_now (length window_now - t.send_limit) + t.send_window
  unfolding seconds_until_send_available window_now
  release_exact ban full h = ground arith

  window-nth : (i : ℕ) → i < length window_now → now ≤ nth window_now i + t.send_window
  unfolding window_now
  window-nth i l =
      All-nth now t.send_window (λ y. now ≤ y + t.send_window) window_now i
        (recent-IsRecent now t.send_window t.send_timestamps) l

  -- If the recorded sends are in order and none lies after now, the limit is not 0, the window
  -- holds at least that many sends, and no ban is in force, then at now plus
  -- seconds_until_send_available is_rate_limited is still true.
  pub blocked_at_release :
      0 < t.send_limit
      → t.send_limit ≤ sends_in_window t now
      → t.rate_limited_until ≤ now
      → is_rate_limited t (now + seconds_until_send_available t now) ≡ true
  unfolding is_rate_limited
  blocked_at_release l full ban =
      let place = length window_now - t.send_limit in
      let many : t.send_limit ≤ length window_now = omega (arith, sends_now) in
      let release = now + seconds_until_send_available t now in
      ground (
        arith,
        sends_later release (omega arith),
        kept release t.send_window window_now place window-IsAscending (omega arith)
            (release_exact ban many (window-nth place (omega arith))),
        many,
      )

module _ (t : Transport) (at now : ℕ) (c : IsClocked t at) (h : at ≤ now) where
  log : List ℕ
  log = t.send_timestamps ++ now ∷ []

  log-past : All (λ ts. ts ≤ now) log
  unfolding log
  log-past =
      All-append (λ ts. ts ≤ now) t.send_timestamps (now ∷ [])
        (All-mono (λ ts. ts ≤ at) (λ ts. ts ≤ now) (λ ts le. omega arith) t.send_timestamps c.past)
        (omega arith, tt)

  log-IsAscending : IsAscending log
  unfolding log
  log-IsAscending =
      IsAscending-append_one t.send_timestamps now c.ascending
        (All-mono (λ ts. ts ≤ at) (λ ts. ts ≤ now) (λ ts le. omega arith) t.send_timestamps c.past)

  send_timestamps-record_send : (record_send t now).send_timestamps ≡ recent now t.send_window log
  unfolding record_send log
  send_timestamps-record_send = pop_older-recent now t.send_window _ log-IsAscending

  record_send-IsClocked : IsClocked (record_send t now) now
  record_send-IsClocked = record {
    ascending =
        rw send_timestamps-record_send (recent-IsAscending now t.send_window log log-IsAscending);
    past =
        rw send_timestamps-record_send (All-recent now t.send_window (λ ts. ts ≤ now) log log-past);
  }

  send_window-record_send : (record_send t now).send_window ≡ t.send_window
  unfolding record_send
  send_window-record_send = refl

  length-recent-log :
      length (recent now t.send_window log)
      ≡ suc (length (recent now t.send_window t.send_timestamps))
  unfolding log recent
  length-recent-log = ground (
    arith,
    ap length (recent-append now t.send_window t.send_timestamps (now ∷ [])),
    length-append (recent now t.send_window t.send_timestamps) (now ∷ []),
  )

  -- If the recorded sends are in order and none lies after an earlier time than now, then recording
  -- a send at now keeps them in order and not after now, and raises the number of sends in the
  -- window at now by exactly one.
  pub record_send_lem :
      IsClocked (record_send t now) now
      × (sends_in_window (record_send t now) now ≡ suc (sends_in_window t now))
  record_send_lem = (
    record_send-IsClocked,
    sends_in_window_lem (record_send t now) now now record_send-IsClocked
        ∙ (rw (send_timestamps-record_send, send_window-record_send)
              (ap length (recent-recent now now t.send_window log (omega arith))
                ∙ length-recent-log)
            ∙ ap suc (sym (sends_in_window_lem t now at c))),
  )
