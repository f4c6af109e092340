-- ===== src/Device/Polling/Spacing.antt =====
-- How far apart the polls of the loop are.
use py_mammotion.Base.{
  maybe, ℕ, ◌+◌, ◌≤◌, ◌≡◌, inl, inr, refl, Bool, true, false, Option, none, some, List, [], ◌∷◌,
  if◌then◌else◌, Bool-cases, arith,
}
use py_mammotion.Transport.RateLimit.{Transport, is_send_blocked}
use py_mammotion.Device.Sending.{has_usable_transport, ble_connected}
use py_mammotion.Device.Polling.{
  DeviceMode, active, docked_charging, docked_full, idle, Intervals, Moment, Verdict, sleeps,
  looks_again, polls, in_no_request_mode, at_mode, device_mode, poll_interval, larger, latest,
  registered, cloud, blocking, backoff, quiet_checks, checks, Round, recent_activity, timed, round,
  polled, mqtt_activity_loop,
}

-- No interval of the table is shorter.
abbrev pub AtLeast : ℕ → Intervals → Type 0
AtLeast m i =
    (m ≤ i.when_active)
    × (m ≤ i.when_docked_charging)
    × (m ≤ i.when_docked_full)
    × (m ≤ i.when_idle)

-- The sends of the transport are not blocked, or BLE is connected.
abbrev pub MaySend : Moment → Transport → Type 0
MaySend p t =
    is_send_blocked t p.now p.handle.version_is_rate_limited ≡ true
    → ble_connected p.handle.ble ≡ true

-- The loop may poll: no saga, a mode with requests, and no exhausted quota without BLE, where Aliyun
-- counts, and Mammotion MQTT only without it.
pub record Welcome (p : Moment) : Type 0 where
  pub no_saga : p.is_saga_active ≡ false
  pub takes_requests : in_no_request_mode p.report ≡ false
  pub aliyun_sends : (t : Transport) → p.handle.aliyun ≡ some t → MaySend p t
  pub mammotion_sends :
      (t : Transport) → p.handle.aliyun ≡ none → p.handle.mammotion ≡ some t → MaySend p t

unblocked-Welcome :
    (p : Moment)
    → p.is_saga_active ≡ false
    → in_no_request_mode p.report ≡ false
    → blocking p ≡ none
    → Welcome p
unfolding blocking cloud maybe
unblocked-Welcome p s r b = record {
  no_saga = s;
  takes_requests = r;
  aliyun_sends = λ t a x. ground (arith, a, x, b);
  mammotion_sends = λ t n a x. ground (arith, n, a, x, b);
}

-- Each poll is at least that long after the one before and after the last frame of the device.
abbrev pub Spaced : ℕ → ℕ → List Moment → Type 0
Spaced m last [] = Unit
Spaced m last (p ∷ ps) =
    (last + m ≤ p.now) × (latest p.last_received + m ≤ p.now) × Welcome p × Spaced m p.now ps

abbrev Polls : (Moment → Type 0) → Verdict → Type 0
Polls P (sleeps d) = Unit
Polls P looks_again = Unit
Polls P (polls p) = P p

at_mode_ge : (m : ℕ) (i : Intervals) → AtLeast m i → (d : DeviceMode) → m ≤ at_mode i d
unfolding at_mode
at_mode_ge m i g active = g.0
at_mode_ge m i g docked_charging = g.1
at_mode_ge m i g docked_full = g.2
at_mode_ge m i g idle = g.3

poll_interval_ge :
    (m : ℕ) (old new : Intervals) (p : Moment)
    → AtLeast m old
    → AtLeast m new
    → m ≤ poll_interval old new p
unfolding poll_interval
poll_interval_ge m old new p a b = elim (Bool-cases p.handle.version_is_rate_limited) [
  | inl e ↦ rw e (at_mode_ge m old a (device_mode p.report))
  | inr e ↦ rw e (at_mode_ge m new b (device_mode p.report))
]

if-Polls :
    (P : Moment → Type 0) (b : Bool) (v v' : Verdict)
    → (b ≡ true → Polls P v)
    → (b ≡ false → Polls P v')
    → Polls P (if b then v else v')
if-Polls P true v v' p p' = p refl
if-Polls P false v v' p p' = p' refl

maybe-Polls :
    (P : Moment → Type 0) (o : Option Transport) (v : Verdict) (d : Transport → ℕ)
    → (o ≡ none → Polls P v)
    → Polls P (maybe o v (λ t. sleeps (d t)))
unfolding maybe
maybe-Polls P none v d p = p refl
maybe-Polls P (some t) v d p = tt

quiet_checks-Polls :
    (P : Moment → Type 0) (i : ℕ) (p : Moment)
    → (Welcome p → P p)
    → blocking p ≡ none
    → Polls P (quiet_checks i p)
unfolding quiet_checks
quiet_checks-Polls P i p k b =
    if-Polls P p.is_saga_active _ _ (λ e. tt)
      (λ e.
        if-Polls P (in_no_request_mode p.report) _ _ (λ f. tt) (λ f. k (unblocked-Welcome p e f b)))

checks-Polls : (P : Moment → Type 0) (i : ℕ) (p : Moment) → (Welcome p → P p) → Polls P (checks i p)
unfolding checks
checks-Polls P i p k =
    if-Polls P (registered p.handle) _ _
      (λ e. maybe-Polls P (blocking p) _ (λ t. backoff t p.now) (quiet_checks-Polls P i p k))
      (λ e. tt)

timed-Polls :
    (P : Moment → Type 0) (i last : ℕ) (r : Round)
    → ((p : Moment) → recent_activity i last p ≡ false → Welcome p → P p)
    → Polls P (timed i last r)
unfolding timed
timed-Polls P i last r k =
    if-Polls P (recent_activity i last r.before) _ _
      (λ e.
        if-Polls P r.rearmed _ _ (λ f. tt)
          (λ f.
            if-Polls P (recent_activity i last r.after) _ _ (λ g. tt)
              (λ g. checks-Polls P i r.after (k r.after g))))
      (λ e. checks-Polls P i r.before (k r.before e))

abbrev Due : ℕ → ℕ → Moment → Type 0
Due m last p = (last + m ≤ p.now) × (latest p.last_received + m ≤ p.now) × Welcome p

recent_activity-Due :
    (m i last : ℕ) (p : Moment)
    → m ≤ i
    → recent_activity i last p ≡ false
    → Welcome p
    → Due m last p
unfolding recent_activity larger
recent_activity-Due m i last p le e w = (ground (arith, le, e), ground (arith, le, e), w)

round-Due :
    (m : ℕ) (old new : Intervals) (last : ℕ) (r : Round)
    → AtLeast m old
    → AtLeast m new
    → Polls (Due m last) (round old new last r)
unfolding round
round-Due m old new last r a b =
    let i = poll_interval old new r.before in
    let le = poll_interval_ge m old new r.before a b in
    if-Polls (Due m last) r.before.ble_stream_active _ _ (λ e. tt)
      (λ e.
        if-Polls (Due m last) (has_usable_transport r.before.handle) _ _
          (λ f. timed-Polls (Due m last) i last r (λ p. recent_activity-Due m i last p le))
          (λ f. tt))

polled-Spaced :
    (m last : ℕ) (v : Verdict) (rest : ℕ → List Moment)
    → Polls (Due m last) v
    → ((l : ℕ) → Spaced m l (rest l))
    → Spaced m last (polled v rest last)
unfolding polled
polled-Spaced m last (sleeps d) rest p k = k last
polled-Spaced m last looks_again rest p k = k last
polled-Spaced m last (polls q) rest p k = (p.0, p.1, p.2, k q.now)

-- If every poll interval of both tables is at least m, then whatever becomes of the handle while
-- the loop sleeps, each poll of the MQTT activity loop comes at least m after the one before and at
-- least m after the last frame from the device, and while no saga is active, the device is in a
-- mode that takes requests, and, unless BLE is connected, the sends of Aliyun are not blocked if it
-- is registered, nor those of the other cloud transport if Aliyun is not.
pub mqtt_activity_loop-Spaced :
    (m : ℕ) (old new : Intervals) (rs : List Round) (last : ℕ)
    → AtLeast m old
    → AtLeast m new
    → Spaced m last (mqtt_activity_loop old new rs last)
unfolding mqtt_activity_loop
mqtt_activity_loop-Spaced m old new [] last a b = tt
mqtt_activity_loop-Spaced m old new (r ∷ rs) last a b =
    polled-Spaced m last (round old new last r) (mqtt_activity_loop old new rs)
      (round-Due m old new last r a b) (λ l. mqtt_activity_loop-Spaced m old new rs l a b)
