-- ===== src/Messaging/EdgeMapping/Border.antt =====
-- How often the walk is started, and what is held at its end.
use py_mammotion.Base.{
  maybe, ℕ, suc, ◌+◌, ◌≡◌, refl, ap, ◌∙◌, Bool, true, false, ◌&&◌, Option, none, some, List, [],
  ◌∷◌, nat_keys, if◌then◌else◌, leb, arith,
}
use py_mammotion.Base.Dict.{Dict, insert}
use py_mammotion.HashList.Store.{EdgePoints}
use py_mammotion.Messaging.MapFetch.{Raise}
use py_mammotion.Messaging.EdgeMapping.{
  EdgeCommand, along_border, response_edgewise_mapping, Received, Attempt, EdgeState, EdgeEnd,
  mapped, raised, state_of, is_complete, accumulated, collect, run, runs,
}

-- The number of commands that start the walk.
unfoldable pub starts : List EdgeCommand → ℕ
starts [] = 0
starts (along_border ∷ sent) = suc (starts sent)
starts (response_edgewise_mapping f ∷ sent) = starts sent

-- As many walks have been started, and `skip_start` is the same.
unfoldable Kept : EdgeState → EdgeEnd → Type 0
Kept s r = (starts (state_of r).sent ≡ starts s.sent) × ((state_of r).skip_start ≡ s.skip_start)

if-Kept :
    (s : EdgeState) (b : Bool) (x y : EdgeEnd) → Kept s x → Kept s y → Kept s (if b then x else y)
if-Kept s true x y h k = h
if-Kept s false x y h k = k

maybe-Kept :
    (s : EdgeState) (o : Option Raise) (x : EdgeEnd)
    → Kept s x
    → Kept s (maybe o x (λ e. raised e s))
unfolding maybe Kept
maybe-Kept s none x h = h
maybe-Kept s (some e) x h = (refl, refl)

collect-Kept :
    (l : List Received) (collected : Dict ℕ EdgePoints) (s : EdgeState)
    → Kept s (collect l collected s)
unfolding collect starts Kept
collect-Kept [] collected s = (refl, refl)
collect-Kept (r ∷ more) collected s =
    let existing = accumulated r.frame collected in
    let collected' = insert r.frame.hash existing collected in
    let s' = record s { sent = response_edgewise_mapping r.frame ∷ s.sent } in
    let done = mapped (record s' { result = collected' }) in
    let rest = collect more collected' s' in
    let last = leb r.frame.total_frame r.frame.current_frame && is_complete existing in
    maybe-Kept s r.ack_raises (if last then done else rest)
      (if-Kept s last done rest (refl, refl) (collect-Kept more collected' s'))

-- What a saga may still start.
unfoldable pub allowance : Bool → ℕ
allowance skip_start = if skip_start then 0 else 1

-- The walks that have been started and those that may still be.
unfoldable Spent : ℕ → EdgeEnd → Type 0
Spent n r = starts (state_of r).sent + allowance (state_of r).skip_start ≡ n

Kept-Spent :
    (n : ℕ) (s : EdgeState) (r : EdgeEnd)
    → Kept s r
    → starts s.sent + allowance s.skip_start ≡ n
    → Spent n r
unfolding Kept Spent
Kept-Spent n s r k e =
    ap (λ x. x + allowance (state_of r).skip_start) k.0
    ∙ ap (λ b. starts s.sent + allowance b) k.1
    ∙ e

if-Spent :
    (n : ℕ) (b : Bool) (x y : EdgeEnd)
    → (b ≡ true → Spent n x)
    → (b ≡ false → Spent n y)
    → Spent n (if b then x else y)
if-Spent n true x y h k = h refl
if-Spent n false x y h k = k refl

maybe-Spent :
    (n : ℕ) (s : EdgeState) (o : Option Raise) (x : EdgeEnd)
    → Spent n x
    → starts s.sent + allowance s.skip_start ≡ n
    → Spent n (maybe o x (λ e. raised e s))
unfolding maybe Spent
maybe-Spent n s none x h e = h
maybe-Spent n s (some r) x h e = e

starts-run :
    (a : Attempt) (s : EdgeState) → Spent (starts s.sent + allowance s.skip_start) (run a s)
unfolding run starts allowance
starts-run a s =
    let n = starts s.sent + allowance s.skip_start in
    let s' = record s { result = [] } in
    let s1 = record s' { skip_start = true; sent = along_border ∷ s.sent } in
    let walk = collect a.received [] s1 in
    let again = collect a.received [] s' in
    if-Spent n s.skip_start again (maybe a.start_raises walk (λ e. raised e s'))
      (λ _. Kept-Spent n s' again (collect-Kept a.received [] s') refl)
      λ first.
        maybe-Spent n s' a.start_raises walk
          (Kept-Spent n s1 walk (collect-Kept a.received [] s1) (ground (arith, first))) refl

-- Over any runs of an edge saga, whatever is sent and received and however each run ends, the
-- number of along_border commands that have been sent, plus 1 as long as skip_start is not set,
-- stays the same, so that no retry starts the walk along the border again.
pub starts-runs :
    (attempts : List Attempt) (s : EdgeState)
    → starts (runs attempts s).sent + allowance (runs attempts s).skip_start
      ≡ starts s.sent + allowance s.skip_start
unfolding runs Spent
starts-runs [] s = refl
starts-runs (a ∷ attempts) s = starts-runs attempts (state_of (run a s)) ∙ starts-run a s
