-- ===== src/Messaging/MapFetch/Sends.antt =====
-- What every step of a run keeps: how a postcondition goes through the steps, what an await does to the
-- frames, and what a send does to the commands.
use mathlib.Core.List.{append_assoc, append-nil}
use py_mammotion.Base.{
  ◌≡◌, refl, sym, ap, subst, ◌∙◌, Bool, true, false, none, some, List, [], ◌∷◌, ◌++◌, if◌then◌else◌,
  Option, maybe,
}
use py_mammotion.Messaging.MapFetch.{
  Leaf, Arrival, frame, malformed, other_message, reported, Await, Command, FetchState, Ended, ok,
  timed_out, raised, no_fuel, Raise, ◌>>=◌, arrive, waited, head_or, tail, silence, send,
  take_first, next_frame, frames_in, frames_coming, flow,
}

-- `P` of a result and its state, `Q` of the state that an error leaves, and fuel enough.
abbrev pub Post :
    {A : Type 0} → (A → FetchState → Type 0) → (FetchState → Type 0) → Ended A → Type 0
Post P Q (ok a s) = P a s
Post P Q (timed_out s) = Q s
Post P Q (raised e s) = Q s
Post P Q (no_fuel s) = ⊥

pub Post-bind :
    {A B : Type 0} (P : A → FetchState → Type 0) (P' : B → FetchState → Type 0)
    (Q : FetchState → Type 0) (m : Ended A) (k : A → FetchState → Ended B)
    → Post P Q m
    → ((a : A) (s : FetchState) → P a s → Post P' Q (k a s))
    → Post P' Q (m >>= k)
unfolding ◌>>=◌
Post-bind P P' Q (ok a s) k h f = f a s h
Post-bind P P' Q (timed_out s) k h f = h
Post-bind P P' Q (raised e s) k h f = h
Post-bind P P' Q (no_fuel s) k h f = absurd h

pub if-Post :
    {A : Type 0} (P : A → FetchState → Type 0) (Q : FetchState → Type 0) (b : Bool) (m n : Ended A)
    → (b ≡ true → Post P Q m)
    → (b ≡ false → Post P Q n)
    → Post P Q (if b then m else n)
if-Post P Q true m n f g = f refl
if-Post P Q false m n f g = g refl

-- The state in which a send ends, whether or not it raises.
abbrev pub sending : Command → FetchState → FetchState
sending c s = waited (record s { sent = c ∷ s.sent })

sent_or_raised :
    {B : Type 0} (P : B → FetchState → Type 0) (Q : FetchState → Type 0) (o : Option Raise)
    (s : FetchState) (k : Unit → FetchState → Ended B)
    → Q s
    → Post P Q (k tt s)
    → Post P Q (maybe o (ok tt s) (λ e. raised e s) >>= k)
unfolding ◌>>=◌ maybe
sent_or_raised P Q (some e) s k q p = q
sent_or_raised P Q none s k q p = p

-- After a send the state is the same, whether the run ends there or goes on.
pub send-bind :
    {B : Type 0} (P : B → FetchState → Type 0) (Q : FetchState → Type 0) (c : Command)
    (s : FetchState) (k : Unit → FetchState → Ended B)
    → Q (sending c s)
    → Post P Q (k tt (sending c s))
    → Post P Q (send c s >>= k)
unfolding send
send-bind P Q c s k q p =
    sent_or_raised P Q (head_or silence s.coming).send_raises (sending c s) k q p

pub Post-mono :
    {A : Type 0} (P P' : A → FetchState → Type 0) (Q Q' : FetchState → Type 0) (m : Ended A)
    → ((a : A) (s : FetchState) → P a s → P' a s)
    → ((s : FetchState) → Q s → Q' s)
    → Post P Q m
    → Post P' Q' m
Post-mono P P' Q Q' (ok a s) f g h = f a s h
Post-mono P P' Q Q' (timed_out s) f g h = g s h
Post-mono P P' Q Q' (raised e s) f g h = g s h
Post-mono P P' Q Q' (no_fuel s) f g h = absurd h

arrive-sent : (l : List Arrival) (s : FetchState) → (arrive l s).sent ≡ s.sent
unfolding arrive
arrive-sent [] s = refl
arrive-sent (frame f ∷ l) s = arrive-sent l _
arrive-sent (malformed f ∷ l) s = arrive-sent l _
arrive-sent (other_message g ∷ l) s = arrive-sent l _
arrive-sent (reported b ∷ l) s = arrive-sent l _

arrive-coming : (l : List Arrival) (s : FetchState) → (arrive l s).coming ≡ s.coming
unfolding arrive
arrive-coming [] s = refl
arrive-coming (frame f ∷ l) s = arrive-coming l _
arrive-coming (malformed f ∷ l) s = arrive-coming l _
arrive-coming (other_message g ∷ l) s = arrive-coming l _
arrive-coming (reported b ∷ l) s = arrive-coming l _

arrive-queue :
    (l : List Arrival) (s : FetchState) → (arrive l s).comm_queue ≡ s.comm_queue ++ frames_in l
unfolding arrive frames_in
arrive-queue [] s = sym (append-nil s.comm_queue)
arrive-queue (frame f ∷ l) s = arrive-queue l _ ∙ append_assoc s.comm_queue (f ∷ []) (frames_in l)
arrive-queue (malformed f ∷ l) s =
    arrive-queue l _ ∙ append_assoc s.comm_queue (f ∷ []) (frames_in l)
arrive-queue (other_message g ∷ l) s = arrive-queue l _
arrive-queue (reported b ∷ l) s = arrive-queue l _

pub waited-sent : (s : FetchState) → (waited s).sent ≡ s.sent
unfolding waited
waited-sent s = arrive-sent (head_or silence s.coming).arrivals _

frames_coming-split :
    (l : List Await)
    → frames_in (head_or silence l).arrivals ++ frames_coming (tail l) ≡ frames_coming l
unfolding head_or tail frames_in frames_coming
frames_coming-split [] = refl
frames_coming-split (a ∷ l) = refl

-- An await loses no frame and keeps their order.
pub flow-waited : (s : FetchState) → flow (waited s) ≡ flow s
unfolding waited flow
flow-waited s =
    let l = (head_or silence s.coming).arrivals in
    let s' : FetchState = record s { coming = tail s.coming } in
    ap (λ q. q ++ frames_coming (arrive l s').coming) (arrive-queue l s')
    ∙ ap (λ c. (s.comm_queue ++ frames_in l) ++ frames_coming c) (arrive-coming l s')
    ∙ append_assoc s.comm_queue (frames_in l) (frames_coming (tail s.coming))
    ∙ ap (λ t. s.comm_queue ++ t) (frames_coming-split s.coming)

pub sending-sent : (c : Command) (s : FetchState) → (sending c s).sent ≡ c ∷ s.sent
sending-sent c s = waited-sent _

pub flow-sending : (c : Command) (s : FetchState) → flow (sending c s) ≡ flow s
unfolding flow
flow-sending c s = flow-waited (record s { sent = c ∷ s.sent })

-- The frame that is taken stood first.
abbrev pub Taken : FetchState → Leaf → FetchState → Type 0
Taken s f s' = (f ∷ flow s' ≡ flow s) × (s'.sent ≡ s.sent)

abbrev pub Waited : FetchState → FetchState → Type 0
Waited s s' = (flow s' ≡ flow s) × (s'.sent ≡ s.sent)

take_first-Taken :
    (q : List Leaf) (s : FetchState) → q ≡ s.comm_queue → Post (Taken s) (Waited s) (take_first q s)
unfolding take_first flow
take_first-Taken [] s e = (refl, refl)
take_first-Taken (f ∷ rest) s e = (ap (λ t. t ++ frames_coming s.coming) e, refl)

pub next_frame-Taken : (s : FetchState) → Post (Taken s) (Waited s) (next_frame s)
unfolding next_frame
next_frame-Taken s =
    subst
      (λ l.
        Post (λ f s'. (f ∷ flow s' ≡ l) × (s'.sent ≡ s.sent))
          (λ s'. (flow s' ≡ l) × (s'.sent ≡ s.sent)) (take_first (waited s).comm_queue (waited s)))
      (flow-waited s)
      (subst
        (λ l.
          Post (λ f s'. (f ∷ flow s' ≡ flow (waited s)) × (s'.sent ≡ l))
            (λ s'. (flow s' ≡ flow (waited s)) × (s'.sent ≡ l))
            (take_first (waited s).comm_queue (waited s)))
        (waited-sent s) (take_first-Taken (waited s).comm_queue (waited s) refl))
