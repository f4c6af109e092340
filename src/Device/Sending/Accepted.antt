-- ===== src/Device/Sending/Accepted.antt =====
-- How often one send hands a payload over.
use py_mammotion.Base.{
  maybe, ℕ, suc, ◌+◌, ◌≡◌, refl, ◌∙◌, ap, subst, ltb, Bool, true, false, Option, none, some, List,
  [], ◌∷◌, if◌then◌else◌, arith,
}
use py_mammotion.Transport.RateLimit.{Transport, is_send_blocked}
use py_mammotion.Device.Sending.{
  TransportType, cloud_aliyun, cloud_mammotion, ble, SendError, Frame, sync, command, Attempt,
  Reply, World, Handle, Outcome, done, failed, bind, cloud_link, set_cloud_link, stamp_sync, noted,
  counted, ended, invoke, counted_send, refuses, last_sync, send, send_mqtt_sync, sync_first,
  send_marked,
}

-- The payloads that the network has accepted.
abbrev pub accepted : List Attempt → ℕ
accepted [] = 0
accepted (a ∷ rest) = elim a.frame [
  | sync ↦ accepted rest
  | command payload ↦ elim a.error [ none ↦ suc (accepted rest) | some e ↦ accepted rest ]
]

-- `k` more payloads are accepted if the operation returns, and none if it raises.
abbrev pub Accepts : ℕ → ℕ → Outcome → Type 0
Accepts k n (done h) = accepted h.attempts ≡ k + n
Accepts k n (failed e h) = accepted h.attempts ≡ n

Accepts-bind :
    (j k n : ℕ) (o : Outcome) (f : Handle → Outcome)
    → Accepts j n o
    → ((h : Handle) → accepted h.attempts ≡ j + n → Accepts k n (f h))
    → Accepts k n (bind o f)
unfolding bind
Accepts-bind j k n (done h) f a g = g h a
Accepts-bind j k n (failed e h) f a g = a

attempts-counted :
    (t : TransportType) (e : Option SendError) (now : ℕ) (h : Handle)
    → (counted t e now h).attempts ≡ h.attempts
unfolding counted set_cloud_link maybe
attempts-counted t e now h = ground arith

pub attempts-set_cloud_link :
    (t : TransportType) (l : Transport) (h : Handle) → (set_cloud_link t l h).attempts ≡ h.attempts
unfolding set_cloud_link
attempts-set_cloud_link cloud_aliyun l h = refl
attempts-set_cloud_link cloud_mammotion l h = refl
attempts-set_cloud_link ble l h = refl

attempts-stamp_sync :
    (t : TransportType) (now : ℕ) (h : Handle) → (stamp_sync t now h).attempts ≡ h.attempts
unfolding stamp_sync
attempts-stamp_sync cloud_aliyun now h = refl
attempts-stamp_sync cloud_mammotion now h = refl
attempts-stamp_sync ble now h = refl

Accepts-maybe :
    (k n : ℕ) (o : Option Transport) (absent : Outcome) (present : Transport → Outcome)
    → Accepts k n absent
    → ((l : Transport) → Accepts k n (present l))
    → Accepts k n (maybe o absent present)
unfolding maybe
Accepts-maybe k n none absent present a f = a
Accepts-maybe k n (some l) absent present a f = f l

Accepts-if :
    (k n : ℕ) (b : Bool) (x y : Outcome)
    → Accepts k n x
    → Accepts k n y
    → Accepts k n (if b then x else y)
Accepts-if k n true x y a c = a
Accepts-if k n false x y a c = c

rebased : (k n m : ℕ) (o : Outcome) → m ≡ 0 + n → Accepts k m o → Accepts k n o
rebased k n m o e a = subst (λ x. Accepts k x o) (e ∙ omega arith) a

-- Whether an attempt counts as one accepted payload.
abbrev pub weight : Frame → ℕ
weight sync = 0
weight (command payload) = 1

pub ended-Accepts :
    (k n : ℕ) (e : Option SendError) (h : Handle)
    → (e ≡ none → accepted h.attempts ≡ k + n)
    → ((x : SendError) → e ≡ some x → accepted h.attempts ≡ n)
    → Accepts k n (ended e h)
unfolding ended
ended-Accepts k n none h f g = f refl
ended-Accepts k n (some e) h f g = g e refl

accepted_more :
    (t : TransportType) (frame : Frame) (r : Reply) (h : Handle)
    → r.error ≡ none
    → accepted (noted t frame r h).attempts ≡ weight frame + accepted h.attempts
unfolding noted
accepted_more t sync r h e = omega arith
accepted_more t (command payload) r h e = rw e (omega arith)

accepted_same :
    (t : TransportType) (frame : Frame) (r : Reply) (h : Handle) (x : SendError)
    → r.error ≡ some x
    → accepted (noted t frame r h).attempts ≡ accepted h.attempts
unfolding noted
accepted_same t sync r h x e = refl
accepted_same t (command payload) r h x e = rw e refl

module _ (w : World) (now : ℕ) where
  invoke-Accepts :
      (t : TransportType) (frame : Frame) (h : Handle)
      → Accepts (weight frame) (accepted h.attempts) (invoke w now t frame h)
  unfolding invoke
  invoke-Accepts t frame h =
      let r = w.on_send t frame h.attempts in
      ended-Accepts (weight frame) (accepted h.attempts) r.error _
        (λ e. ap accepted (attempts-counted t r.error now _) ∙ accepted_more t frame r h e)
        (λ x e. ap accepted (attempts-counted t r.error now _) ∙ accepted_same t frame r h x e)

  counted_send-Accepts :
      (t : TransportType) (k n : ℕ) (h : Handle)
      → accepted h.attempts ≡ k + n
      → Accepts k n (counted_send t now h)
  unfolding counted_send
  counted_send-Accepts t k n h a =
      Accepts-maybe k n (cloud_link h t) _ _ a
        (λ l. ap accepted (attempts-set_cloud_link t _ h) ∙ a)

  send-Accepts :
      (t : TransportType) (frame : Frame) (h : Handle)
      → Accepts (weight frame) (accepted h.attempts) (send w now t frame h)
  unfolding send
  send-Accepts t frame h =
      Accepts-maybe (weight frame) (accepted h.attempts) (cloud_link h t) _ _
        (invoke-Accepts t frame h)
        (λ l.
          Accepts-if (weight frame) (accepted h.attempts)
            (refuses t l now h.version_is_rate_limited) _ _ refl
            (Accepts-bind (weight frame) (weight frame) (accepted h.attempts)
              (invoke w now t frame h) _ (invoke-Accepts t frame h)
              (counted_send-Accepts t (weight frame) (accepted h.attempts))))

  sync_first-Accepts :
      (t : TransportType) (h : Handle) → Accepts 0 (accepted h.attempts) (sync_first w now t h)
  unfolding sync_first send_mqtt_sync
  sync_first-Accepts t h =
      Accepts-if 0 (accepted h.attempts) (ltb (last_sync h t + 7) now) _ _
        (Accepts-bind 0 0 (accepted h.attempts) (invoke w now t sync h) _ (invoke-Accepts t sync h)
          (λ h' a. ap accepted (attempts-stamp_sync t now h') ∙ a))
        (omega arith)

  pub send_marked-Accepts :
      (t : TransportType) (payload : ℕ) (h : Handle)
      → Accepts 1 (accepted h.attempts) (send_marked w now t payload h)
  unfolding send_marked
  send_marked-Accepts t payload h =
      Accepts-maybe 1 (accepted h.attempts) (cloud_link h t) _ _
        (send-Accepts t (command payload) h)
        (λ l.
          Accepts-if 1 (accepted h.attempts) (is_send_blocked l now h.version_is_rate_limited) _ _
            refl
            (Accepts-bind 0 1 (accepted h.attempts) (sync_first w now t h) _
              (sync_first-Accepts t h)
              (λ h' a.
                rebased 1 (accepted h.attempts) (accepted h'.attempts) _ a
                  (send-Accepts t (command payload) h'))))
