-- ===== src/Device/Raw/Once.antt =====
-- How often `send_raw` hands the payload over.
use py_mammotion.Base.{
  maybe, ℕ, ◌+◌, ◌≡◌, ◌⊎◌, inl, inr, refl, ◌∙◌, ap, subst, Bool, true, false, Option, none, some,
  if◌then◌else◌, arith,
}
use py_mammotion.Transport.RateLimit.{Transport, set_rate_limited}
use py_mammotion.Device.Sending.{
  TransportType, cloud_aliyun, cloud_mammotion, ble, SendError, rate_limited,
  no_transport_available, transport_error, too_many_requests, device_offline, device_unbound,
  other_error, World, Handle, Outcome, done, failed, bind, active_transport, cloud_link,
  set_cloud_link, send_marked, ble_connected, usable_cloud,
}
use py_mammotion.Device.Raw.{
  recovered, retry_over_ble, on_device_offline, on_device_unbound, detach_transport, ban,
  retry_over_cloud, send_on, may_connect, connect, send_raw, update_availability,
}
use py_mammotion.Device.Sending.Accepted.{
  accepted, Accepts, ended-Accepts, attempts-set_cloud_link, send_marked-Accepts,
}

-- An operation that returns has handed over one payload or none, and one that raises none.
abbrev pub Once : ℕ → Outcome → Type 0
Once n (done h) = (accepted h.attempts ≡ 1 + n) ⊎ (accepted h.attempts ≡ n)
Once n (failed e h) = accepted h.attempts ≡ n

Accepts-Once : (n : ℕ) (o : Outcome) → Accepts 1 n o → Once n o
Accepts-Once n (done h) a = inl a
Accepts-Once n (failed e h) a = a

Once-maybe :
    (n : ℕ) (o : Option TransportType) (absent : Outcome) (present : TransportType → Outcome)
    → Once n absent
    → ((t : TransportType) → Once n (present t))
    → Once n (maybe o absent present)
unfolding maybe
Once-maybe n none absent present a f = a
Once-maybe n (some t) absent present a f = f t

Once-if : (n : ℕ) (b : Bool) (x y : Outcome) → Once n x → Once n y → Once n (if b then x else y)
Once-if n true x y a c = a
Once-if n false x y a c = c

attempts-on_device_unbound :
    (t : TransportType) (h : Handle) → (on_device_unbound t h).attempts ≡ h.attempts
unfolding on_device_unbound detach_transport update_availability
attempts-on_device_unbound t h = ground arith

module _ (w : World) (now payload n : ℕ) where
  send_marked-Once :
      (t : TransportType) (h : Handle)
      → accepted h.attempts ≡ n
      → Once n (send_marked w now t payload h)
  send_marked-Once t h a = Accepts-Once n _ (
      subst (λ m. Accepts 1 m (send_marked w now t payload h)) a
        (send_marked-Accepts w now t payload h))

  retry_over_ble-Once :
      (e : SendError) (h : Handle)
      → accepted h.attempts ≡ n
      → Once n (retry_over_ble w now payload e h)
  unfolding retry_over_ble
  retry_over_ble-Once e h a = Once-if n (ble_connected h.ble) _ _ (send_marked-Once ble h a) a

  retry_over_cloud-Once :
      (t : TransportType) (e : SendError) (h : Handle)
      → accepted h.attempts ≡ n
      → Once n (retry_over_cloud w now t payload e h)
  unfolding retry_over_cloud
  retry_over_cloud-Once cloud_aliyun e h a = a
  retry_over_cloud-Once cloud_mammotion e h a = a
  retry_over_cloud-Once ble e h a =
      Once-maybe n (usable_cloud h) _ _ a (λ t. send_marked-Once t h a)

  recovered-Once :
      (t : TransportType) (o : Outcome) → Once n o → Once n (recovered w now t payload o)
  unfolding recovered ban on_device_offline update_availability
  recovered-Once t (done h) a = a
  recovered-Once t (failed rate_limited h) a = inr a
  recovered-Once t (failed too_many_requests h) a = inr (go (cloud_link h t))
    where
      go :
          (o : Option Transport)
          → accepted (maybe o h (λ l. set_cloud_link t (set_rate_limited l now) h)).attempts ≡ n
      go none = a
      go (some l) = ap accepted (attempts-set_cloud_link t _ h) ∙ a
  recovered-Once t (failed device_offline h) a =
      retry_over_ble-Once device_offline (on_device_offline t h) a
  recovered-Once t (failed device_unbound h) a =
      retry_over_ble-Once device_unbound (on_device_unbound t h)
        (ap accepted (attempts-on_device_unbound t h) ∙ a)
  recovered-Once t (failed transport_error h) a = retry_over_cloud-Once t transport_error h a
  recovered-Once t (failed no_transport_available h) a =
      retry_over_cloud-Once t no_transport_available h a
  recovered-Once t (failed other_error h) a = a

  send_on-Once : (h : Handle) → accepted h.attempts ≡ n → Once n (send_on w now payload h)
  unfolding send_on
  send_on-Once h a =
      Once-maybe n (active_transport h) _ _ a (λ t. recovered-Once t _ (send_marked-Once t h a))

  connected-Once : (o : Outcome) → Accepts 0 n o → Once n (bind o (send_on w now payload))
  unfolding bind
  connected-Once (done h) a = send_on-Once h (a ∙ omega arith)
  connected-Once (failed e h) a = a

-- Whatever the network answers, and however the BLE link comes and goes, send_raw has one more
-- payload accepted than before, or none, if it returns, and none if it raises: a fallback never
-- sends a payload twice.
pub send_raw-Once :
    (w : World) (now payload : ℕ) (h : Handle)
    → Once (accepted h.attempts) (send_raw w now payload h)
unfolding send_raw connect
send_raw-Once w now payload h =
    Once-maybe n (active_transport h) _ _
      (Once-if n (may_connect h.ble) _ _
        (connected-Once w now payload n (connect w h)
          (ended-Accepts 0 n (w.on_connect h.attempts).error _ (λ e. omega arith) (λ x e. refl)))
        refl)
      (λ t. recovered-Once w now payload n t _ (send_marked-Once w now payload n t h refl))
  where
    n : ℕ
    n = accepted h.attempts
