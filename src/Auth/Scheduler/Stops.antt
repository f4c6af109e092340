-- ===== src/Auth/Scheduler/Stops.antt =====
-- What a pass of the scheduler that stops it leaves.
use py_mammotion.Base.{
  maybe, ℕ, ◌≡◌, refl, ap, subst, Bool, true, false, ◌&&◌, Option, none, some, if◌then◌else◌, ltb,
}
use py_mammotion.Auth.{
  Error, timed_out, disconnected, client_error, unauthorized, relogin_required, session_expired,
  login_exception, auth_error, no_gateway_configured, other_error, Reason, World, Manager, Outcome,
  done, failed, bind, handle, is_transient_network_error, http_refresh_rejected, exception_text,
}
use py_mammotion.Auth.Login.{refresh_token_v2}
use py_mammotion.Auth.Tokens.{
  raise_if_reauth_required, first, mark_reauth_required, adopt_http, http_failed, refresh_http,
}
use py_mammotion.Auth.Tokens.Silent.{is_some}
use py_mammotion.Auth.Tokens.Health.{Ends, Ends-bind, Ends-handle, Ends-maybe}
use py_mammotion.Auth.Scheduler.{
  seconds_until_next_refresh, http_due, renew_due_http, give_up, mqtt_due, renew_due_mqtt,
  aliyun_due, renew_due_aliyun, refresh_due_credentials, Pass, stopped, asleep, awake, refreshed,
  scheduler_pass,
}
use py_mammotion.Auth.Tokens.Fresh.{Ends-Any, Ends-if}

marked : (o : Option Reason) (r : Reason) → is_some (first o r) ≡ true
unfolding first
marked none r = refl
marked (some x) r = refl

-- An error that ends with the account marked, if it is ReLoginRequiredError.
abbrev Marks : Error → Manager → Type 0
Marks e m = (r : Reason) → e ≡ relogin_required r → is_some m.reauth_required ≡ true

http_failed-Marks : (e : Error) (m : Manager) → Ends (λ u m'. Unit {0}) Marks (http_failed e m)
unfolding http_failed mark_reauth_required is_transient_network_error first
http_failed-Marks timed_out m = λ r x. absurd (cc x)
http_failed-Marks disconnected m = λ r x. absurd (cc x)
http_failed-Marks (relogin_required reason) m =
    λ r x. marked m.reauth_required http_refresh_rejected
http_failed-Marks client_error m = λ r x. marked m.reauth_required exception_text
http_failed-Marks unauthorized m = λ r x. marked m.reauth_required exception_text
http_failed-Marks session_expired m = λ r x. marked m.reauth_required exception_text
http_failed-Marks login_exception m = λ r x. marked m.reauth_required exception_text
http_failed-Marks auth_error m = λ r x. marked m.reauth_required exception_text
http_failed-Marks no_gateway_configured m = λ r x. marked m.reauth_required exception_text
http_failed-Marks other_error m = λ r x. marked m.reauth_required exception_text

raise_if_reauth_required-Marks :
    (m : Manager) → Ends (λ u m'. Unit {0}) Marks (raise_if_reauth_required m)
unfolding raise_if_reauth_required
raise_if_reauth_required-Marks m =
    Ends-maybe (λ u m'. Unit {0}) Marks m.reauth_required _ _ (λ e. tt)
      (λ reason e r x. ap is_some e)

refresh_http-Marks :
    (w : World) (now : ℕ) (m : Manager) → Ends (λ u m'. Unit {0}) Marks (refresh_http w now m)
unfolding refresh_http
refresh_http-Marks w now m =
    Ends-bind (λ u m'. Unit {0}) Marks (λ u m'. Unit {0}) (raise_if_reauth_required m) _
      (raise_if_reauth_required-Marks m)
      (λ u m1 h.
        Ends-handle (λ u' m'. Unit {0}) Marks (λ e m'. Unit {0}) _ http_failed
          (Ends-Any (bind (refresh_token_v2 w now m1) (adopt_http now)))
          (λ e m' h'. http_failed-Marks e m'))

give_up-Marks : (e : Error) (m : Manager) → Ends (λ b m'. Unit {0}) Marks (give_up e m)
unfolding give_up
give_up-Marks (relogin_required reason) m = tt
give_up-Marks timed_out m = λ r x. absurd (cc x)
give_up-Marks disconnected m = λ r x. absurd (cc x)
give_up-Marks client_error m = λ r x. absurd (cc x)
give_up-Marks unauthorized m = λ r x. absurd (cc x)
give_up-Marks session_expired m = λ r x. absurd (cc x)
give_up-Marks login_exception m = λ r x. absurd (cc x)
give_up-Marks auth_error m = λ r x. absurd (cc x)
give_up-Marks no_gateway_configured m = λ r x. absurd (cc x)
give_up-Marks other_error m = λ r x. absurd (cc x)

-- A refresh that may give up its transport.
tolerant-Marks :
    (b : Bool) (o : Outcome Bool) (m : Manager)
    → Ends (λ x m'. Unit {0}) Marks (if b then handle o give_up else done true m)
tolerant-Marks b o m =
    Ends-if (λ x m'. Unit {0}) Marks b _ _
      (Ends-handle (λ x m'. Unit {0}) Marks (λ e m'. Unit {0}) o give_up (Ends-Any o)
        (λ e m' h. give_up-Marks e m'))
      tt

refresh_due_credentials-Marks :
    (w : World) (now : ℕ) (m : Manager)
    → Ends (λ ok m'. Unit {0}) Marks (refresh_due_credentials w now m)
unfolding refresh_due_credentials renew_due_http renew_due_mqtt renew_due_aliyun
refresh_due_credentials-Marks w now m =
    Ends-bind (λ ok m'. Unit {0}) Marks (λ u m'. Unit {0}) (renew_due_http w now m) _
      (Ends-if (λ u m'. Unit {0}) Marks (http_due now m) _ _ (refresh_http-Marks w now m) tt)
      (λ u m1 h1.
        Ends-bind (λ ok m'. Unit {0}) Marks (λ ok m'. Unit {0}) (renew_due_mqtt w now m1) _
          (tolerant-Marks (mqtt_due now m1) _ m1)
          (λ ok m2 h2.
            Ends-bind (λ ok' m'. Unit {0}) Marks (λ ok' m'. Unit {0}) (renew_due_aliyun w now m2) _
              (tolerant-Marks (aliyun_due now m2) _ m2) (λ ok' m3 h3. tt)))

abbrev GivenUp : Pass → Type 0
GivenUp (stopped m) = is_some m.reauth_required ≡ true
GivenUp (asleep d m) = Unit
GivenUp (awake m) = Unit

refreshed-GivenUp :
    (later : ℕ) (o : Outcome Bool) → Ends (λ ok m. Unit {0}) Marks o → GivenUp (refreshed later o)
unfolding refreshed
refreshed-GivenUp later (done ok m) h = go (ok && ltb 0 (seconds_until_next_refresh later m))
  where
    go : (b : Bool) → GivenUp (if b then awake m else asleep 300 m)
    go true = tt
    go false = tt
refreshed-GivenUp later (failed (relogin_required r) m) h = h r refl
refreshed-GivenUp later (failed timed_out m) h = tt
refreshed-GivenUp later (failed disconnected m) h = tt
refreshed-GivenUp later (failed client_error m) h = tt
refreshed-GivenUp later (failed unauthorized m) h = tt
refreshed-GivenUp later (failed session_expired m) h = tt
refreshed-GivenUp later (failed login_exception m) h = tt
refreshed-GivenUp later (failed auth_error m) h = tt
refreshed-GivenUp later (failed no_gateway_configured m) h = tt
refreshed-GivenUp later (failed other_error m) h = tt

scheduler_pass-GivenUp :
    (w : World) (now later : ℕ) (m : Manager) → GivenUp (scheduler_pass w now later m)
unfolding scheduler_pass
scheduler_pass-GivenUp w now later m =
    go m.reauth_required (ltb 0 (seconds_until_next_refresh now m)) refl
  where
    go :
        (o : Option Reason) (b : Bool)
        → m.reauth_required ≡ o
        → GivenUp (
            maybe o
              (if b
                then asleep (seconds_until_next_refresh now m) m
                else refreshed later (refresh_due_credentials w now m))
              (λ reason. stopped m))
    go (some r) b h = ap is_some h
    go none true h = tt
    go none false h =
        refreshed-GivenUp later (refresh_due_credentials w now m)
          (refresh_due_credentials-Marks w now m)

-- If a pass of the refresh scheduler stops it, the account is marked as in need of
-- re-authentication.
pub stopped_only_if :
    (w : World) (now later : ℕ) (m m' : Manager)
    → scheduler_pass w now later m ≡ stopped m'
    → is_some m'.reauth_required ≡ true
stopped_only_if w now later m m' e = subst GivenUp e (scheduler_pass-GivenUp w now later m)
