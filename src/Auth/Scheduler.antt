-- ===== src/Auth/Scheduler.antt =====
-- pymammotion/auth/token_manager.py, the scheduled refresh: when the next credential is due, the
-- refresh of those that are, and one pass of the loop of `_refresh_scheduler`. An expiry of 0 is no
-- expiry, as `_expiry` has it.
pub mod Due
pub mod Passes
pub mod Stops
use py_mammotion.Base.{
  maybe, ℕ, zero, suc, ◌+◌, ◌-◌, Bool, true, false, ◌&&◌, Option, none, some, List, [], ◌∷◌, ◌++◌,
  if◌then◌else◌, ltb, leb, eqb, not,
}
use py_mammotion.Auth.{
  Error, relogin_required, Reason, AliyunCredentials, MqttCredentials, Gateway, World, Manager,
  Outcome, done, failed, bind, handle,
}
use py_mammotion.Auth.Tokens.{refresh_http, refresh_mqtt, refresh_aliyun}

-- `_expiry`, and the time at which a credential falls due.
unfoldable pub due_time : ℕ → ℕ → List ℕ
due_time lead zero = []
due_time lead (suc exp) = (suc exp - lead) ∷ []

unfoldable pub due_at : Manager → List ℕ
unfolding due_time maybe
due_at m =
    due_time 300 m.expires_in
    ++ (maybe m.mqtt_creds [] (λ c. due_time 1800 c.expires_at)
        ++ maybe m.aliyun_creds [] (λ c. due_time 3600 c.iot_token_expires_at))

unfoldable pub earliest : ℕ → List ℕ → ℕ
earliest t [] = t
earliest t (x ∷ xs) = earliest (if ltb x t then x else t) xs

unfoldable pub delay_until : ℕ → List ℕ → ℕ
unfolding earliest
delay_until now [] = 3600
delay_until now (t ∷ ts) = let wait = earliest t ts - now in if ltb wait 3600 then wait else 3600

unfoldable pub seconds_until_next_refresh : ℕ → Manager → ℕ
unfolding due_at delay_until
seconds_until_next_refresh now m = delay_until now (due_at m)

-- `_refresh_due_credentials`: the three refreshes, of which the last two may give up.
unfoldable pub http_due : ℕ → Manager → Bool
http_due now m = not (eqb m.expires_in 0) && leb m.expires_in (now + 300)

unfoldable pub renew_due_http : World → ℕ → Manager → Outcome Unit
unfolding http_due
renew_due_http w now m = if http_due now m then refresh_http w now m else done tt m

unfoldable pub give_up : Error → Manager → Outcome Bool
give_up (relogin_required reason) m = done false m
give_up e m = failed e m

unfoldable pub mqtt_due : ℕ → Manager → Bool
unfolding maybe
mqtt_due now m =
    maybe m.mqtt_unavailable true (λ r. false)
    && maybe m.mqtt_creds false (λ c. leb c.expires_at (now + 1800))

unfoldable pub renew_due_mqtt : World → ℕ → Manager → Outcome Bool
unfolding mqtt_due give_up bind handle
renew_due_mqtt w now m =
    if mqtt_due now m
    then handle (bind (refresh_mqtt w now m) (λ creds m'. done true m')) give_up
    else done true m

unfoldable pub aliyun_due : ℕ → Manager → Bool
unfolding maybe
aliyun_due now m =
    maybe m.aliyun_unavailable true (λ r. false)
    && maybe m.cloud_gateway false (λ g. true)
    && maybe m.aliyun_creds false (λ c. leb c.iot_token_expires_at (now + 3600))

unfoldable pub renew_due_aliyun : World → ℕ → Manager → Outcome Bool
unfolding aliyun_due give_up bind handle
renew_due_aliyun w now m =
    if aliyun_due now m
    then handle (bind (refresh_aliyun w m) (λ u m'. done true m')) give_up
    else done true m

unfoldable pub refresh_due_credentials : World → ℕ → Manager → Outcome Bool
unfolding renew_due_http renew_due_mqtt renew_due_aliyun bind
refresh_due_credentials w now m = bind (renew_due_http w now m) (λ u m1.
    bind (renew_due_mqtt w now m1)
      (λ ok m2. bind (renew_due_aliyun w now m2) (λ ok' m3. done (ok && ok') m3)))

-- How a pass of the loop ends. `asleep` has the seconds of the sleep.
pub data Pass : Type 0 where
  stopped : Manager → Pass
  asleep : ℕ → Manager → Pass
  awake : Manager → Pass

-- `later` is the time when the refreshes have ended.
unfoldable pub refreshed : ℕ → Outcome Bool → Pass
unfolding seconds_until_next_refresh
refreshed later (done ok m) =
    if ok && ltb 0 (seconds_until_next_refresh later m) then awake m else asleep 300 m
refreshed later (failed (relogin_required reason) m) = stopped m
refreshed later (failed e m) = asleep 300 m

unfoldable pub scheduler_pass : World → ℕ → ℕ → Manager → Pass
unfolding seconds_until_next_refresh refresh_due_credentials refreshed maybe
scheduler_pass w now later m =
    maybe m.reauth_required
      (if ltb 0 (seconds_until_next_refresh now m)
        then asleep (seconds_until_next_refresh now m) m
        else refreshed later (refresh_due_credentials w now m))
      (λ reason. stopped m)
