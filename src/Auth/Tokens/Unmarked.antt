-- ===== src/Auth/Tokens/Unmarked.antt =====
-- `_refresh_mqtt` when the token session finds that its refresh token is rejected.
use py_mammotion.Base.{
  maybe, ℕ, ◌+◌, ◌<◌, ◌≡◌, ◌≢◌, refl, false, Option, none, some, ◌∷◌, leb, eqb, arith,
}
use py_mammotion.Auth.{
  relogin_required, Reason, oauth2_rejected, Manager, World, done, failed, bind, handle, answered,
  LoginResponseData, oauth2_token,
}
use py_mammotion.Auth.Login.{
  exchanged, token_reply, refresh_token_v2, check_code, ensure_token_valid, fetch_mqtt_credentials,
  is_retried, retry_on_network_error, get_mqtt_credentials,
}
use py_mammotion.Auth.Tokens.{
  raise_if_reauth_required, raise_if_unavailable, mqtt_failed, refresh_mqtt,
}

raise_if_reauth_required-healthy :
    (m : Manager) → m.reauth_required ≡ none → raise_if_reauth_required m ≡ done tt m
unfolding raise_if_reauth_required maybe
raise_if_reauth_required-healthy m r = ground (arith, r)

raise_if_unavailable-healthy :
    (o : Option Reason) (m : Manager) → o ≡ none → raise_if_unavailable o m ≡ done tt m
unfolding raise_if_unavailable
raise_if_unavailable-healthy o m r = ground (arith, r)

module _ (w : World) (now code : ℕ) (m : Manager) (old : LoginResponseData)
    (held : m.login_info ≡ some old) (near : leb (now + 300) m.expires_in ≡ false)
    (bad : eqb code 0 ≡ false)
    (rejected : w.on_oauth2_token m.requests
      ≡ answered (record { code = code; content = none })) where
  ensure_token_valid-rejected :
      ensure_token_valid w now m
      ≡ failed
          (relogin_required (oauth2_rejected code))
          (record m { requests = oauth2_token ∷ m.requests })
  unfolding ensure_token_valid refresh_token_v2 token_reply exchanged check_code maybe bind
  ensure_token_valid-rejected = rw near (rw held (rw rejected (rw bad refl)))

  get_mqtt_credentials-rejected :
      get_mqtt_credentials w now m
      ≡ failed
          (relogin_required (oauth2_rejected code))
          (record m { requests = oauth2_token ∷ m.requests })
  unfolding get_mqtt_credentials fetch_mqtt_credentials retry_on_network_error is_retried bind
      handle
  get_mqtt_credentials-rejected = rw ensure_token_valid-rejected refl

  refresh_mqtt-rejected :
      m.reauth_required ≡ none
      → m.mqtt_unavailable ≡ none
      → refresh_mqtt w now m
        ≡ failed
            (relogin_required (oauth2_rejected code))
            (record m { requests = oauth2_token ∷ m.requests })
  unfolding refresh_mqtt mqtt_failed bind handle
  refresh_mqtt-rejected r u = rw (raise_if_reauth_required-healthy m r) (
      rw (raise_if_unavailable-healthy m.mqtt_unavailable m u)
        (rw get_mqtt_credentials-rejected refl))

-- If neither the account nor MQTT is given up, the access token is within 300 seconds of its
-- expiry, and the server rejects the refresh token with a code other than 0 and no data, then a
-- refresh of the MQTT credentials fails with ReLoginRequiredError and marks neither the account nor
-- MQTT.
pub refresh_mqtt-unmarked :
    (w : World) (now code : ℕ) (m : Manager) (old : LoginResponseData)
    → m.login_info ≡ some old
    → m.expires_in < now + 300
    → code ≢ 0
    → w.on_oauth2_token m.requests ≡ answered (record { code = code; content = none })
    → m.reauth_required ≡ none
    → m.mqtt_unavailable ≡ none
    → refresh_mqtt w now m
      ≡ failed
          (relogin_required (oauth2_rejected code))
          (record m { requests = oauth2_token ∷ m.requests })
refresh_mqtt-unmarked w now code m old held near bad rejected =
    refresh_mqtt-rejected w now code m old held (ground (arith, near)) (ground (arith, bad))
      rejected
