-- ===== src/Auth/Tokens/Refreshes.antt =====
-- The refreshes and getters of TokenManager, taken apart into their writes.
use py_mammotion.Base.{ℕ, String, Option, none, some, string_keys, arith}
use py_mammotion.Auth.{
  Error, exception_text, rebuild_failed, MqttConnection, Gateway, Reply, answered, raised,
  session_refresh, session_rebuild, World, Manager, done, state, is_transient_network_error,
  no_mqtt_data,
}
use py_mammotion.Auth.Login.{fetch_authorization_token, get_mqtt_credentials}
use py_mammotion.Auth.Tokens.{
  raise_if_reauth_required, mark_reauth_required, mark_aliyun_unavailable, mark_mqtt_unavailable,
  refresh_http, set_mqtt_creds, second_jwt, retry_jwt, first_jwt, mqtt_failed, raise_if_unavailable,
  refresh_mqtt, gateway_reply, connect_iot, rebuild_failure, session_failed,
  check_or_refresh_session, adopt_session, aliyun_failed, renew_session, refresh_aliyun,
  already_renewed, invoke_failed, renew_invoke_token, refresh_invoke_token, mqtt_valid,
  aliyun_valid, get_mammotion_mqtt_credentials, get_aliyun_credentials,
}
use py_mammotion.Auth.Tokens.Writes.{
  HttpClosed, HttpKeeps, MqttClosed, AliyunClosed, state-bind, state-handle, state-maybe, state-if,
  state-done, state-failed, state-held_creds, state-raise_if_reauth_required,
  state-raise_if_unavailable, state-fetch_authorization_token, state-refresh_http,
}

module _ (P : Manager → Type 0) (w : World) (k : HttpKeeps P w) (d : MqttClosed P) where
  state-second_jwt :
      (now : ℕ) (o : Option MqttConnection) (m : Manager) → P m → P (state (second_jwt w now o m))
  unfolding second_jwt set_mqtt_creds mark_mqtt_unavailable state
  state-second_jwt now none m p = d.given_up no_mqtt_data m p
  state-second_jwt now (some connection) m p = d.renewed _ m p

  state-retry_jwt : (now : ℕ) (m : Manager) → P m → P (state (retry_jwt w now m))
  unfolding retry_jwt
  state-retry_jwt now m p = state-bind P (refresh_http w now m) _ (k.renews now m p) (λ u m1 p1.
      state-bind P (fetch_authorization_token w m1) _ (k.fetches m1 p1) (λ u' m2 p2.
        state-bind P (get_mqtt_credentials w now m2) (second_jwt w now) (k.gets now m2 p2)
          (state-second_jwt now)))

  state-first_jwt :
      (now : ℕ) (o : Option MqttConnection) (m : Manager) → P m → P (state (first_jwt w now o m))
  unfolding first_jwt set_mqtt_creds state
  state-first_jwt now none m p = state-retry_jwt now m p
  state-first_jwt now (some connection) m p = d.renewed _ m p

  state-mqtt_failed : (e : Error) (m : Manager) → P m → P (state (mqtt_failed e m))
  unfolding mqtt_failed is_transient_network_error mark_mqtt_unavailable state
  state-mqtt_failed e m p = ground (arith, p, d.given_up exception_text m p)

  pub state-refresh_mqtt : (now : ℕ) (m : Manager) → P m → P (state (refresh_mqtt w now m))
  unfolding refresh_mqtt
  state-refresh_mqtt now m p =
      state-bind P (raise_if_reauth_required m) _ (state-raise_if_reauth_required P m p) (λ u m1 p1.
        state-bind P (raise_if_unavailable m1.mqtt_unavailable m1) _
          (state-raise_if_unavailable P m1.mqtt_unavailable m1 p1)
          (λ u' m2 p2.
            state-handle P _ mqtt_failed
              (state-bind P (get_mqtt_credentials w now m2) (first_jwt w now) (k.gets now m2 p2)
                (state-first_jwt now))
              state-mqtt_failed))

  pub state-get_mammotion_mqtt_credentials :
      (now : ℕ) (m : Manager) → P m → P (state (get_mammotion_mqtt_credentials w now m))
  unfolding get_mammotion_mqtt_credentials
  state-get_mammotion_mqtt_credentials now m p =
      state-if P (mqtt_valid now m.mqtt_creds) _ _ (state-held_creds P m.mqtt_creds m p) (
        state-bind P (refresh_mqtt w now m) _ (state-refresh_mqtt now m p)
          (λ fetched m' p'. state-held_creds P m'.mqtt_creds m' p'))

module _ (P : Manager → Type 0) (c : HttpClosed P) where
  state-invoke_failed : (e : Error) (m : Manager) → P m → P (state (invoke_failed e m))
  unfolding invoke_failed is_transient_network_error mark_reauth_required state
  state-invoke_failed e m p = ground (arith, p, c.reauth exception_text m p)

  pub state-refresh_invoke_token :
      (w : World) (now : ℕ) (s : Option String) (m : Manager)
      → P m
      → P (state (refresh_invoke_token w now s m))
  unfolding refresh_invoke_token renew_invoke_token
  state-refresh_invoke_token w now s m p =
      state-if P (already_renewed s m) (done tt m) _ (state-done P tt m p) (
        state-handle P _ invoke_failed
          (state-bind P (refresh_http w now m) _ (state-refresh_http P c w now m p)
            (λ u m' p'. state-fetch_authorization_token P c w m' p'))
          state-invoke_failed)

module _ (P : Manager → Type 0) (c : AliyunClosed P) where
  state-gateway_reply : (r : Reply Gateway) (m : Manager) → P m → P (state (gateway_reply r m))
  unfolding gateway_reply state
  state-gateway_reply (raised e) m p = p
  state-gateway_reply (answered g) m p = c.connected g m p

  state-connect_iot : (w : World) (m : Manager) → P m → P (state (connect_iot w m))
  unfolding connect_iot
  state-connect_iot w m p = state-maybe P m.cloud_gateway _ _ (state-failed P _ _ m p) (λ g.
      state-maybe P m.login_info _ _ (state-failed P _ _ m p) (λ l.
        state-gateway_reply (w.on_session_rebuild m.requests) _ (c.asked session_rebuild m p)))

  state-rebuild_failure : (e : Error) (m : Manager) → P m → P (state (rebuild_failure e m))
  unfolding rebuild_failure mark_aliyun_unavailable state
  state-rebuild_failure e m p = ground (arith, p, c.given_up rebuild_failed m p)

  state-session_failed :
      (w : World) (e : Error) (m : Manager) → P m → P (state (session_failed w e m))
  unfolding session_failed state
  state-session_failed w e m p = ground (
    arith,
    p,
    state-handle P (connect_iot w m) rebuild_failure (state-connect_iot w m p)
        state-rebuild_failure,
  )

  state-adopt_session : (o : Option Gateway) (m : Manager) → P m → P (state (adopt_session o m))
  unfolding adopt_session state
  state-adopt_session none m p = p
  state-adopt_session (some g) m p =
      state-maybe P g.session_data _ _ p (λ s. c.renewed _ s.iot_token m p)

  state-renew_session : (w : World) (m : Manager) → P m → P (state (renew_session w m))
  unfolding renew_session check_or_refresh_session
  state-renew_session w m p =
      state-bind P _ _
        (state-handle P (check_or_refresh_session w m) (session_failed w)
          (state-gateway_reply (w.on_session_refresh m.requests) _ (c.asked session_refresh m p))
          (state-session_failed w))
        (λ u m' p'. state-adopt_session m'.cloud_gateway m' p')

  state-aliyun_failed : (e : Error) (m : Manager) → P m → P (state (aliyun_failed e m))
  unfolding aliyun_failed is_transient_network_error mark_aliyun_unavailable state
  state-aliyun_failed e m p = ground (arith, p, c.given_up exception_text m p)

  pub state-refresh_aliyun : (w : World) (m : Manager) → P m → P (state (refresh_aliyun w m))
  unfolding refresh_aliyun
  state-refresh_aliyun w m p = state-maybe P m.cloud_gateway _ _ (state-failed P _ _ m p) (λ g.
      state-bind P (raise_if_unavailable m.aliyun_unavailable m) _
        (state-raise_if_unavailable P m.aliyun_unavailable m p)
        (λ u m1 p1.
          state-bind P (raise_if_reauth_required m1) _ (state-raise_if_reauth_required P m1 p1)
            (λ u' m2 p2.
              state-handle P (renew_session w m2) aliyun_failed (state-renew_session w m2 p2)
                state-aliyun_failed)))

  pub state-get_aliyun_credentials :
      (w : World) (now : ℕ) (m : Manager) → P m → P (state (get_aliyun_credentials w now m))
  unfolding get_aliyun_credentials
  state-get_aliyun_credentials w now m p =
      state-maybe P m.cloud_gateway _ _ (state-failed P _ _ m p) (λ g.
        state-if P (aliyun_valid now m.aliyun_creds) _ _ (state-held_creds P m.aliyun_creds m p) (
          state-bind P (refresh_aliyun w m) _ (state-refresh_aliyun w m p)
            (λ u m' p'. state-held_creds P m'.aliyun_creds m' p')))
