-- ===== src/Auth.antt =====
-- The credentials of one account: the token session of pymammotion/http/http.py (`MammotionHTTP`)
-- and pymammotion/auth/token_manager.py (`TokenManager`). This file has the state that the two
-- share, what the servers answer, and how an operation ends.
--
-- The servers are the parameter `World`: what each answers may depend on all requests before, which
-- the state lists, the last first. Times are whole seconds, where the source has fractions too; an operation reads the clock once, as
-- its argument `now`. An operation that holds `self._lock` is one step. The listeners
-- `on_credentials_updated` and the logging are left out.
pub mod Login
pub mod Tokens
pub mod Scheduler
use py_mammotion.Base.{ℕ, String, Bool, true, false, Option, List}

pub data Reason : Type 0 where
  oauth2_rejected : ℕ → Reason
  http_refresh_rejected : Reason
  no_login_session : Reason
  no_cloud_gateway : Reason
  no_mqtt_data : Reason
  no_session_data : Reason
  no_credentials_after_refresh : Reason
  rebuild_failed : Reason
  exception_text : Reason

-- `timed_out` stands for TimeoutError and the connector errors of aiohttp, `disconnected` for the
-- other errors that `is_transient_network_error` takes, `client_error` for the other errors of
-- aiohttp, `login_exception` for AuthRefreshException and LoginException.
pub data Error : Type 0 where
  timed_out : Error
  disconnected : Error
  client_error : Error
  unauthorized : Error
  relogin_required : Reason → Error
  session_expired : Error
  login_exception : Error
  auth_error : Error
  no_gateway_configured : Error
  other_error : Error

unfoldable pub is_transient_network_error : Error → Bool
is_transient_network_error timed_out = true
is_transient_network_error disconnected = true
is_transient_network_error e = false

pub record LoginResponseData : Type 0 where
  pub access_token : String
  pub refresh_token : String
  pub expires_in : ℕ

pub record HttpCredentials : Type 0 where
  pub access_token : String
  pub refresh_token : String
  pub expires_at : ℕ

pub record AliyunCredentials : Type 0 where
  pub iot_token : String
  pub iot_token_expires_at : ℕ
  pub refresh_token : String
  pub refresh_token_expires_at : ℕ

pub record MqttConnection : Type 0 where
  pub host : String
  pub client_id : String
  pub username : String
  pub jwt : String

pub record MqttCredentials : Type 0 where
  pub host : String
  pub client_id : String
  pub username : String
  pub jwt : String
  pub expires_at : ℕ

pub record SessionData : Type 0 where
  pub iot_token : String
  pub iot_token_expire : ℕ
  pub refresh_token : String
  pub refresh_token_expire : ℕ

-- What the manager reads of the cloud gateway.
pub record Gateway : Type 0 where
  pub session_data : Option SessionData
  pub iot_token_issued_at : ℕ

-- `Response[LoginResponseData]`, and what `/authorization/code` answers.
pub record TokenResponse : Type 0 where
  pub code : ℕ
  pub content : Option LoginResponseData

pub record CodeResponse : Type 0 where
  pub code : ℕ
  pub access_token : Option String

-- `no_body` is an answer other than status 200 with JSON; `body` has the `data` of the response.
pub data JwtResponse : Type 0 where
  no_body : JwtResponse
  body : Option MqttConnection → JwtResponse

pub data Reply (A : Type 0) : Type 0 where
  answered : A → Reply A
  raised : Error → Reply A

-- `session_refresh` is `check_or_refresh_session`, `session_rebuild` the calls of `connect_iot`.
pub data Request : Type 0 where
  oauth2_token : Request
  authorization_code : Request
  mqtt_jwt : Request
  session_refresh : Request
  session_rebuild : Request

-- What `jwt.decode` makes of a token: it raises, or the `exp` claim that `float` reads, if there is
-- one; an `exp` claim that is no number counts as a token that cannot be decoded.
pub data Decoded : Type 0 where
  undecodable : Decoded
  claims : Option ℕ → Decoded

-- `jwt_decode` is that of the package `jwt`.
pub record World : Type 0 where
  pub on_oauth2_token : List Request → Reply TokenResponse
  pub on_authorization_code : List Request → Reply CodeResponse
  pub on_mqtt_jwt : List Request → Reply JwtResponse
  pub on_session_refresh : List Request → Reply Gateway
  pub on_session_rebuild : List Request → Reply Gateway
  pub jwt_decode : String → Decoded

-- The token session and the manager. `bind_token` is what `on_aliyun_token_refreshed` was last
-- called with.
pub record Manager : Type 0 where
  pub login_info : Option LoginResponseData
  pub expires_in : ℕ
  pub mqtt_credentials : Option MqttConnection
  pub cloud_gateway : Option Gateway
  pub http_creds : Option HttpCredentials
  pub aliyun_creds : Option AliyunCredentials
  pub mqtt_creds : Option MqttCredentials
  pub reauth_required : Option Reason
  pub aliyun_unavailable : Option Reason
  pub mqtt_unavailable : Option Reason
  pub bind_token : Option String
  pub requests : List Request

-- How an operation ends, with the state it leaves.
pub data Outcome (A : Type 0) : Type 0 where
  done : A → Manager → Outcome A
  failed : Error → Manager → Outcome A

unfoldable pub state : {A : Type 0} → Outcome A → Manager
state (done a m) = m
state (failed e m) = m

-- `await` of an operation, and `try` with its `except` clauses.
unfoldable pub bind : {A B : Type 0} → Outcome A → (A → Manager → Outcome B) → Outcome B
bind (done a m) k = k a m
bind (failed e m) k = failed e m

unfoldable pub handle : {A : Type 0} → Outcome A → (Error → Manager → Outcome A) → Outcome A
handle (done a m) h = done a m
handle (failed e m) h = h e m
