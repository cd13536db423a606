-- ===== src/OAuth/Types.antt =====
-- The types of internal/application/oauth.go and api_tokens.go, and what the server takes from the
-- standard library. Text descriptions of errors are left out: the error code stands for the error.
use redlaunch.Base.{ℕ, ◌*◌, Bool, List, Option, Text, ◌==◌}
use redlaunch.Base.Assoc.{Table}

-- a time.Time as the nanoseconds since the zero time, and a time.Duration
abbrev pub Time : Type 0
Time = ℕ

abbrev pub is_zero_time : Time → Bool
is_zero_time t = t == 0

abbrev pub second : ℕ
second = 1_000_000_000

abbrev pub minute : ℕ
minute = 60 * second

abbrev pub hour : ℕ
hour = 60 * minute

abbrev pub day : ℕ
day = 24 * hour

abbrev pub oauth_access_token_lifetime : ℕ
oauth_access_token_lifetime = hour

abbrev pub oauth_refresh_idle_lifetime : ℕ
oauth_refresh_idle_lifetime = 30 * day

abbrev pub oauth_refresh_absolute_lifetime : ℕ
oauth_refresh_absolute_lifetime = 90 * day

abbrev pub oauth_authorization_code_lifetime : ℕ
oauth_authorization_code_lifetime = minute

abbrev pub oauth_refresh_grace_period : ℕ
oauth_refresh_grace_period = minute

-- the OAuth error codes, and the errors of the store
pub data Error : Type 0 where
  invalid_request invalid_client invalid_grant invalid_scope invalid_target : Error
  invalid_redirect_uri invalid_client_metadata unsupported_grant_type : Error
  unsupported_response_type access_denied temporarily_unavailable : Error
  client_not_found grant_not_found rotation_conflict hash_missing constraint url_invalid : Error
  token_not_found token_invalid token_expired token_scope_invalid : Error
  display_name_required display_name_too_long display_name_invalid expiry_invalid : Error
  application_required application_not_found : Error

-- the two scopes of a token, `run` and `manage`, and any other text
pub data Scope : Type 0 where
  run manage : Scope

-- OAuthClient
pub record Client : Type 0 where
  pub id : Text
  pub name : Text
  pub redirect_uris : List Text
  pub created_at : Time

-- OAuthClientRegistration
pub record Registration : Type 0 where
  pub client_name : Text
  pub redirect_uris : List Text
  pub grant_types : List Text
  pub response_types : List Text
  pub token_endpoint_auth_method : Text

-- OAuthResource; the application ID is 0 for the management endpoint
pub record Resource : Type 0 where
  pub uri : Text
  pub scope : Scope
  pub application_id : ℕ

-- APIToken with its verifier; the application ID is 0 for a management token
pub record Token : Type 0 where
  pub id : ℕ
  pub display_name : Text
  pub prefix : Text
  pub token_hash : Text
  pub application_id : ℕ
  pub scope : Scope
  pub created_at : Time
  pub expires_at : Option Time
  pub last_used_at : Option Time

-- OAuthGrant; a hash that was never set is the empty text
pub record Grant : Type 0 where
  pub id : ℕ
  pub client_id : Text
  pub display_name : Text
  pub resource : Text
  pub scope : Scope
  pub application_id : ℕ
  pub access_token_id : ℕ
  pub refresh_token_hash : Text
  pub previous_refresh_token_hash : Text
  pub rotated_at : Time
  pub created_at : Time
  pub refresh_idle_expires_at : Time
  pub absolute_expires_at : Time

-- OAuthGrantRotation; the token's verifier stands in the token
pub record Rotation : Type 0 where
  pub grant_id : ℕ
  pub expected_refresh_hash : Text
  pub access : Token
  pub refresh_hash : Text
  pub rotated_at : Time
  pub refresh_idle_expires_at : Time

-- OAuthAuthorizationRequest
pub record AuthorizationRequest : Type 0 where
  pub client_id : Text
  pub redirect_uri : Text
  pub response_type : Text
  pub state : Text
  pub code_challenge : Text
  pub code_challenge_method : Text
  pub resource : Text
  pub scope : Text

-- OAuthAuthorization
pub record Authorization : Type 0 where
  pub client : Client
  pub resource : Resource
  pub application_name : Text
  pub redirect_uri : Text
  pub state : Text
  pub code_challenge : Text

-- OAuthTokenRequest
pub record TokenRequest : Type 0 where
  pub grant_type : Text
  pub client_id : Text
  pub code : Text
  pub redirect_uri : Text
  pub code_verifier : Text
  pub refresh_token : Text
  pub resource : Text

-- OAuthTokenResponse; `TokenType` is always Bearer
pub record TokenResponse : Type 0 where
  pub access_token : Text
  pub expires_in : ℕ
  pub refresh_token : Text
  pub scope : Scope

-- OAuthConnection
pub record Connection : Type 0 where
  pub id : ℕ
  pub client_id : Text
  pub client_name : Text
  pub resource : Text
  pub scope : Scope
  pub application_id : ℕ
  pub created_at : Time
  pub last_used_at : Option Time
  pub expires_at : Time
  pub expired : Bool

-- what url.Parse returns, as far as it is read
pub record Url : Type 0 where
  pub scheme : Text
  pub host : Text
  pub hostname : Text
  pub opaque : Text
  pub has_user : Bool
  pub path : Text
  pub raw_query : Text

-- What the code takes from packages crypto/sha256, encoding/base64, net and net/url.
pub record Platform : Type 0 where
  -- sha256.Sum256
  pub sha256 : Text → Text
  -- base64.RawURLEncoding of the SHA-256 of a text
  pub sha256_base64 : Text → Text
  -- url.Parse
  pub parse_url : Text → Option Url
  -- net.ParseIP with IsLoopback
  pub is_loopback_ip : Text → Bool
  -- strings.ToLower
  pub to_lower : Text → Text
  -- URL.Query
  pub query : Url → Table (List Text)
  -- URL.String, with the encoded values for its query
  pub with_query : Url → Table (List Text) → Text
