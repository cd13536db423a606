-- ===== src/OAuth/Texts.antt =====
-- The checks of internal/application/oauth.go and api_tokens.go on texts.
pub mod Shapes
use redlaunch.Base.{
  ℕ, ◌+◌, ◌*◌, Bool, true, false, not, ◌&&◌, ◌||◌, List, [], ◌∷◌, ◌++◌, Option, none, some, Text,
  codes, text_eq, len, trim_space, cut_prefix, is_control, any_char, every_char, is_blank, is_hex,
  fields, ltb, leb, ◌==◌, if◌then◌else◌, Result, ok, err, length,
}
use redlaunch.Base.Number.{ℤ, pos, negsuc, parse_int, format_int, is_positive}
use redlaunch.OAuth.Types.{
  Platform, Url, Resource, Scope, run, manage, Error, invalid_client_metadata, invalid_redirect_uri,
  invalid_target, invalid_scope, Time, Token,
}

-- ValidateOAuthClientName
unfoldable pub validate_oauth_client_name : Text → Result Error Text
validate_oauth_client_name value =
    let name = trim_space value in
    if is_blank name
    then ok (codes "MCP client")
    else if ltb 100 (length name)
    then err invalid_client_metadata
    else if any_char is_control name
    then err invalid_client_metadata
    else ok name

-- IsLoopbackHost
unfoldable pub is_loopback_host : Platform → Text → Bool
is_loopback_host p host =
    let lower = p.to_lower host in
    if text_eq lower (codes "localhost") then true else p.is_loopback_ip lower

-- the switch on the scheme of a parsed redirect URI
scheme_allowed : Platform → Url → Bool
unfolding is_loopback_host
scheme_allowed p url =
    if text_eq url.scheme (codes "https")
    then true
    else if text_eq url.scheme (codes "http")
    then is_loopback_host p url.hostname
    else false

-- ValidateOAuthRedirectURI
unfoldable pub validate_oauth_redirect_uri : Platform → Text → Result Error Text
unfolding scheme_allowed
validate_oauth_redirect_uri p text =
    let value = trim_space text in
    if is_blank value || ltb 2048 (len value) || any_char (λ c. c == b'#') value
    then err invalid_redirect_uri
    else elim (p.parse_url value) [
      | none ↦ err invalid_redirect_uri
      | some url ↦
          if is_blank url.host || not (is_blank url.opaque) || url.has_user
          then err invalid_redirect_uri
          else if scheme_allowed p url
          then ok value
          else err invalid_redirect_uri
    ]

-- loopbackRedirectURIMatches; strings.EqualFold compares the lower-case forms
loopback_redirect_uri_matches : Platform → Text → Text → Bool
unfolding is_loopback_host
loopback_redirect_uri_matches p registered requested =
    if any_char (λ c. c == b'#') requested then false else elim (p.parse_url registered) [
      | none ↦ false
      | some left ↦ elim (p.parse_url requested) [
        | none ↦ false
        | some right ↦
            if right.has_user
            then false
            else if not (text_eq left.scheme (codes "http"))
                || not (text_eq right.scheme (codes "http"))
                || not (is_loopback_host p left.hostname)
                || not (is_loopback_host p right.hostname)
            then false
            else text_eq (p.to_lower left.hostname) (p.to_lower right.hostname)
              && text_eq left.path right.path
              && text_eq left.raw_query right.raw_query
      ]
    ]

-- OAuthRedirectURIMatches
unfoldable pub oauth_redirect_uri_matches : Platform → List Text → Text → Bool
unfolding loopback_redirect_uri_matches
oauth_redirect_uri_matches p [] requested = false
oauth_redirect_uri_matches p (candidate ∷ registered) requested =
    if text_eq candidate requested || loopback_redirect_uri_matches p candidate requested
    then true
    else oauth_redirect_uri_matches p registered requested

-- OAuthManageResource
unfoldable pub oauth_manage_resource : Text → Text
oauth_manage_resource origin = origin ++ codes "/mcp/manage"

-- OAuthApplicationResource
unfoldable pub oauth_application_resource : Text → ℤ → Text
oauth_application_resource origin application_id =
    (origin ++ codes "/mcp/apps/") ++ format_int application_id

-- the checks on the text of an application ID
unfoldable pub application_resource : Text → Text → Option ℤ → Result Error Resource
application_resource value text none = err invalid_target
application_resource value text (some (negsuc n)) = err invalid_target
application_resource value text (some (pos id)) =
    if ltb 0 id && text_eq (format_int (pos id)) text
    then ok (record { uri = value; scope = run; application_id = id })
    else err invalid_target

-- ParseOAuthResource
unfoldable pub parse_oauth_resource : Text → Text → Result Error Resource
unfolding application_resource oauth_manage_resource
parse_oauth_resource origin value =
    if text_eq value (oauth_manage_resource origin)
    then ok (record { uri = value; scope = manage; application_id = 0 })
    else elim (cut_prefix (origin ++ codes "/mcp/apps/") value) [
      | none ↦ err invalid_target
      | some text ↦ application_resource value text (parse_int text)
    ]

abbrev pub scope_text : Scope → Text
scope_text run = codes "run"
scope_text manage = codes "manage"

scope_fields : List Text → Scope → Result Error (Unit {0})
scope_fields [] scope = ok tt
scope_fields (field ∷ []) scope =
    if text_eq field (scope_text scope) then ok tt else err invalid_scope
scope_fields (field ∷ next ∷ rest) scope = err invalid_scope

-- ValidateOAuthScope
unfoldable pub validate_oauth_scope : Text → Resource → Result Error (Unit {0})
unfolding scope_fields
validate_oauth_scope requested resource = scope_fields (fields requested) resource.scope

is_unreserved_char : ℕ → Bool
is_unreserved_char c =
    (leb b'a' c && leb c b'z')
    || (leb b'A' c && leb c b'Z')
    || (leb b'0' c && leb c b'9')
    || c == b'-'
    || c == b'.'
    || c == b'_'
    || c == b'~'

-- isUnreserved
is_unreserved : Text → Bool
unfolding is_unreserved_char
is_unreserved value = every_char is_unreserved_char value

-- ValidOAuthCodeChallenge
unfoldable pub valid_oauth_code_challenge : Text → Bool
unfolding is_unreserved
valid_oauth_code_challenge challenge = len challenge == 43 && is_unreserved challenge

-- ValidOAuthCodeVerifier
unfoldable pub valid_oauth_code_verifier : Text → Bool
unfolding is_unreserved
valid_oauth_code_verifier verifier =
    leb 43 (len verifier) && leb (len verifier) 128 && is_unreserved verifier

-- VerifyOAuthPKCE
unfoldable pub verify_oauth_pkce : Platform → Text → Text → Bool
verify_oauth_pkce p verifier challenge =
    if not (valid_oauth_code_verifier verifier) || not (valid_oauth_code_challenge challenge)
    then false
    else text_eq (p.sha256_base64 verifier) challenge

-- the checks behind the prefix, 64 hexadecimal digits
token_secret : Text → Option Text → Option Text
token_secret trimmed none = none
token_secret trimmed (some secret) =
    if not (len secret == 64) then none else if is_hex secret then some trimmed else none

-- FormatOAuthRefreshToken
unfoldable pub format_oauth_refresh_token : Text → Text
format_oauth_refresh_token secret_hex = codes "rlrf_" ++ secret_hex

-- SplitOAuthRefreshToken; `none` is a false second result
unfoldable pub split_oauth_refresh_token : Text → Option Text
unfolding token_secret
split_oauth_refresh_token value =
    let trimmed = trim_space value in token_secret trimmed (cut_prefix (codes "rlrf_") trimmed)

-- FormatAPIToken
unfoldable pub format_api_token : Text → Text
format_api_token secret_hex = codes "rlr_" ++ secret_hex

-- SplitAPIToken
unfoldable pub split_api_token : Text → Option Text
unfolding token_secret
split_api_token value =
    let trimmed = trim_space value in token_secret trimmed (cut_prefix (codes "rlr_") trimmed)

expired_at : Option Time → Time → Bool
expired_at none now = false
expired_at (some expires) now = not (ltb now expires)

-- Expired
unfoldable pub expired : Token → Time → Bool
unfolding expired_at
expired t now = expired_at t.expires_at now
