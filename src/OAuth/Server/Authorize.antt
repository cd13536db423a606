-- ===== src/OAuth/Server/Authorize.antt =====
-- OAuthService.ValidateAuthorization and CompleteAuthorization (internal/service/oauth.go).
use redlaunch.Base.{
  ◌+◌, Bool, not, ◌||◌, List, [], ◌∷◌, none, some, Text, codes, text_eq, ltb, leb, if◌then◌else◌,
  is_blank, Result, ok, err, ◌>>=◌, length, len,
}
use redlaunch.Base.Assoc.{Table, insert, retain}
use redlaunch.OAuth.Types.{
  Platform, Time, Client, Resource, run, manage, AuthorizationRequest, Authorization, Error,
  invalid_request, invalid_client, invalid_target, invalid_redirect_uri, unsupported_response_type,
  temporarily_unavailable, url_invalid, oauth_authorization_code_lifetime,
}
use redlaunch.OAuth.Texts.{
  oauth_redirect_uri_matches, parse_oauth_resource, validate_oauth_scope,
  valid_oauth_code_challenge,
}
use redlaunch.OAuth.Store.Tables.{Db, first, is_application}
use redlaunch.OAuth.Store.Grants.{get_oauth_client}
use redlaunch.OAuth.Server.State.{PendingCode, Server, Answer, oauth_max_pending_codes}

-- GetOAuthClient with its error turned into a protocol error
unfoldable pub known_client : Result Error Client → Result Error Client
known_client (ok client) = ok client
known_client (err e) = err invalid_client

-- the name of the application that a resource names, and none of the management endpoint
unfoldable pub application_name : Db → Resource → Result Error Text
unfolding first
application_name db resource = elim resource.scope [
  | manage ↦ ok []
  | run ↦ elim (first (is_application resource.application_id) db.applications) [
    | none ↦ err invalid_target
    | some item ↦ ok item.name
  ]
]

-- ValidateAuthorization
unfoldable pub validate_authorization :
    Platform → Text → AuthorizationRequest → Server → Result Error Authorization
unfolding known_client application_name
validate_authorization p origin request s =
    known_client (get_oauth_client s.db request.client_id) >>= λ client.
    if not (oauth_redirect_uri_matches p client.redirect_uris request.redirect_uri)
    then err invalid_redirect_uri
    else if not (text_eq request.response_type (codes "code"))
    then err unsupported_response_type
    else if not (text_eq request.code_challenge_method (codes "S256"))
        || not (valid_oauth_code_challenge request.code_challenge)
    then err invalid_request
    else if ltb 512 (len request.state)
    then err invalid_request
    else parse_oauth_resource origin request.resource >>= λ resource.
        validate_oauth_scope request.scope resource >>= λ _.
        application_name s.db resource >>= λ name. ok (record {
          client = client;
          resource = resource;
          application_name = name;
          redirect_uri = request.redirect_uri;
          state = request.state;
          code_challenge = request.code_challenge;
        })

unfoldable pub set_query : Table (List Text) → List (Text × Text) → Table (List Text)
unfolding insert
set_query query [] = query
set_query query ((key, value) ∷ params) = set_query (insert key (value ∷ []) query) params

-- oauthRedirectURL
unfoldable pub oauth_redirect_url : Platform → Text → Text → List (Text × Text) → Result Error Text
unfolding set_query insert
oauth_redirect_url p redirect_uri state params = elim (p.parse_url redirect_uri) [
  | none ↦ err url_invalid
  | some parsed ↦
      let query = set_query (p.query parsed) params in
      ok (
        p.with_query parsed
          (if is_blank state then query else insert (codes "state") (state ∷ []) query))
]

-- the sweep of the pending codes
abbrev pub live_code : Time → PendingCode → Bool
live_code now pending = ltb now pending.expires_at

-- the entry of a new code
abbrev pub pending_code : Time → Authorization → PendingCode
pending_code now authorization = record {
  authorization = authorization;
  expires_at = now + oauth_authorization_code_lifetime;
}

-- the issue of a code to an approved request
unfoldable pub issue_code : Platform → Time → Text → Authorization → Server → Answer Text
issue_code p now code authorization s =
    let live = retain (live_code now) s.pending in
    if leb oauth_max_pending_codes (length live)
    then (err temporarily_unavailable, record s { pending = live })
    else (
      oauth_redirect_url p authorization.redirect_uri authorization.state
          ((codes "code", code) ∷ []),
      record s { pending = insert (p.sha256 code) (pending_code now authorization) live },
    )

-- the owner's decision on a valid request
unfoldable pub complete_valid :
    Platform → Time → Text → Bool → Server → Result Error Authorization → Answer Text
unfolding issue_code
complete_valid p now code approved s (err e) = (err e, s)
complete_valid p now code approved s (ok authorization) =
    if not approved
    then (
      oauth_redirect_url p authorization.redirect_uri authorization.state (
          (codes "error", codes "access_denied")
          ∷ (codes "error_description", codes "The owner denied access.")
          ∷ []),
      s,
    )
    else issue_code p now code authorization s

-- CompleteAuthorization; `code` is the text of 32 random bytes
unfoldable pub complete_authorization :
    Platform → Time → Text → Text → AuthorizationRequest → Bool → Server → Answer Text
unfolding complete_valid
complete_authorization p now code origin request approved s =
    complete_valid p now code approved s (validate_authorization p origin request s)
