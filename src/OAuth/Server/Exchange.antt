-- ===== src/OAuth/Server/Exchange.antt =====
-- OAuthService.exchangeAuthorizationCode (internal/service/oauth.go).
use redlaunch.Base.{
  ◌+◌, Bool, not, ◌||◌, [], Option, none, some, Text, text_eq, ltb, if◌then◌else◌, is_blank, Result,
  ok, err,
}
use redlaunch.Base.Assoc.{lookup, erase}
use redlaunch.OAuth.Types.{
  Platform, Time, Grant, Token, Authorization, TokenRequest, TokenResponse, Error, invalid_request,
  invalid_grant, invalid_target, oauth_refresh_idle_lifetime, oauth_refresh_absolute_lifetime,
}
use redlaunch.OAuth.Texts.{verify_oauth_pkce, format_oauth_refresh_token, format_api_token}
use redlaunch.OAuth.Store.Tables.{Db}
use redlaunch.OAuth.Store.Grants.{create_oauth_grant}
use redlaunch.OAuth.Server.State.{
  PendingCode, Server, Answer, Secrets, oauth_token_response, oauth_earlier, access_token,
}

-- the new grant of an authorization
unfoldable pub issued_grant : Platform → Time → Text → Authorization → Grant
issued_grant p now secret authorization =
    let absolute = now + oauth_refresh_absolute_lifetime in
    record {
      id = 0;
      client_id = authorization.client.id;
      display_name = authorization.client.name;
      resource = authorization.resource.uri;
      scope = authorization.resource.scope;
      application_id = authorization.resource.application_id;
      access_token_id = 0;
      refresh_token_hash = p.sha256 (format_oauth_refresh_token secret);
      previous_refresh_token_hash = [];
      rotated_at = 0;
      created_at = now;
      refresh_idle_expires_at = oauth_earlier (now + oauth_refresh_idle_lifetime) absolute;
      absolute_expires_at = absolute;
    }

-- the checks of an exchange against the pending code, in their order
unfoldable pub check_exchange :
    Platform → Time → TokenRequest → PendingCode → Result Error (Unit {0})
check_exchange p now request pending =
    let authorization = pending.authorization in
    if not (ltb now pending.expires_at)
    then err invalid_grant
    else if not (text_eq authorization.client.id request.client_id)
        || not (text_eq authorization.redirect_uri request.redirect_uri)
    then err invalid_grant
    else if not (text_eq request.resource authorization.resource.uri)
    then err invalid_target
    else if not (verify_oauth_pkce p request.code_verifier authorization.code_challenge)
    then err invalid_grant
    else ok tt

-- the answer to the creation of a grant
unfoldable pub answer_grant :
    TokenResponse → Server → Result Error (Grant × Token × Db) → Answer TokenResponse
answer_grant response s (err e) = (err e, s)
answer_grant response s (ok (grant, access, db)) = (ok response, record s { db = db })

-- the grant and its first tokens
unfoldable pub grant_tokens :
    Platform → Time → Secrets → Authorization → Server → Answer TokenResponse
unfolding answer_grant
grant_tokens p now secrets authorization s =
    let resource = authorization.resource in
    let access =
      access_token p now secrets.access authorization.client.name resource.scope
        resource.application_id in
    let response =
      oauth_token_response (format_api_token secrets.access)
        (format_oauth_refresh_token secrets.refresh) resource.scope in
    answer_grant response s
      (create_oauth_grant now s.db (issued_grant p now secrets.refresh authorization) access)

-- what follows the removal of the code
unfoldable pub exchange_pending :
    Platform → Time → Secrets → TokenRequest → Option PendingCode → Server → Answer TokenResponse
unfolding check_exchange grant_tokens
exchange_pending p now secrets request none s = (err invalid_grant, s)
exchange_pending p now secrets request (some pending) s =
    elim (check_exchange p now request pending) [
      | err e ↦ (err e, s)
      | ok _ ↦ grant_tokens p now secrets pending.authorization s
    ]

-- one of the required fields is empty
abbrev pub fields_missing : TokenRequest → Bool
fields_missing request =
    is_blank request.code
    || is_blank request.client_id
    || is_blank request.redirect_uri
    || is_blank request.code_verifier

-- exchangeAuthorizationCode
unfoldable pub exchange_authorization_code :
    Platform → Time → Secrets → TokenRequest → Server → Answer TokenResponse
unfolding exchange_pending
exchange_authorization_code p now secrets request s =
    let key = p.sha256 request.code in
    if fields_missing request
    then (err invalid_request, s)
    else exchange_pending p now secrets request (lookup key s.pending)
        (record s { pending = erase key s.pending })
