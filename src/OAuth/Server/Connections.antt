-- ===== src/OAuth/Server/Connections.antt =====
-- OAuthService.ExchangeToken, RevokeToken and the methods on connections (internal/service/oauth.go).
use redlaunch.Base.{
  ℕ, not, List, map, Option, none, some, Text, codes, text_eq, ltb, if◌then◌else◌, Result, ok, err,
}
use redlaunch.OAuth.Types.{
  Platform, Time, Grant, TokenRequest, TokenResponse, Connection, Error, invalid_grant,
  invalid_target, unsupported_grant_type, grant_not_found,
}
use redlaunch.OAuth.Store.Tables.{Db}
use redlaunch.OAuth.Store.Grants.{
  get_oauth_grant_by_refresh_hash, get_oauth_grant_by_superseded_refresh_hash,
  get_oauth_grant_by_access_token_hash, revoke_oauth_grant, list_oauth_connections,
}
use redlaunch.OAuth.Server.State.{committed, Server, Answer, Secrets}
use redlaunch.OAuth.Server.Exchange.{exchange_authorization_code}
use redlaunch.OAuth.Server.Refresh.{refresh_access_token}

-- ExchangeToken
unfoldable pub exchange_token :
    Platform → Time → Secrets → TokenRequest → Server → Answer TokenResponse
unfolding exchange_authorization_code refresh_access_token
exchange_token p now secrets request s =
    if text_eq request.grant_type (codes "authorization_code")
    then exchange_authorization_code p now secrets request s
    else if text_eq request.grant_type (codes "refresh_token")
    then refresh_access_token p now secrets request s
    else (err unsupported_grant_type, s)

-- the three lookups of RevokeToken
unfoldable pub owner_of : Db → Text → Option Grant
owner_of db hash = elim (get_oauth_grant_by_refresh_hash db hash) [
  | some grant ↦ some grant
  | none ↦ elim (get_oauth_grant_by_superseded_refresh_hash db hash) [
    | some grant ↦ some grant
    | none ↦ get_oauth_grant_by_access_token_hash db hash
  ]
]

-- RevokeToken
unfoldable pub revoke_token : Platform → Text → Server → Answer (Unit {0})
unfolding owner_of
revoke_token p token s = elim (owner_of s.db (p.sha256 token)) [
  | none ↦ (ok tt, s)
  | some grant ↦ (ok tt, committed s (revoke_oauth_grant s.db grant.id))
]

-- ValidateAccessTokenResource
unfoldable pub validate_access_token_resource :
    Platform → Text → Text → Server → Result Error (Unit {0})
validate_access_token_resource p token resource s =
    elim (get_oauth_grant_by_access_token_hash s.db (p.sha256 token)) [
      | none ↦ err invalid_grant
      | some grant ↦ if text_eq grant.resource resource then ok tt else err invalid_target
    ]

-- ListConnections
unfoldable pub list_connections : Time → Server → List Connection
list_connections now s =
    map (λ (c : Connection). record c { expired = not (ltb now c.expires_at) })
      (list_oauth_connections s.db)

answer_revocation : Result Error Db → Result Error (Unit {0})
answer_revocation (err e) = err e
answer_revocation (ok db) = ok tt

-- RevokeConnection
unfoldable pub revoke_connection : ℕ → Server → Answer (Unit {0})
unfolding answer_revocation
revoke_connection id s =
    if ltb id 1
    then (err grant_not_found, s)
    else (answer_revocation (revoke_oauth_grant s.db id), committed s (revoke_oauth_grant s.db id))
