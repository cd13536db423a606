-- ===== src/OAuth/Server/Refresh.antt =====
-- OAuthService.refreshAccessToken and its parts (internal/service/oauth.go).
use redlaunch.Base.{
  ℕ, ◌+◌, Bool, true, false, not, ◌&&◌, ◌||◌, Option, none, some, Text, text_eq, ltb, leb,
  if◌then◌else◌, is_blank, Result, ok, err, length,
}
use redlaunch.Base.Assoc.{lookup, insert, retain}
use redlaunch.OAuth.Types.{
  Platform, Time, is_zero_time, Grant, Token, Rotation, TokenRequest, TokenResponse, Error,
  invalid_grant, invalid_target, temporarily_unavailable, rotation_conflict,
  oauth_refresh_idle_lifetime, oauth_refresh_grace_period,
}
use redlaunch.OAuth.Texts.{format_oauth_refresh_token, split_oauth_refresh_token, format_api_token}
use redlaunch.OAuth.Store.Tables.{Db}
use redlaunch.OAuth.Store.Grants.{
  get_oauth_grant_by_refresh_hash, get_oauth_grant_by_superseded_refresh_hash, rotate_oauth_grant,
  revoke_oauth_grant,
}
use redlaunch.OAuth.Server.State.{
  committed, Replay, Server, Answer, Secrets, oauth_max_replays, oauth_token_response,
  oauth_earlier, access_token,
}

-- rejectGrant: a grant that is already gone is no error
unfoldable pub reject_grant : ℕ → Server → Answer TokenResponse
reject_grant grant_id s = (err invalid_grant, committed s (revoke_oauth_grant s.db grant_id))

-- pruneReplays
abbrev pub live_replay : Time → Replay → Bool
live_replay now replay = ltb now replay.expires_at

-- what rotateRefreshToken asks of the store
unfoldable pub rotation_of : Platform → Time → Secrets → Grant → Rotation
unfolding access_token
rotation_of p now secrets grant = record {
  grant_id = grant.id;
  expected_refresh_hash = grant.refresh_token_hash;
  access = access_token p now secrets.access grant.display_name grant.scope grant.application_id;
  refresh_hash = p.sha256 (format_oauth_refresh_token secrets.refresh);
  rotated_at = now;
  refresh_idle_expires_at =
      oauth_earlier (now + oauth_refresh_idle_lifetime) grant.absolute_expires_at;
}

abbrev pub conflict_error : Error → Error
conflict_error rotation_conflict = invalid_grant
conflict_error e = e

-- the answer to a rotation
unfoldable pub answer_rotation :
    Text → Replay → Server → Result Error (Token × Db) → Answer TokenResponse
answer_rotation presented_hash replay s (err e) = (err (conflict_error e), s)
answer_rotation presented_hash replay s (ok (access, db)) =
    (ok replay.response, record s { db = db; replays = insert presented_hash replay s.replays })

-- the replay that a rotation records
abbrev pub new_replay : Time → Secrets → Grant → Replay
new_replay now secrets grant = record {
  response =
      oauth_token_response (format_api_token secrets.access)
        (format_oauth_refresh_token secrets.refresh) grant.scope;
  expires_at = now + oauth_refresh_grace_period;
}

-- rotateRefreshToken
unfoldable pub rotate_refresh_token :
    Platform → Time → Secrets → Grant → Text → Server → Answer TokenResponse
unfolding answer_rotation
rotate_refresh_token p now secrets grant presented_hash s =
    let live = retain (live_replay now) s.replays in
    if leb oauth_max_replays (length live)
    then (err temporarily_unavailable, record s { replays = live })
    else answer_rotation presented_hash (new_replay now secrets grant) (record s { replays = live })
        (rotate_oauth_grant now s.db (rotation_of p now secrets grant))

-- the end of refreshAccessToken: the token that was rotated last, inside its grace period or not
unfoldable pub replay_or_reject : Time → Grant → Option Replay → Server → Answer TokenResponse
unfolding reject_grant
replay_or_reject now grant none s = reject_grant grant.id s
replay_or_reject now grant (some replay) s =
    if not (is_zero_time grant.rotated_at) && ltb now replay.expires_at
    then (ok replay.response, s)
    else reject_grant grant.id s

-- refreshAccessToken behind the lookup of the grant
unfoldable pub refresh_grant :
    Platform → Time → Secrets → TokenRequest → Text → Grant → Bool → Server → Answer TokenResponse
unfolding reject_grant rotate_refresh_token replay_or_reject lookup
refresh_grant p now secrets request presented_hash grant superseded s =
    if not (text_eq request.client_id grant.client_id)
    then (err invalid_grant, s)
    else if not (is_blank request.resource) && not (text_eq request.resource grant.resource)
    then (err invalid_target, s)
    else if not (ltb now grant.absolute_expires_at) || not (ltb now grant.refresh_idle_expires_at)
    then reject_grant grant.id s
    else if superseded
    then reject_grant grant.id s
    else if text_eq grant.refresh_token_hash presented_hash
    then rotate_refresh_token p now secrets grant presented_hash s
    else replay_or_reject now grant (lookup presented_hash s.replays) s

-- refreshAccessToken behind the check of the token's shape
unfoldable pub refresh_presented :
    Platform → Time → Secrets → TokenRequest → Text → Server → Answer TokenResponse
unfolding refresh_grant
refresh_presented p now secrets request hash s = elim (get_oauth_grant_by_refresh_hash s.db hash) [
  | some grant ↦ refresh_grant p now secrets request hash grant false s
  | none ↦ elim (get_oauth_grant_by_superseded_refresh_hash s.db hash) [
    | some grant ↦ refresh_grant p now secrets request hash grant true s
    | none ↦ (err invalid_grant, s)
  ]
]

-- refreshAccessToken
unfoldable pub refresh_access_token :
    Platform → Time → Secrets → TokenRequest → Server → Answer TokenResponse
unfolding refresh_presented
refresh_access_token p now secrets request s =
    elim (split_oauth_refresh_token request.refresh_token) [
      | none ↦ (err invalid_grant, s)
      | some presented ↦ refresh_presented p now secrets request (p.sha256 presented) s
    ]
