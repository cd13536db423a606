-- ===== src/OAuth/Server/State.antt =====
-- The state of OAuthService and what its methods share (internal/service/oauth.go).
use redlaunch.Base.{ℕ, ◌+◌, none, some, Text, ltb, if◌then◌else◌, Result, ok, err, take}
use redlaunch.Base.Assoc.{Table}
use redlaunch.OAuth.Types.{
  Platform, Time, Scope, Token, Authorization, TokenResponse, Error, oauth_access_token_lifetime,
}
use redlaunch.OAuth.Texts.{format_api_token}
use redlaunch.OAuth.Store.Tables.{Db}

abbrev pub oauth_max_registered_clients : ℕ
oauth_max_registered_clients = 500

abbrev pub oauth_max_pending_codes : ℕ
oauth_max_pending_codes = 256

abbrev pub oauth_max_replays : ℕ
oauth_max_replays = 256

-- pendingOAuthCode
pub record PendingCode : Type 0 where
  pub authorization : Authorization
  pub expires_at : Time

-- oauthReplay
pub record Replay : Type 0 where
  pub response : TokenResponse
  pub expires_at : Time

-- OAuthService, with the tables that its repository keeps
pub record Server : Type 0 where
  pub db : Db
  pub pending : Table PendingCode
  pub replays : Table Replay

abbrev pub Answer : Type 0 → Type 0
Answer A = Result Error A × Server

-- the tables after a transaction, which an error rolls back
abbrev pub committed : Server → Result Error Db → Server
committed s (err e) = s
committed s (ok db) = record s { db = db }

-- the fresh secrets of a token response, as hexadecimal texts of 32 random bytes
pub record Secrets : Type 0 where
  pub access : Text
  pub refresh : Text

-- oauthTokenResponse
abbrev pub oauth_token_response : Text → Text → Scope → TokenResponse
oauth_token_response access_token refresh_token scope = record {
  access_token = access_token;
  expires_in = 3600;
  refresh_token = refresh_token;
  scope = scope;
}

-- oauthEarlier
abbrev pub oauth_earlier : Time → Time → Time
oauth_earlier a b = if ltb a b then a else b

-- the new access token of a grant
unfoldable pub access_token : Platform → Time → Text → Text → Scope → ℕ → Token
access_token p now secret display_name scope application_id =
    let plaintext = format_api_token secret in
    record {
      id = 0;
      display_name = display_name;
      prefix = take 12 plaintext;
      token_hash = p.sha256 plaintext;
      application_id = application_id;
      scope = scope;
      created_at = now;
      expires_at = some (now + oauth_access_token_lifetime);
      last_used_at = none;
    }
