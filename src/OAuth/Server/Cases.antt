-- ===== src/OAuth/Server/Cases.antt =====
-- What holds of the state after a call of the authorization server (internal/service/oauth.go) when it
-- holds after each way that the call can take.
use redlaunch.Base.{
  ℕ, Bool, true, false, List, Option, none, some, Text, ltb, Result, ok, err, ◌≡◌, refl, arith,
  Bool-cases, inl, inr, Option-cases, Result-cases,
}
use redlaunch.Base.Assoc.{lookup, erase, insert}
use redlaunch.OAuth.Types.{
  Platform, Client, Grant, Token, Time, Error, Authorization, TokenRequest, Registration,
  TokenResponse,
}
use redlaunch.OAuth.Store.Tables.{Db}
use redlaunch.OAuth.Store.Grants.{
  revoke_oauth_grant, get_oauth_grant_by_refresh_hash, get_oauth_grant_by_superseded_refresh_hash,
}
use redlaunch.OAuth.Texts.{split_oauth_refresh_token}
use redlaunch.OAuth.Server.State.{PendingCode, Replay, Server, Secrets, committed}
use redlaunch.OAuth.Server.Register.{
  register_client, store_client, answer_client, checked_registration,
}
use redlaunch.OAuth.Server.Exchange.{
  check_exchange, exchange_pending, exchange_authorization_code, grant_tokens, answer_grant,
  fields_missing,
}
use redlaunch.OAuth.Server.Refresh.{
  reject_grant, rotate_refresh_token, refresh_grant, refresh_presented, refresh_access_token,
  answer_rotation,
}
use redlaunch.OAuth.Server.Connections.{exchange_token, revoke_token, revoke_connection, owner_of}
use redlaunch.OAuth.Server.Calls.{inserted}

module _ (P : Server → Type 0) where
  pub committed-cases :
      (s : Server) (r : Result Error Db)
      → ((db : Db) → r ≡ ok db → P (record s { db = db }))
      → P s
      → P (committed s r)
  committed-cases s (err e) k h = h
  committed-cases s (ok db) k h = k db refl

  pub inserted-cases :
      (s : Server) (r : Result Error (Token × Db))
      → ((t : Token) (db : Db) → r ≡ ok (t, db) → P (record s { db = db }))
      → P s
      → P (inserted s r)
  inserted-cases s (err e) k h = h
  inserted-cases s (ok (t, db)) k h = k t db refl

  pub answer_client-cases :
      (client : Client) (s : Server) (r : Result Error Db)
      → ((db : Db) → r ≡ ok db → P (record s { db = db }))
      → P s
      → P (answer_client client s r).1
  unfolding answer_client
  answer_client-cases client s (err e) k h = h
  answer_client-cases client s (ok db) k h = k db refl

  pub answer_grant-cases :
      (response : TokenResponse) (s : Server) (r : Result Error (Grant × Token × Db))
      → ((g : Grant) (t : Token) (db : Db) → r ≡ ok (g, t, db) → P (record s { db = db }))
      → P s
      → P (answer_grant response s r).1
  unfolding answer_grant
  answer_grant-cases response s (err e) k h = h
  answer_grant-cases response s (ok (g, t, db)) k h = k g t db refl

  pub answer_rotation-cases :
      (hash : Text) (replay : Replay) (s : Server) (r : Result Error (Token × Db))
      → ((t : Token) (db : Db)
          → r ≡ ok (t, db)
          → P (record s { db = db; replays = insert hash replay s.replays }))
      → P s
      → P (answer_rotation hash replay s r).1
  unfolding answer_rotation
  answer_rotation-cases hash replay s (err e) k h = h
  answer_rotation-cases hash replay s (ok (t, db)) k h = k t db refl

  pub exchange_pending-cases :
      (p : Platform) (now : Time) (secrets : Secrets) (request : TokenRequest)
      (found : Option PendingCode) (s : Server)
      → P s
      → ((a : Authorization) → P (grant_tokens p now secrets a s).1)
      → P (exchange_pending p now secrets request found s).1
  unfolding exchange_pending
  exchange_pending-cases p now secrets request none s h k = h
  exchange_pending-cases p now secrets request (some c) s h k =
      elim (Result-cases (check_exchange p now request c)) [
        | inl (e, failed) ↦ rw (failed, exchange_pending) h
        | inr (u, passed) ↦ rw (passed, exchange_pending) (k c.authorization)
      ]

  pub exchange_authorization_code-cases :
      (p : Platform) (now : Time) (secrets : Secrets) (request : TokenRequest) (s : Server)
      → P s
      → let after : Server = record s { pending = erase (p.sha256 request.code) s.pending } in
        P after
        → ((a : Authorization) → P (grant_tokens p now secrets a after).1)
        → P (exchange_authorization_code p now secrets request s).1
  unfolding exchange_authorization_code
  exchange_authorization_code-cases p now secrets request s h used k =
      let hash = p.sha256 request.code in
      let after : Server = record s { pending = erase hash s.pending } in
      let done =
        exchange_pending-cases p now secrets request (lookup hash s.pending) after used k in
      elim (Bool-cases (fields_missing request)) [
        | inl missing ↦ rw missing h
        | inr given ↦ rw given done
      ]

  pub refresh_grant-cases :
      (p : Platform) (now : Time) (secrets : Secrets) (request : TokenRequest) (hash : Text)
      (grant : Grant) (superseded : Bool) (s : Server)
      → P s
      → P (reject_grant grant.id s).1
      → P (rotate_refresh_token p now secrets grant hash s).1
      → P (refresh_grant p now secrets request hash grant superseded s).1
  unfolding refresh_grant
  refresh_grant-cases p now secrets request hash grant superseded s kept rejected rotated =
      ground arith

  pub refresh_presented-cases :
      (p : Platform) (now : Time) (secrets : Secrets) (request : TokenRequest) (hash : Text)
      (s : Server)
      → P s
      → ((g : Grant)
          → get_oauth_grant_by_refresh_hash s.db hash ≡ some g
          → P (refresh_grant p now secrets request hash g false s).1)
      → ((g : Grant)
          → get_oauth_grant_by_superseded_refresh_hash s.db hash ≡ some g
          → P (refresh_grant p now secrets request hash g true s).1)
      → P (refresh_presented p now secrets request hash s).1
  unfolding refresh_presented
  refresh_presented-cases p now secrets request hash s h current older =
      elim (Option-cases (get_oauth_grant_by_refresh_hash s.db hash)) [
        | inr (g, found) ↦ rw (found, refresh_presented) (current g found)
        | inl absent ↦ elim (Option-cases (get_oauth_grant_by_superseded_refresh_hash s.db hash)) [
          | inr (g, found) ↦ rw (absent, found, refresh_presented) (older g found)
          | inl unknown ↦ rw (absent, unknown, refresh_presented) h
        ]
      ]

  pub refresh_access_token-cases :
      (p : Platform) (now : Time) (secrets : Secrets) (request : TokenRequest) (s : Server)
      → P s
      → ((presented : Text) → P (refresh_presented p now secrets request (p.sha256 presented) s).1)
      → P (refresh_access_token p now secrets request s).1
  unfolding refresh_access_token
  refresh_access_token-cases p now secrets request s h k =
      elim (Option-cases (split_oauth_refresh_token request.refresh_token)) [
        | inl malformed ↦ rw (malformed, refresh_access_token) h
        | inr (presented, read) ↦ rw (read, refresh_access_token) (k presented)
      ]

  pub exchange_token-cases :
      (p : Platform) (now : Time) (secrets : Secrets) (request : TokenRequest) (s : Server)
      → P s
      → P (exchange_authorization_code p now secrets request s).1
      → P (refresh_access_token p now secrets request s).1
      → P (exchange_token p now secrets request s).1
  unfolding exchange_token
  exchange_token-cases p now secrets request s kept exchanged refreshed = ground arith

  pub revoke_token-cases :
      (p : Platform) (token : Text) (s : Server)
      → P s
      → ((id : ℕ) → P (committed s (revoke_oauth_grant s.db id)))
      → P (revoke_token p token s).1
  unfolding revoke_token
  revoke_token-cases p token s h k = elim (Option-cases (owner_of s.db (p.sha256 token))) [
    | inl unknown ↦ rw (unknown, revoke_token) h
    | inr (g, found) ↦ rw (found, revoke_token) (k g.id)
  ]

  pub revoke_connection-cases :
      (id : ℕ) (s : Server)
      → P s
      → P (committed s (revoke_oauth_grant s.db id))
      → P (revoke_connection id s).1
  unfolding revoke_connection
  revoke_connection-cases id s h k = elim (Bool-cases (ltb id 1)) [
    | inl bad ↦ rw (bad, revoke_connection) h
    | inr good ↦ rw (good, revoke_connection) k
  ]

  pub register_client-cases :
      (p : Platform) (now : Time) (secret : Text) (input : Registration) (s : Server)
      → P s
      → ((checked : Text × List Text) → P (store_client now secret s checked).1)
      → P (register_client p now secret input s).1
  unfolding register_client
  register_client-cases p now secret input s h k =
      elim (Result-cases (checked_registration p input)) [
        | inl (e, failed) ↦ rw (failed, register_client) h
        | inr (checked, passed) ↦ rw (passed, register_client) (k checked)
      ]
