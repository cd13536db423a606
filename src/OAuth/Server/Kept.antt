-- ===== src/OAuth/Server/Kept.antt =====
-- What each method of OAuthService keeps of its tables (internal/service/oauth.go).
use redlaunch.Base.{
  ℕ, ◌≤◌, Bool, true, false, ◌&&◌, ◌||◌, List, ◌++◌, some, Text, text_eq, leb, ◌==◌, Result, ok,
  err, ◌≡◌, refl, sym, subst, arith, All, codes, length, ◌-◌, Bool-cases, inl, inr,
}
use redlaunch.Base.Assoc.{erase, retain}
use redlaunch.OAuth.Types.{
  Platform, Client, Grant, Token, Time, Error, Authorization, AuthorizationRequest, TokenRequest,
  day,
}
use redlaunch.OAuth.Store.Tables.{Db, some_row}
use redlaunch.OAuth.Store.Grants.{
  create_oauth_client, delete_unused_oauth_clients, revoke_oauth_grant, create_oauth_grant,
  count_oauth_clients, is_expected, rotate_oauth_grant, get_oauth_grant_by_refresh_hash,
  get_oauth_grant_by_superseded_refresh_hash,
}
use redlaunch.OAuth.Store.Rows.{All-first, first-some}
use redlaunch.OAuth.Store.Distinct.{Unique-first}
use redlaunch.OAuth.Store.Sound.{IsSound, same_id, IsTimely}
use redlaunch.OAuth.Store.Transactions.{
  create_oauth_client-IsSound, revoke_oauth_grant-IsSound, delete_unused_oauth_clients-IsSound,
}
use redlaunch.OAuth.Store.Granting.{
  create_oauth_grant-IsSound, rotate_oauth_grant-IsSound, rotate_oauth_grant_stored, same_id-swap,
}
use redlaunch.OAuth.Server.State.{
  Server, Secrets, access_token, committed, oauth_max_registered_clients, oauth_max_replays,
}
use redlaunch.OAuth.Server.Register.{store_client}
use redlaunch.OAuth.Server.Authorize.{
  complete_authorization, complete_valid, issue_code, validate_authorization,
}
use redlaunch.OAuth.Server.Exchange.{exchange_authorization_code, grant_tokens, issued_grant}
use redlaunch.OAuth.Server.Refresh.{
  reject_grant, rotate_refresh_token, refresh_grant, refresh_access_token, rotation_of, live_replay,
  new_replay,
}
use redlaunch.OAuth.Server.Cases.{
  committed-cases, answer_client-cases, answer_grant-cases, answer_rotation-cases,
  exchange_authorization_code-cases, refresh_grant-cases, refresh_presented-cases,
  refresh_access_token-cases,
}

abbrev pub HasSoundTables : Server → Type 0
HasSoundTables s = IsSound s.db

pub store_client-IsSound :
    (now : Time) (secret : Text) (s : Server) (checked : Text × List Text)
    → IsSound s.db
    → IsSound (store_client now secret s checked).1.db
unfolding store_client
store_client-IsSound now secret s (name, uris) h =
    let pruned = delete_unused_oauth_clients s.db (now - day) in
    let kept = delete_unused_oauth_clients-IsSound s.db (now - day) h in
    let client : Client = record {
      id = codes "rlc_" ++ secret;
      name = name;
      redirect_uris = uris;
      created_at = now;
    } in
    let stored =
      answer_client-cases HasSoundTables client (record s { db = pruned })
        (create_oauth_client pruned client)
        (λ db e. create_oauth_client-IsSound pruned client db e kept) kept in
    elim (Bool-cases (leb oauth_max_registered_clients (count_oauth_clients pruned))) [
      | inl full ↦ rw full kept
      | inr room ↦ rw room stored
    ]

issued_grant-IsTimely :
    (p : Platform) (now : Time) (secret : Text) (a : Authorization)
    → IsTimely (issued_grant p now secret a)
unfolding issued_grant
issued_grant-IsTimely p now secret a = ground arith

grant_tokens-IsSound :
    (p : Platform) (now : Time) (secrets : Secrets) (a : Authorization) (s : Server)
    → IsSound s.db
    → IsSound (grant_tokens p now secrets a s).1.db
unfolding grant_tokens
grant_tokens-IsSound p now secrets a s h =
    let issued = issued_grant p now secrets.refresh a in
    let item =
      access_token p now secrets.access a.client.name a.resource.scope a.resource.application_id in
    answer_grant-cases HasSoundTables _ s (create_oauth_grant now s.db issued item)
      (λ g t db e.
        create_oauth_grant-IsSound now s.db issued item g t db e
          (issued_grant-IsTimely p now secrets.refresh a) h)
      h

pub exchange_authorization_code-IsSound :
    (p : Platform) (now : Time) (secrets : Secrets) (request : TokenRequest) (s : Server)
    → IsSound s.db
    → IsSound (exchange_authorization_code p now secrets request s).1.db
exchange_authorization_code-IsSound p now secrets request s h =
    exchange_authorization_code-cases HasSoundTables p now secrets request s h h (λ a.
      grant_tokens-IsSound p now secrets a
        (record s { pending = erase (p.sha256 request.code) s.pending }) h)

-- a grant is the only one with its ID
abbrev pub IsOnly : Db → Grant → Type 0
IsOnly db grant = All (λ (h : Grant). same_id grant h ≡ true → h ≡ grant) db.grants

rotated-IsSound :
    (p : Platform) (now : Time) (secrets : Secrets) (grant : Grant) (t : Token) (db' db : Db)
    → IsOnly db grant
    → rotate_oauth_grant now db (rotation_of p now secrets grant) ≡ ok (t, db')
    → IsSound db
    → IsSound db'
unfolding rotation_of
rotated-IsSound p now secrets grant t db' db only e h =
    let rotation = rotation_of p now secrets grant in
    let (g, found, stored) = rotate_oauth_grant_stored now db rotation t db' e in
    let expected = first-some (is_expected rotation) db.grants found in
    let same : g ≡ grant =
      All-first (λ (h : Grant). same_id grant h ≡ true → h ≡ grant) (is_expected rotation) db.grants
        only found (ground arith) in
    let until : rotation.refresh_idle_expires_at ≤ g.absolute_expires_at = rw same (ground arith) in
    rotate_oauth_grant-IsSound now db rotation g t db' found until e h

rotate_refresh_token-IsSound :
    (p : Platform) (now : Time) (secrets : Secrets) (grant : Grant) (hash : Text) (s : Server)
    → IsOnly s.db grant
    → IsSound s.db
    → IsSound (rotate_refresh_token p now secrets grant hash s).1.db
unfolding rotate_refresh_token
rotate_refresh_token-IsSound p now secrets grant hash s only h =
    let live = retain (live_replay now) s.replays in
    let rotation = rotation_of p now secrets grant in
    let done =
      answer_rotation-cases HasSoundTables hash (new_replay now secrets grant)
        (record s { replays = live }) (rotate_oauth_grant now s.db rotation)
        (λ t db e. rotated-IsSound p now secrets grant t db s.db only e h) h in
    elim (Bool-cases (leb oauth_max_replays (length live))) [
      | inl full ↦ rw full h
      | inr room ↦ rw room done
    ]

pub revoked-IsSound :
    (id : ℕ) (s : Server) → IsSound s.db → IsSound (committed s (revoke_oauth_grant s.db id)).db
revoked-IsSound id s h =
    committed-cases HasSoundTables s (revoke_oauth_grant s.db id)
      (λ db e. revoke_oauth_grant-IsSound s.db id db e h) h

reject_grant-IsSound : (id : ℕ) (s : Server) → IsSound s.db → IsSound (reject_grant id s).1.db
unfolding reject_grant
reject_grant-IsSound id s h = revoked-IsSound id s h

pub by_refresh_hash-IsOnly :
    (db : Db) (hash : Text) {g : Grant}
    → get_oauth_grant_by_refresh_hash db hash ≡ some g
    → IsSound db
    → IsOnly db g
unfolding get_oauth_grant_by_refresh_hash
by_refresh_hash-IsOnly db hash {g = g} e h =
    Unique-first same_id same_id-swap
      (λ (g : Grant).
        text_eq g.refresh_token_hash hash || text_eq g.previous_refresh_token_hash hash)
      db.grants h.distinct_ids (ground arith)

pub by_superseded_hash-IsOnly :
    (db : Db) (hash : Text) {g : Grant}
    → get_oauth_grant_by_superseded_refresh_hash db hash ≡ some g
    → IsSound db
    → IsOnly db g
unfolding get_oauth_grant_by_superseded_refresh_hash
by_superseded_hash-IsOnly db hash {g = g} e h =
    Unique-first same_id same_id-swap
      (λ (g : Grant).
        some_row (λ x. x.grant_id == g.id && text_eq x.refresh_token_hash hash) db.superseded)
      db.grants h.distinct_ids (ground arith)

refresh_grant-IsSound :
    (p : Platform) (now : Time) (secrets : Secrets) (request : TokenRequest) (hash : Text)
    (grant : Grant) (superseded : Bool) (s : Server)
    → IsOnly s.db grant
    → IsSound s.db
    → IsSound (refresh_grant p now secrets request hash grant superseded s).1.db
refresh_grant-IsSound p now secrets request hash grant superseded s only h =
    refresh_grant-cases HasSoundTables p now secrets request hash grant superseded s h
      (reject_grant-IsSound grant.id s h)
      (rotate_refresh_token-IsSound p now secrets grant hash s only h)

pub refresh_access_token-IsSound :
    (p : Platform) (now : Time) (secrets : Secrets) (request : TokenRequest) (s : Server)
    → IsSound s.db
    → IsSound (refresh_access_token p now secrets request s).1.db
refresh_access_token-IsSound p now secrets request s h =
    refresh_access_token-cases HasSoundTables p now secrets request s h (λ presented.
      let hash = p.sha256 presented in
      refresh_presented-cases HasSoundTables p now secrets request hash s h
        (λ g found.
          refresh_grant-IsSound p now secrets request hash g false s
            (by_refresh_hash-IsOnly s.db hash found h) h)
        (λ g found.
          refresh_grant-IsSound p now secrets request hash g true s
            (by_superseded_hash-IsOnly s.db hash found h) h))

complete_valid-db :
    (p : Platform) (now : Time) (code : Text) (approved : Bool) (s : Server)
    (valid : Result Error Authorization)
    → (complete_valid p now code approved s valid).1.db ≡ s.db
unfolding complete_valid issue_code
complete_valid-db p now code approved s (err e) = refl
complete_valid-db p now code approved s (ok a) = ground arith

pub complete_authorization-IsSound :
    (p : Platform) (now : Time) (code origin : Text) (request : AuthorizationRequest)
    (approved : Bool) (s : Server)
    → IsSound s.db
    → IsSound (complete_authorization p now code origin request approved s).1.db
unfolding complete_authorization
complete_authorization-IsSound p now code origin request approved s h =
    let same =
      complete_valid-db p now code approved s (validate_authorization p origin request s) in
    subst IsSound (sym same) h
