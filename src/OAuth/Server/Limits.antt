-- ===== src/OAuth/Server/Limits.antt =====
-- The limits on clients, pending codes and replays, method by method (internal/service/oauth.go).
use redlaunch.Base.{
  ℕ, ◌+◌, ◌≤◌, Bool, true, false, List, [], ◌∷◌, ◌++◌, Text, leb, Result, ok, err, ◌≡◌, ap, arith,
  codes, length-append, length-select-le, length, ◌-◌, Bool-cases, inl, inr,
}
use redlaunch.Base.Assoc.{length-erase-le, length-retain-le, length-insert-le, erase, retain}
use redlaunch.OAuth.Types.{
  Platform, Client, Grant, Token, Time, Error, Rotation, Authorization, AuthorizationRequest,
  TokenRequest, day,
}
use redlaunch.OAuth.Store.Tables.{Db, delete_token, delete_grant}
use redlaunch.OAuth.Store.Grants.{
  create_oauth_client, delete_unused_oauth_clients, revoke_oauth_grant, create_oauth_grant,
  count_oauth_clients, with_rotation, rotate_oauth_grant,
}
use redlaunch.OAuth.Store.Granting.{create_oauth_grant_stored, rotate_oauth_grant_stored}
use redlaunch.OAuth.Server.State.{
  Server, Secrets, access_token, committed, oauth_max_registered_clients, oauth_max_replays,
  oauth_max_pending_codes,
}
use redlaunch.OAuth.Server.Register.{store_client}
use redlaunch.OAuth.Server.Authorize.{
  complete_authorization, complete_valid, issue_code, live_code, pending_code,
  validate_authorization,
}
use redlaunch.OAuth.Server.Exchange.{exchange_authorization_code, grant_tokens, issued_grant}
use redlaunch.OAuth.Server.Refresh.{
  reject_grant, rotate_refresh_token, refresh_grant, refresh_access_token, rotation_of, live_replay,
  new_replay,
}
use redlaunch.OAuth.Server.Cases.{
  committed-cases, answer_client-cases, answer_grant-cases, answer_rotation-cases,
  exchange_authorization_code-cases, refresh_grant-cases, refresh_presented-cases,
  refresh_access_token-cases,
}

-- oauthMaxRegisteredClients, oauthMaxPendingCodes and oauthMaxReplays hold
pub record IsBounded (s : Server) : Type 0 where
  pub few_clients : length s.db.clients ≤ oauth_max_registered_clients
  pub few_codes : length s.pending ≤ oauth_max_pending_codes
  pub few_replays : length s.replays ≤ oauth_max_replays

-- the tables change, but not the clients
pub same_clients :
    (s : Server) (db : Db)
    → db.clients ≡ s.db.clients
    → IsBounded s
    → IsBounded (record s { db = db })
same_clients s db e b = record {
  few_clients = ground (arith, b.few_clients);
  few_codes = b.few_codes;
  few_replays = b.few_replays;
}

revoke_oauth_grant-clients :
    (db : Db) (id : ℕ) (db' : Db) → revoke_oauth_grant db id ≡ ok db' → db'.clients ≡ db.clients
unfolding revoke_oauth_grant delete_token delete_grant
revoke_oauth_grant-clients db id db' h = ground arith

pub revoked-IsBounded :
    (id : ℕ) (s : Server) → IsBounded s → IsBounded (committed s (revoke_oauth_grant s.db id))
revoked-IsBounded id s b =
    committed-cases IsBounded s (revoke_oauth_grant s.db id)
      (λ db e. same_clients s db (revoke_oauth_grant-clients s.db id db e) b) b

create_oauth_client-length :
    (db : Db) (client : Client) (db' : Db)
    → create_oauth_client db client ≡ ok db'
    → length db'.clients ≡ length db.clients + 1
unfolding create_oauth_client
create_oauth_client-length db client db' h = ground (arith, length-append db.clients (client ∷ []))

pub store_client-IsBounded :
    (now : Time) (secret : Text) (s : Server) (checked : Text × List Text)
    → IsBounded s
    → IsBounded (store_client now secret s checked).1
unfolding store_client delete_unused_oauth_clients count_oauth_clients
store_client-IsBounded now secret s (name, uris) b =
    let pruned = delete_unused_oauth_clients s.db (now - day) in
    let kept : IsBounded (record s { db = pruned }) = record {
      few_clients = omega (arith, length-select-le _ s.db.clients, b.few_clients);
      few_codes = b.few_codes;
      few_replays = b.few_replays;
    } in
    let client : Client = record {
      id = codes "rlc_" ++ secret;
      name = name;
      redirect_uris = uris;
      created_at = now;
    } in
    elim (Bool-cases (leb oauth_max_registered_clients (length pruned.clients))) [
      | inl full ↦ rw (full, store_client) kept
      | inr room ↦
          rw (room, store_client)
            (answer_client-cases IsBounded client (record s { db = pruned })
              (create_oauth_client pruned client)
              (λ db e. record {
                few_clients = ground (arith, create_oauth_client-length pruned client db e);
                few_codes = b.few_codes;
                few_replays = b.few_replays;
              })
              kept)
    ]

grant_tokens-IsBounded :
    (p : Platform) (now : Time) (secrets : Secrets) (a : Authorization) (s : Server)
    → IsBounded s
    → IsBounded (grant_tokens p now secrets a s).1
unfolding grant_tokens
grant_tokens-IsBounded p now secrets a s b =
    let issued = issued_grant p now secrets.refresh a in
    let item =
      access_token p now secrets.access a.client.name a.resource.scope a.resource.application_id in
    answer_grant-cases IsBounded _ s (create_oauth_grant now s.db issued item)
      (λ g t db e.
        let (stored, _, _, _) = create_oauth_grant_stored now s.db issued item g t db e in
        same_clients s db (ap (λ (d : Db). d.clients) stored) b)
      b

pub exchange_authorization_code-IsBounded :
    (p : Platform) (now : Time) (secrets : Secrets) (request : TokenRequest) (s : Server)
    → IsBounded s
    → IsBounded (exchange_authorization_code p now secrets request s).1
exchange_authorization_code-IsBounded p now secrets request s b =
    let hash = p.sha256 request.code in
    let used : IsBounded (record s { pending = erase hash s.pending }) = record {
      few_clients = b.few_clients;
      few_codes = omega (arith, length-erase-le hash s.pending, b.few_codes);
      few_replays = b.few_replays;
    } in
    exchange_authorization_code-cases IsBounded p now secrets request s b used (λ a.
      grant_tokens-IsBounded p now secrets a (record s { pending = erase hash s.pending }) used)

rotate_oauth_grant-clients :
    (now : Time) (db : Db) (rotation : Rotation) (t : Token) (db' : Db)
    → rotate_oauth_grant now db rotation ≡ ok (t, db')
    → db'.clients ≡ db.clients
unfolding delete_token with_rotation
rotate_oauth_grant-clients now db rotation t db' h =
    let (g, found, (stored, fresh)) = rotate_oauth_grant_stored now db rotation t db' h in
    ap (λ (d : Db). d.clients) stored

rotate_refresh_token-IsBounded :
    (p : Platform) (now : Time) (secrets : Secrets) (grant : Grant) (hash : Text) (s : Server)
    → IsBounded s
    → IsBounded (rotate_refresh_token p now secrets grant hash s).1
unfolding rotate_refresh_token
rotate_refresh_token-IsBounded p now secrets grant hash s b =
    let live = retain (live_replay now) s.replays in
    let replay = new_replay now secrets grant in
    let rotation = rotation_of p now secrets grant in
    let kept : IsBounded (record s { replays = live }) = record {
      few_clients = b.few_clients;
      few_codes = b.few_codes;
      few_replays = omega (arith, length-retain-le (live_replay now) s.replays, b.few_replays);
    } in
    elim (Bool-cases (leb oauth_max_replays (length live))) [
      | inl full ↦ rw (full, rotate_refresh_token) kept
      | inr room ↦
          rw (room, rotate_refresh_token)
            (answer_rotation-cases IsBounded hash replay (record s { replays = live })
              (rotate_oauth_grant now s.db rotation)
              (λ t db e. record {
                few_clients =
                    ground
                      (arith, rotate_oauth_grant-clients now s.db rotation t db e, b.few_clients);
                few_codes = b.few_codes;
                few_replays = ground (arith, length-insert-le hash replay live);
              })
              kept)
    ]

pub refresh_access_token-IsBounded :
    (p : Platform) (now : Time) (secrets : Secrets) (request : TokenRequest) (s : Server)
    → IsBounded s
    → IsBounded (refresh_access_token p now secrets request s).1
unfolding reject_grant
refresh_access_token-IsBounded p now secrets request s b =
    let answered : (hash : Text) (g : Grant) (superseded : Bool)
        → IsBounded (refresh_grant p now secrets request hash g superseded s).1 =
      λ hash g superseded.
        refresh_grant-cases IsBounded p now secrets request hash g superseded s b
          (revoked-IsBounded g.id s b) (rotate_refresh_token-IsBounded p now secrets g hash s b) in
    refresh_access_token-cases IsBounded p now secrets request s b (λ presented.
      let hash = p.sha256 presented in
      refresh_presented-cases IsBounded p now secrets request hash s b
        (λ g found. answered hash g false) (λ g found. answered hash g true))

complete_valid-IsBounded :
    (p : Platform) (now : Time) (code : Text) (approved : Bool) (s : Server)
    (valid : Result Error Authorization)
    → IsBounded s
    → IsBounded (complete_valid p now code approved s valid).1
unfolding complete_valid issue_code
complete_valid-IsBounded p now code approved s (err e) b = b
complete_valid-IsBounded p now code approved s (ok a) b =
    let live = retain (live_code now) s.pending in
    record {
      few_clients = ground (arith, b.few_clients);
      few_codes = ground (
        arith,
        b.few_codes,
        length-retain-le (live_code now) s.pending,
        length-insert-le (p.sha256 code) (pending_code now a) live,
      );
      few_replays = ground (arith, b.few_replays);
    }

pub complete_authorization-IsBounded :
    (p : Platform) (now : Time) (code origin : Text) (request : AuthorizationRequest)
    (approved : Bool) (s : Server)
    → IsBounded s
    → IsBounded (complete_authorization p now code origin request approved s).1
unfolding complete_authorization
complete_authorization-IsBounded p now code origin request approved s b =
    complete_valid-IsBounded p now code approved s (validate_authorization p origin request s) b
