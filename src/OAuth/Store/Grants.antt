-- ===== src/OAuth/Store/Grants.antt =====
-- internal/store/oauth.go
use redlaunch.Base.{
  ℕ, ◌+◌, ◌-◌, Bool, false, not, ◌&&◌, ◌||◌, List, [], ◌∷◌, ◌++◌, map, Option, none, some, Text,
  text_eq, ltb, ◌==◌, if◌then◌else◌, select, is_blank, Result, ok, err, ◌>>=◌, length,
}
use redlaunch.OAuth.Types.{
  Client, Grant, Token, Time, Rotation, Connection, Error, constraint, client_not_found,
  grant_not_found, rotation_conflict, oauth_refresh_absolute_lifetime,
}
use redlaunch.OAuth.Store.Tables.{
  Db, Superseded, first, some_row, update_rows, application_allowed, delete_token, delete_grant,
}
use redlaunch.OAuth.Store.Tokens.{insert_api_token}

-- CreateOAuthClient, with the primary key on the client ID
unfoldable pub create_oauth_client : Db → Client → Result Error Db
create_oauth_client db client =
    if some_row (λ (c : Client). text_eq c.id client.id) db.clients
    then err constraint
    else ok (record db { clients = db.clients ++ client ∷ [] })

or_client_not_found : Option Client → Result Error Client
or_client_not_found none = err client_not_found
or_client_not_found (some c) = ok c

-- GetOAuthClient
unfoldable pub get_oauth_client : Db → Text → Result Error Client
unfolding or_client_not_found
get_oauth_client db client_id =
    or_client_not_found (first (λ (c : Client). text_eq c.id client_id) db.clients)

-- CountOAuthClients
unfoldable pub count_oauth_clients : Db → ℕ
count_oauth_clients db = length db.clients

-- DeleteUnusedOAuthClients
unfoldable pub delete_unused_oauth_clients : Db → Time → Db
delete_unused_oauth_clients db created_before = record db {
  clients =
      select
        (λ (c : Client).
          not (ltb c.created_at created_before)
          || some_row (λ (g : Grant). text_eq g.client_id c.id) db.grants)
        db.clients;
}

-- the row that CreateOAuthGrant stores
abbrev pub stored_grant : Grant → ℕ → ℕ → Grant
stored_grant issued id access_id = record issued { id = id; access_token_id = access_id }

abbrev pub with_grant : Grant → Db → Db
with_grant grant db = record db {
  grants = db.grants ++ grant ∷ [];
  next_grant_id = db.next_grant_id + 1;
}

-- the insertion of a grant, with the foreign keys, the UNIQUE refresh hash and the CHECK of the table
unfoldable pub insert_grant : Grant → Token → Db → Result Error (Grant × Token × Db)
insert_grant issued access db =
    let grant = stored_grant issued db.next_grant_id access.id in
    if not (some_row (λ (c : Client). text_eq c.id issued.client_id) db.clients)
      || some_row (λ (g : Grant). text_eq g.refresh_token_hash issued.refresh_token_hash) db.grants
      || not (application_allowed db issued.scope issued.application_id)
    then err constraint
    else ok (grant, access, with_grant grant db)

-- CreateOAuthGrant
unfoldable pub create_oauth_grant : Time → Db → Grant → Token → Result Error (Grant × Token × Db)
unfolding insert_grant
create_oauth_grant now db issued item =
    insert_api_token now db item >>= λ (access, db'). insert_grant issued access db'

-- the grant whose current or previous refresh token has the hash
unfoldable pub get_oauth_grant_by_refresh_hash : Db → Text → Option Grant
get_oauth_grant_by_refresh_hash db hash =
    if is_blank hash
    then none
    else first
        (λ (g : Grant).
          text_eq g.refresh_token_hash hash || text_eq g.previous_refresh_token_hash hash)
        db.grants

-- the grant that holds the access token with the hash
unfoldable pub get_oauth_grant_by_access_token_hash : Db → Text → Option Grant
get_oauth_grant_by_access_token_hash db hash =
    if is_blank hash
    then none
    else first
        (λ (g : Grant).
          some_row (λ (t : Token). t.id == g.access_token_id && text_eq t.token_hash hash)
            db.tokens)
        db.grants

-- the grant that once held the refresh token with the hash
unfoldable pub get_oauth_grant_by_superseded_refresh_hash : Db → Text → Option Grant
get_oauth_grant_by_superseded_refresh_hash db hash =
    if is_blank hash
    then none
    else first
        (λ (g : Grant).
          some_row (λ x. x.grant_id == g.id && text_eq x.refresh_token_hash hash) db.superseded)
        db.grants

-- the `WHERE id = ? AND refresh_token_hash = ?` of a rotation
abbrev pub is_expected : Rotation → Grant → Bool
is_expected rotation g =
    g.id == rotation.grant_id && text_eq g.refresh_token_hash rotation.expected_refresh_hash

unfoldable pub last_use : List Token → ℕ → Option Time
last_use tokens id = elim (first (λ t. t.id == id) tokens) [ none ↦ none | some t ↦ t.last_used_at ]

-- the new access token takes over the last use of the old one, if there was one
unfoldable pub carried : Option Time → Token → Token
carried none access = access
carried (some at) access = record access { last_used_at = some at }

-- the UPDATE of a rotation
abbrev pub rotated : Rotation → ℕ → Grant → Grant
rotated rotation access_id g = record g {
  access_token_id = access_id;
  previous_refresh_token_hash = g.refresh_token_hash;
  refresh_token_hash = rotation.refresh_hash;
  rotated_at = rotation.rotated_at;
  refresh_idle_expires_at = rotation.refresh_idle_expires_at;
}

-- the tables after the statements of a rotation, but for the deletion of the old access token
unfoldable pub with_rotation : Rotation → ℕ → Db → Db
with_rotation rotation access_id db =
    let row : Superseded = record {
      refresh_token_hash = rotation.expected_refresh_hash;
      grant_id = rotation.grant_id;
      superseded_at = rotation.rotated_at;
    } in
    let cutoff = rotation.rotated_at - oauth_refresh_absolute_lifetime in
    record db {
      grants = update_rows (is_expected rotation) (rotated rotation access_id) db.grants;
      superseded =
          select (λ x. not (x.grant_id == rotation.grant_id && ltb x.superseded_at cutoff))
            (db.superseded ++ row ∷ []);
    }

-- the statements after the insertion of the new access token; the refresh hash is UNIQUE, and so is a
-- superseded hash
unfoldable pub rotate_rows : Rotation → ℕ → ℕ → Db → Result Error Db
rotate_rows rotation previous_id access_id db =
    if some_row
      (λ (g : Grant).
        not (is_expected rotation g) && text_eq g.refresh_token_hash rotation.refresh_hash)
      db.grants
    then err constraint
    else if some_row (λ x. text_eq x.refresh_token_hash rotation.expected_refresh_hash)
        db.superseded
    then err constraint
    else ok (delete_token previous_id (with_rotation rotation access_id db))

-- a rotation of the grant that was found
unfoldable pub rotate_found : Time → Db → Rotation → Grant → Result Error (Token × Db)
rotate_found now db rotation g =
    insert_api_token now db (carried (last_use db.tokens g.access_token_id) rotation.access)
    >>= λ (access, db').
        rotate_rows rotation g.access_token_id access.id db' >>= λ db''. ok (access, db'')

-- RotateOAuthGrant
unfoldable pub rotate_oauth_grant : Time → Db → Rotation → Result Error (Token × Db)
unfolding rotate_found
rotate_oauth_grant now db rotation = elim (first (is_expected rotation) db.grants) [
  | none ↦ err rotation_conflict
  | some g ↦ rotate_found now db rotation g
]

-- RevokeOAuthGrant
unfoldable pub revoke_oauth_grant : Db → ℕ → Result Error Db
revoke_oauth_grant db grant_id = elim (first (λ (g : Grant). g.id == grant_id) db.grants) [
  | none ↦ err grant_not_found
  | some g ↦ ok (delete_token g.access_token_id (delete_grant grant_id db))
]

earlier_expiry : Time → Time → Time
earlier_expiry idle absolute = if ltb idle absolute then idle else absolute

connection : List Token → Grant → Connection
connection tokens g = record {
  id = g.id;
  client_id = g.client_id;
  client_name = g.display_name;
  resource = g.resource;
  scope = g.scope;
  application_id = g.application_id;
  created_at = g.created_at;
  last_used_at = last_use tokens g.access_token_id;
  expires_at = earlier_expiry g.refresh_idle_expires_at g.absolute_expires_at;
  expired = false;
}

-- ListOAuthConnections: the join with the access tokens
unfoldable pub list_oauth_connections : Db → List Connection
unfolding connection last_use earlier_expiry
list_oauth_connections db =
    map (connection db.tokens)
      (select (λ g. some_row (λ t. t.id == g.access_token_id) db.tokens) db.grants)
