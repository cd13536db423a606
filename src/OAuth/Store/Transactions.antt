-- ===== src/OAuth/Store/Transactions.antt =====
-- The transactions of internal/store/oauth.go and api_tokens.go keep the tables sound.
use redlaunch.Base.{
  ℕ, ◌<◌, true, not, ◌&&◌, ◌||◌, [], ◌∷◌, ◌++◌, some, text_eq, text_eq_iff, text_eq_refl, ltb, ◌==◌,
  ok, ◌≡◌, refl, ◌∙◌, arith, All-map, Option-cases, inl, inr,
}
use redlaunch.OAuth.Types.{Client, Grant, Token, Time}
use redlaunch.OAuth.Store.Tables.{Db, first, some_row, update_rows, delete_token, delete_grant}
use redlaunch.OAuth.Store.Tokens.{touch_api_token_last_used, delete_api_token}
use redlaunch.OAuth.Store.Grants.{
  create_oauth_client, delete_unused_oauth_clients, revoke_oauth_grant,
}
use redlaunch.OAuth.Store.Rows.{
  All-both, All-self, some_row-append, some_row-select, some_row_mono, some_row-update, All-update,
}
use redlaunch.OAuth.Store.Distinct.{Unique-update}
use redlaunch.OAuth.Store.Sound.{
  IsSound, IsKnown, same_token_id, same_hash, delete_token-IsSound, delete_grant-IsSound,
}

pub create_oauth_client-IsSound :
    (db : Db) (client : Client) (db' : Db)
    → create_oauth_client db client ≡ ok db'
    → IsSound db
    → IsSound db'
unfolding create_oauth_client
create_oauth_client-IsSound db client db' h s =
    let after : Db = record db { clients = db.clients ++ client ∷ [] } in
    let stored : db' ≡ after = ground arith in
    let IsKnown-append : (g : Grant) → IsKnown db.clients g → IsKnown after.clients g = λ g k.
      ground (
        arith,
        some_row-append (λ (c : Client). text_eq c.id g.client_id) db.clients (client ∷ []),
      ) in
    let sound : IsSound after = record {
      held = s.held;
      known = All-map IsKnown-append db.grants s.known;
      timely = s.timely;
      grant_ids = s.grant_ids;
      token_ids = s.token_ids;
      distinct_ids = s.distinct_ids;
      distinct_token_ids = s.distinct_token_ids;
      distinct_hashes = s.distinct_hashes;
    } in
    rw stored sound

-- the tables after a revocation
pub revoke_oauth_grant_deleted :
    (db : Db) (id : ℕ) (db' : Db)
    → revoke_oauth_grant db id ≡ ok db'
    → (g : Grant) × (first (λ (g : Grant). g.id == id) db.grants ≡ some g)
      × (db' ≡ delete_token g.access_token_id (delete_grant id db))
unfolding revoke_oauth_grant
revoke_oauth_grant_deleted db id db' h =
    elim (Option-cases (first (λ (g : Grant). g.id == id) db.grants)) [
      | inl missing ↦ ground arith
      | inr (g, found) ↦ (g, found, ground arith)
    ]

pub revoke_oauth_grant-IsSound :
    (db : Db) (id : ℕ) (db' : Db) → revoke_oauth_grant db id ≡ ok db' → IsSound db → IsSound db'
revoke_oauth_grant-IsSound db id db' h s =
    let (g, found, deleted) = revoke_oauth_grant_deleted db id db' h in
    rw deleted
      (delete_token-IsSound g.access_token_id (delete_grant id db) (delete_grant-IsSound id db s))

-- a client with a grant is not unused
IsKnown-unused :
    (db : Db) (before : Time) (g : Grant)
    → IsKnown db.clients g
      × (some_row (λ (h : Grant). text_eq h.client_id g.client_id) db.grants ≡ true)
    → IsKnown (delete_unused_oauth_clients db before).clients g
unfolding delete_unused_oauth_clients
IsKnown-unused db before g (known, granted) =
    let used = λ (c : Client).
      not (ltb c.created_at before)
      || some_row (λ (h : Grant). text_eq h.client_id c.id) db.grants in
    let keeps : (c : Client)
        → text_eq c.id g.client_id ≡ true
        → (used c && text_eq c.id g.client_id) ≡ true =
      λ c e.
        let same = (text_eq_iff c.id g.client_id).0 e in
        let held : some_row (λ (h : Grant). text_eq h.client_id c.id) db.grants ≡ true =
          rw same granted in
        ground arith in
    some_row-select (λ (c : Client). text_eq c.id g.client_id) used db.clients
    ∙ some_row_mono (λ (c : Client). text_eq c.id g.client_id)
        (λ (c : Client). used c && text_eq c.id g.client_id) keeps db.clients known

pub delete_unused_oauth_clients-IsSound :
    (db : Db) (before : Time) → IsSound db → IsSound (delete_unused_oauth_clients db before)
unfolding delete_unused_oauth_clients
delete_unused_oauth_clients-IsSound db before s = record {
  held = s.held;
  known = All-map (IsKnown-unused db before) db.grants (
      All-both (IsKnown db.clients)
        (λ g. some_row (λ h. text_eq h.client_id g.client_id) db.grants ≡ true) db.grants s.known
        (All-self (λ g h. text_eq h.client_id g.client_id) (λ g. text_eq_refl g.client_id)
          db.grants));
  timely = s.timely;
  grant_ids = s.grant_ids;
  token_ids = s.token_ids;
  distinct_ids = s.distinct_ids;
  distinct_token_ids = s.distinct_token_ids;
  distinct_hashes = s.distinct_hashes;
}

pub touch_api_token_last_used-IsSound :
    (db : Db) (id : ℕ) (at : Time) (db' : Db)
    → touch_api_token_last_used db id at ≡ ok db'
    → IsSound db
    → IsSound db'
unfolding touch_api_token_last_used
touch_api_token_last_used-IsSound db id at db' h s =
    let hit = λ (t : Token). t.id == id in
    let touch : Token → Token = λ t. record t { last_used_at = some at } in
    let after : Db = record db { tokens = update_rows hit touch db.tokens } in
    let stored : db' ≡ after = ground arith in
    let sound : IsSound after = record {
      held =
          All-map
            (λ (g : Grant) k.
              some_row-update (λ (t : Token). t.id == g.access_token_id) hit touch (λ t. refl)
                db.tokens
              ∙ k)
            db.grants s.held;
      known = s.known;
      timely = s.timely;
      grant_ids = s.grant_ids;
      token_ids =
          All-update (λ (t : Token). t.id < db.next_token_id) hit touch (λ t e l. l) db.tokens
            s.token_ids;
      distinct_ids = s.distinct_ids;
      distinct_token_ids =
          Unique-update same_token_id hit touch (λ t u. refl) (λ t u. refl) db.tokens
            s.distinct_token_ids;
      distinct_hashes =
          Unique-update same_hash hit touch (λ t u. refl) (λ t u. refl) db.tokens s.distinct_hashes;
    } in
    rw stored sound

pub delete_api_token-IsSound :
    (db : Db) (id : ℕ) (db' : Db) → delete_api_token db id ≡ ok db' → IsSound db → IsSound db'
unfolding delete_api_token
delete_api_token-IsSound db id db' h s =
    let deleted : db' ≡ delete_token id db = ground arith in
    rw deleted (delete_token-IsSound id db s)
