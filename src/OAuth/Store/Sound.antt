-- ===== src/OAuth/Store/Sound.antt =====
-- What holds of the tables (internal/store/oauth.go and api_tokens.go) between transactions.
use redlaunch.Base.{
  ℕ, ◌+◌, ◌<◌, ◌≤◌, Bool, true, false, not, ◌&&◌, List, [], ◌∷◌, ◌++◌, text_eq, ◌==◌, select, ok,
  ◌≡◌, ◌∙◌, arith, All, All-append, All-map, All-select, is_blank,
}
use redlaunch.OAuth.Types.{Client, Grant, Token, Time}
use redlaunch.OAuth.Store.Tables.{Db, some_row, delete_token, delete_grant}
use redlaunch.OAuth.Store.Tokens.{stored_token, with_token, insert_api_token}
use redlaunch.OAuth.Store.Rows.{
  some_row-none, some_row-append, some_row-select, some_row_mono, All-select_map,
}
use redlaunch.OAuth.Store.Distinct.{Unique, Unique-select, Unique-append}

abbrev pub IsHeld : List Token → Grant → Type 0
IsHeld tokens g = some_row (λ (t : Token). t.id == g.access_token_id) tokens ≡ true

abbrev pub IsKnown : List Client → Grant → Type 0
IsKnown clients g = some_row (λ (c : Client). text_eq c.id g.client_id) clients ≡ true

abbrev pub IsTimely : Grant → Type 0
IsTimely g = g.refresh_idle_expires_at ≤ g.absolute_expires_at

abbrev pub same_id : Grant → Grant → Bool
same_id g h = g.id == h.id

abbrev pub same_token_id : Token → Token → Bool
same_token_id t u = t.id == u.id

abbrev pub same_hash : Token → Token → Bool
same_hash t u = text_eq t.token_hash u.token_hash

-- every grant has its access token and its client, ids are below the next ones, the grants' ids, the
-- tokens' ids and the tokens' hashes are distinct, and no refresh token outlives the end of its grant
pub record IsSound (db : Db) : Type 0 where
  pub held : All (IsHeld db.tokens) db.grants
  pub known : All (IsKnown db.clients) db.grants
  pub timely : All IsTimely db.grants
  pub grant_ids : All (λ (g : Grant). g.id < db.next_grant_id) db.grants
  pub token_ids : All (λ (t : Token). t.id < db.next_token_id) db.tokens
  pub distinct_ids : Unique same_id db.grants
  pub distinct_token_ids : Unique same_token_id db.tokens
  pub distinct_hashes : Unique same_hash db.tokens

IsHeld-append : (tokens more : List Token) (g : Grant) → IsHeld tokens g → IsHeld (tokens ++ more) g
IsHeld-append tokens more g h =
    ground (arith, some_row-append (λ (t : Token). t.id == g.access_token_id) tokens more)

IsHeld-select :
    (id : ℕ) (tokens : List Token) (g : Grant)
    → not (g.access_token_id == id) ≡ true
    → IsHeld tokens g
    → IsHeld (select (λ (t : Token). not (t.id == id)) tokens) g
IsHeld-select id tokens g d h =
    some_row-select (λ (t : Token). t.id == g.access_token_id) (λ (t : Token). not (t.id == id))
      tokens
    ∙ some_row_mono (λ (t : Token). t.id == g.access_token_id)
        (λ (t : Token). not (t.id == id) && t.id == g.access_token_id) (λ t e. ground arith) tokens
        h

pub delete_token-IsSound : (id : ℕ) (db : Db) → IsSound db → IsSound (delete_token id db)
unfolding delete_token
delete_token-IsSound id db s = record {
  held =
      All-select_map (λ (g : Grant). not (g.access_token_id == id)) (IsHeld-select id db.tokens)
        db.grants s.held;
  known =
      All-select (IsKnown db.clients) (λ (g : Grant). not (g.access_token_id == id)) db.grants
        s.known;
  timely = All-select IsTimely (λ (g : Grant). not (g.access_token_id == id)) db.grants s.timely;
  grant_ids =
      All-select (λ (g : Grant). g.id < db.next_grant_id)
        (λ (g : Grant). not (g.access_token_id == id)) db.grants s.grant_ids;
  token_ids =
      All-select (λ (t : Token). t.id < db.next_token_id) (λ (t : Token). not (t.id == id))
        db.tokens s.token_ids;
  distinct_ids =
      Unique-select same_id (λ (g : Grant). not (g.access_token_id == id)) db.grants s.distinct_ids;
  distinct_token_ids =
      Unique-select same_token_id (λ (t : Token). not (t.id == id)) db.tokens s.distinct_token_ids;
  distinct_hashes =
      Unique-select same_hash (λ (t : Token). not (t.id == id)) db.tokens s.distinct_hashes;
}

pub delete_grant-IsSound : (id : ℕ) (db : Db) → IsSound db → IsSound (delete_grant id db)
unfolding delete_grant
delete_grant-IsSound id db s =
    let keep = λ (g : Grant). not (g.id == id) in
    record {
      held = All-select (IsHeld db.tokens) keep db.grants s.held;
      known = All-select (IsKnown db.clients) keep db.grants s.known;
      timely = All-select IsTimely keep db.grants s.timely;
      grant_ids = All-select (λ (g : Grant). g.id < db.next_grant_id) keep db.grants s.grant_ids;
      token_ids = s.token_ids;
      distinct_ids = Unique-select same_id keep db.grants s.distinct_ids;
      distinct_token_ids = s.distinct_token_ids;
      distinct_hashes = s.distinct_hashes;
    }

-- what the insertion of a token that succeeds has stored
pub insert_api_token_stored :
    (now : Time) (db : Db) (item : Token) (row : Token) (db' : Db)
    → insert_api_token now db item ≡ ok (row, db')
    → (row ≡ stored_token now db item)
      × (db' ≡ with_token (stored_token now db item) db)
      × (some_row (λ (t : Token). text_eq t.token_hash item.token_hash) db.tokens ≡ false)
      × (is_blank item.token_hash ≡ false)
unfolding insert_api_token
insert_api_token_stored now db item row db' h = ground arith

pub with_token-IsSound :
    (now : Time) (db : Db) (item : Token)
    → some_row (λ (t : Token). text_eq t.token_hash item.token_hash) db.tokens ≡ false
    → IsSound db
    → IsSound (with_token (stored_token now db item) db)
with_token-IsSound now db item fresh s =
    let row = stored_token now db item in
    record {
      held = All-map (IsHeld-append db.tokens (row ∷ [])) db.grants s.held;
      known = s.known;
      timely = s.timely;
      grant_ids = s.grant_ids;
      token_ids =
          All-append (λ (t : Token). t.id < db.next_token_id + 1) db.tokens (row ∷ [])
            (All-map (λ t l. omega arith) db.tokens s.token_ids) (omega arith, tt);
      distinct_ids = s.distinct_ids;
      distinct_token_ids = Unique-append same_token_id db.tokens row s.distinct_token_ids (
          some_row-none (λ (t : Token). same_token_id t row) (λ t l. ground arith) db.tokens
            s.token_ids);
      distinct_hashes = Unique-append same_hash db.tokens row s.distinct_hashes fresh;
    }

pub insert_api_token-IsSound :
    (now : Time) (db : Db) (item : Token) (row : Token) (db' : Db)
    → insert_api_token now db item ≡ ok (row, db')
    → IsSound db
    → IsSound db'
insert_api_token-IsSound now db item row db' h s =
    let (_, stored, fresh, _) = insert_api_token_stored now db item row db' h in
    rw stored (with_token-IsSound now db item fresh s)
