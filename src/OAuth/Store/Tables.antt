-- ===== src/OAuth/Store/Tables.antt =====
-- The rows that the authorization server reads and writes.
use redlaunch.Base.{
  ℕ, Bool, false, not, ◌&&◌, ◌||◌, List, [], ◌∷◌, Option, none, some, Text, ◌==◌, if◌then◌else◌,
  select,
}
use redlaunch.OAuth.Types.{Client, Grant, Token, Scope, run, manage, Time}

-- a row of oauth_superseded_refresh_tokens
pub record Superseded : Type 0 where
  pub refresh_token_hash : Text
  pub grant_id : ℕ
  pub superseded_at : Time

-- a row of the table of managed applications, as far as it is read
pub record Application : Type 0 where
  pub id : ℕ
  pub name : Text

-- the next IDs are those of AUTOINCREMENT
pub record Db : Type 0 where
  pub clients : List Client
  pub grants : List Grant
  pub tokens : List Token
  pub superseded : List Superseded
  pub applications : List Application
  pub next_grant_id : ℕ
  pub next_token_id : ℕ

-- the first row that passes the test
unfoldable pub first {ℓ} : {A : Type ℓ} → (A → Bool) → List A → Option A
first p [] = none
first p (x ∷ xs) = if p x then some x else first p xs

-- some row passes the test
unfoldable pub some_row {ℓ} : {A : Type ℓ} → (A → Bool) → List A → Bool
some_row p [] = false
some_row p (x ∷ xs) = p x || some_row p xs

-- UPDATE … SET … WHERE
unfoldable pub update_rows {ℓ} : {A : Type ℓ} → (A → Bool) → (A → A) → List A → List A
update_rows p f [] = []
update_rows p f (x ∷ xs) = (if p x then f x else x) ∷ update_rows p f xs

abbrev pub is_application : ℕ → Application → Bool
is_application id a = a.id == id

-- the foreign key on applications
unfoldable pub application_exists : Db → ℕ → Bool
unfolding some_row
application_exists db id = some_row (is_application id) db.applications

-- the CHECK on scope and application, with a NULL application for 0
unfoldable pub application_allowed : Db → Scope → ℕ → Bool
application_allowed db manage id = id == 0
application_allowed db run id = not (id == 0) && application_exists db id

-- DELETE FROM oauth_grants WHERE id = ?, which cascades to the superseded tokens
unfoldable pub delete_grant : ℕ → Db → Db
delete_grant id db = record db {
  grants = select (λ g. not (g.id == id)) db.grants;
  superseded = select (λ x. not (x.grant_id == id)) db.superseded;
}

abbrev pub owner_deleted : ℕ → List Grant → ℕ → Bool
owner_deleted token_id grants grant_id =
    some_row (λ g. g.id == grant_id && g.access_token_id == token_id) grants

-- DELETE FROM api_tokens WHERE id = ?, which cascades to the grants that hold the token, and from
-- them to their superseded tokens
unfoldable pub delete_token : ℕ → Db → Db
unfolding some_row
delete_token id db = record db {
  tokens = select (λ t. not (t.id == id)) db.tokens;
  grants = select (λ g. not (g.access_token_id == id)) db.grants;
  superseded = select (λ x. not (owner_deleted id db.grants x.grant_id)) db.superseded;
}
