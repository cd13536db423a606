-- ===== src/OAuth/Store/Tokens.antt =====
-- internal/store/api_tokens.go
use redlaunch.Base.{
  ℕ, ◌+◌, not, ◌||◌, List, [], ◌∷◌, ◌++◌, Option, none, some, Text, text_eq, ◌==◌, if◌then◌else◌,
  select, is_blank, Result, ok, err,
}
use redlaunch.OAuth.Types.{
  Token, Time, is_zero_time, Error, hash_missing, constraint, token_not_found,
}
use redlaunch.OAuth.Store.Tables.{
  Db, first, some_row, update_rows, application_allowed, delete_token,
}

-- the row that insertAPIToken stores: the next ID, and a creation time where none is given
abbrev pub stored_token : Time → Db → Token → Token
stored_token now db item = record item {
  id = db.next_token_id;
  created_at = if is_zero_time item.created_at then now else item.created_at;
}

abbrev pub with_token : Token → Db → Db
with_token row db = record db {
  tokens = db.tokens ++ row ∷ [];
  next_token_id = db.next_token_id + 1;
}

-- insertAPIToken, with the UNIQUE hash and the CHECK of the table; `now` is time.Now
unfoldable pub insert_api_token : Time → Db → Token → Result Error (Token × Db)
insert_api_token now db item =
    let row = stored_token now db item in
    if is_blank item.token_hash
    then err hash_missing
    else if some_row (λ t. text_eq t.token_hash item.token_hash) db.tokens
        || not (application_allowed db item.scope item.application_id)
    then err constraint
    else ok (row, with_token row db)

-- ListAPITokens: those that no grant holds
unfoldable pub list_api_tokens : Db → List Token
list_api_tokens db =
    select (λ t. not (some_row (λ g. g.access_token_id == t.id) db.grants)) db.tokens

or_not_found : Option Token → Result Error Token
or_not_found none = err token_not_found
or_not_found (some t) = ok t

-- GetAPIToken
unfoldable pub get_api_token : Db → ℕ → Result Error Token
unfolding or_not_found
get_api_token db id = or_not_found (first (λ t. t.id == id) db.tokens)

-- GetAPITokenByHash
unfoldable pub get_api_token_by_hash : Db → Text → Result Error Token
unfolding or_not_found
get_api_token_by_hash db token_hash =
    if is_blank token_hash
    then err token_not_found
    else or_not_found (first (λ t. text_eq t.token_hash token_hash) db.tokens)

-- TouchAPITokenLastUsed
unfoldable pub touch_api_token_last_used : Db → ℕ → Time → Result Error Db
touch_api_token_last_used db id at =
    if some_row (λ t. t.id == id) db.tokens
    then ok (record db {
      tokens = update_rows (λ t. t.id == id) (λ t. record t { last_used_at = some at }) db.tokens;
    })
    else err token_not_found

-- DeleteAPIToken
unfoldable pub delete_api_token : Db → ℕ → Result Error Db
delete_api_token db id =
    if some_row (λ t. t.id == id) db.tokens then ok (delete_token id db) else err token_not_found
