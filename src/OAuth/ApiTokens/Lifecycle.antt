-- ===== src/OAuth/ApiTokens/Lifecycle.antt =====
-- A token from its issue to its revocation (internal/service/api_tokens.go).
use redlaunch.Base.{
  true, false, not, ◌&&◌, [], ◌∷◌, ◌++◌, some, Text, codes, text_eq, text_eq_iff, ◌==◌, ==_iff,
  is_blank, is_space, is_hex, is_hex_digit, every_char, len, trim_space-NoSpace, NoSpace,
  cut_prefix-append, ok, err, ◌>>=◌, >>=-eq-ok, ◌≡◌, refl, ap, sym, subst, ◌∙◌, arith, Bool-cases,
  inl, inr,
}
use redlaunch.OAuth.Types.{Platform, Time, Token, token_invalid}
use redlaunch.OAuth.Texts.{format_api_token, split_api_token, expired}
use redlaunch.OAuth.Store.Tables.{Db, first, some_row, update_rows, delete_token}
use redlaunch.OAuth.Store.Tokens.{
  insert_api_token, get_api_token_by_hash, touch_api_token_last_used, delete_api_token,
  stored_token, with_token,
}
use redlaunch.OAuth.Server.Revocation.{same_hash-swap}
use redlaunch.OAuth.Store.Rows.{
  first-some, first-append_right, first-only, some_row-append_last, first-none, some_row-select,
  some_row-none,
}
use redlaunch.OAuth.Store.Distinct.{Unique-first}
use redlaunch.OAuth.Store.Sound.{IsSound, same_hash, insert_api_token_stored}
use redlaunch.OAuth.ApiTokens.{
  TokenInput, checked_input, issued_token, create, revoke_api_token, use_item, known_token,
  authenticate,
}

hex_digits-NoSpace : (s : Text) → every_char is_hex_digit s ≡ true → NoSpace s
unfolding every_char is_space
hex_digits-NoSpace [] h = tt
hex_digits-NoSpace (c ∷ s) h = (ground arith, hex_digits-NoSpace s (ground arith))

is_hex-NoSpace : (s : Text) → is_hex s ≡ true → NoSpace s
unfolding is_hex
is_hex-NoSpace s h = hex_digits-NoSpace s (ground arith)

format_api_token-NoSpace :
    (secret : Text) → is_hex secret ≡ true → NoSpace (format_api_token secret)
unfolding format_api_token is_space
format_api_token-NoSpace secret h = (refl, (refl, (refl, (refl, is_hex-NoSpace secret h))))

-- a token that was formatted is read back
split_api_token-format_api_token :
    (secret : Text)
    → is_hex secret ≡ true
    → len secret ≡ 64
    → split_api_token (format_api_token secret) ≡ some (format_api_token secret)
unfolding split_api_token format_api_token
split_api_token-format_api_token secret hex long =
    rw
      (
        trim_space-NoSpace (codes "rlr_" ++ secret) (format_api_token-NoSpace secret hex),
        cut_prefix-append (codes "rlr_") secret,
      )
      (ground arith)

-- the row with a fresh hash is found by it
with_token-by_hash :
    (row : Token) (db : Db)
    → is_blank row.token_hash ≡ false
    → some_row (λ (t : Token). text_eq t.token_hash row.token_hash) db.tokens ≡ false
    → get_api_token_by_hash (with_token row db) row.token_hash ≡ ok row
unfolding get_api_token_by_hash
with_token-by_hash row db filled fresh =
    let test = λ (t : Token). text_eq t.token_hash row.token_hash in
    let own : test row ≡ true = (text_eq_iff row.token_hash row.token_hash).1 refl in
    let found = first-append_right test db.tokens (row ∷ []) fresh ∙ first-only test row own in
    rw (filled, found) refl

-- the use of a row that is in the table
use_item-there :
    (now at : Time) (row : Token) (db : Db)
    → expired row now ≡ false
    → some_row (λ (t : Token). t.id == row.id) db.tokens ≡ true
    → (db' : Db) × (use_item now at row db ≡ ok (record row { last_used_at = some at }, db'))
unfolding use_item touch_api_token_last_used
use_item-there now at row db live there = (
  record db {
    tokens =
        update_rows (λ (t : Token). t.id == row.id)
          (λ (t : Token). record t { last_used_at = some at }) db.tokens;
  },
  rw (live, there) refl,
)

-- what Create has stored when it succeeds
create_stored :
    (p : Platform) (now at : Time) (secret : Text) (input : TokenInput) (db : Db) (token : Token)
    (plaintext : Text) (db' : Db)
    → create p now at secret input db ≡ ok (token, plaintext, db')
    → (plaintext ≡ format_api_token secret)
      × (token.token_hash ≡ p.sha256 plaintext)
      × (db' ≡ with_token token db)
      × (is_blank token.token_hash ≡ false)
      × (some_row (λ (t : Token). text_eq t.token_hash token.token_hash) db.tokens ≡ false)
unfolding create issued_token
create_stored p now at secret input db token plaintext db' h =
    let ((name, scope, application_id, days), checked, rest) =
      >>=-eq-ok (checked_input db input)
        (λ c. insert_api_token at db (issued_token p now secret c) >>= λ (token, db').
          ok (token, format_api_token secret, db'))
        h in
    let item = issued_token p now secret (name, scope, application_id, days) in
    let ((row, after), inserted, same) =
      >>=-eq-ok (insert_api_token at db item)
        (λ (token, db'). ok (token, format_api_token secret, db')) rest in
    let (is_row, is_after, fresh, filled) = insert_api_token_stored at db item row after inserted in
    let is_token : token ≡ stored_token at db item = sym (ground arith) ∙ is_row in
    let plain : plaintext ≡ format_api_token secret = ground arith in
    let tables : db' ≡ after = ground arith in
    let hash : token.token_hash ≡ p.sha256 (format_api_token secret) =
      ap (λ (t : Token). t.token_hash) is_token in
    (
      plain,
      hash ∙ ap p.sha256 (sym plain),
      tables ∙ is_after ∙ ap (λ (t : Token). with_token t db) (sym is_token),
      rw hash filled,
      subst (λ k. some_row (λ (t : Token). text_eq t.token_hash k) db.tokens ≡ false) (sym hash)
          fresh,
    )

-- A token that Create issues from 64 hexadecimal digits authenticates until it expires: the answer is
-- the token with the time of its use.
pub created_token_authenticates :
    (p : Platform) (now at later used : Time) (secret : Text) (input : TokenInput) (db : Db)
    (token : Token) (plaintext : Text) (db' : Db)
    → is_hex secret ≡ true
    → len secret ≡ 64
    → create p now at secret input db ≡ ok (token, plaintext, db')
    → expired token later ≡ false
    → (db'' : Db) × (authenticate p later used plaintext db'
        ≡ ok (record token { last_used_at = some used }, db''))
unfolding authenticate
created_token_authenticates p now at later used secret input db token plaintext db' hex long made
      live =
    let (plain, hashed, stored, filled, fresh) =
      create_stored p now at secret input db token plaintext db' made in
    let found = with_token-by_hash token db filled fresh in
    let there =
      some_row-append_last (λ (t : Token). t.id == token.id) db.tokens token
        ((==_iff token.id token.id).1 refl) in
    let (db'', used_it) = use_item-there later used token (with_token token db) live there in
    let read : split_api_token plaintext ≡ some plaintext =
      rw plain (split_api_token-format_api_token secret hex long) in
    let looked : get_api_token_by_hash db' (p.sha256 plaintext) ≡ ok token =
      rw (sym hashed, stored) found in
    let done : use_item later used token db'
        ≡ ok (record token { last_used_at = some used }, db'') =
      rw stored used_it in
    (db'', rw (read, authenticate, looked) done)

by_hash-first :
    (db : Db) (hash : Text) (item : Token)
    → get_api_token_by_hash db hash ≡ ok item
    → first (λ (t : Token). text_eq t.token_hash hash) db.tokens ≡ some item
unfolding get_api_token_by_hash
by_hash-first db hash item h = ground arith

by_hash-none :
    (db : Db) (hash : Text)
    → some_row (λ (t : Token). text_eq t.token_hash hash) db.tokens ≡ false
    → known_token (get_api_token_by_hash db hash) ≡ err token_invalid
unfolding get_api_token_by_hash known_token
by_hash-none db hash h =
    let missing = first-none (λ (t : Token). text_eq t.token_hash hash) db.tokens h in ground arith

other_row :
    (hash : Text) (item u : Token)
    → text_eq item.token_hash hash ≡ true
    → (same_hash item u ≡ true → u ≡ item)
    → (not (u.id == item.id) && text_eq u.token_hash hash) ≡ false
other_row hash item u mine same = elim (Bool-cases (text_eq u.token_hash hash)) [
  | inl equal ↦
      let left = (text_eq_iff item.token_hash hash).0 mine in
      let right = (text_eq_iff u.token_hash hash).0 equal in
      let one : u ≡ item = same ((text_eq_iff item.token_hash u.token_hash).1 (left ∙ sym right)) in
      let id : u.id ≡ item.id = ap (λ (t : Token). t.id) one in ground arith
  | inr differs ↦ ground arith
]

authenticate_unknown :
    (p : Platform) (now at : Time) (plaintext normalized : Text) (db : Db)
    → split_api_token plaintext ≡ some normalized
    → known_token (get_api_token_by_hash db (p.sha256 normalized)) ≡ err token_invalid
    → authenticate p now at plaintext db ≡ err token_invalid
unfolding authenticate
authenticate_unknown p now at plaintext normalized db read unknown = ground arith

-- If the token hashes are distinct, a token that is in the tables is refused as invalid once it has
-- been revoked.
pub revoked_api_token_invalid :
    (p : Platform) (now at : Time) (plaintext normalized : Text) (db db' : Db) (item : Token)
    → IsSound db
    → split_api_token plaintext ≡ some normalized
    → get_api_token_by_hash db (p.sha256 normalized) ≡ ok item
    → revoke_api_token item.id db ≡ ok db'
    → authenticate p now at plaintext db' ≡ err token_invalid
unfolding revoke_api_token delete_api_token delete_token
revoked_api_token_invalid p now at plaintext normalized db db' item sound read found revoked =
    let hash = p.sha256 normalized in
    let test = λ (t : Token). text_eq t.token_hash hash in
    let placed = by_hash-first db hash item found in
    let only = Unique-first same_hash same_hash-swap test db.tokens sound.distinct_hashes placed in
    let deleted : db' ≡ delete_token item.id db = ground arith in
    let gone : some_row test (delete_token item.id db).tokens ≡ false =
      some_row-select test (λ (t : Token). not (t.id == item.id)) db.tokens
      ∙ some_row-none (λ (t : Token). not (t.id == item.id) && test t)
          (λ u same. other_row hash item u (first-some test db.tokens placed) same) db.tokens
          only in
    let unknown : known_token (get_api_token_by_hash db' hash) ≡ err token_invalid =
      subst (λ d. known_token (get_api_token_by_hash d hash) ≡ err token_invalid) (sym deleted)
        (by_hash-none (delete_token item.id db) hash gone) in
    authenticate_unknown p now at plaintext normalized db' read unknown
