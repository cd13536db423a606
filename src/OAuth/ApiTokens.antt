-- ===== src/OAuth/ApiTokens.antt =====
-- internal/service/api_tokens.go: the tokens that the owner issues. A method is a function on the tables,
-- and a call is taken as one step.
pub mod Lifecycle
use redlaunch.Base.{
  ℕ, ◌+◌, ◌*◌, Bool, true, false, not, ◌&&◌, ◌||◌, List, [], ◌∷◌, Option, none, some, Text, codes,
  text_eq, ltb, ◌==◌, if◌then◌else◌, is_blank, trim_space, rune_len, any_char, is_control, Result,
  ok, err, ◌>>=◌, take, length,
}
use redlaunch.Base.Number.{ℤ, pos, negsuc}
use redlaunch.OAuth.Types.{
  Platform, Time, day, Token, Scope, run, manage, Error, display_name_required,
  display_name_too_long, display_name_invalid, expiry_invalid, application_required,
  application_not_found, token_scope_invalid, token_invalid, token_expired, token_not_found,
}
use redlaunch.OAuth.Texts.{format_api_token, split_api_token, expired}
use redlaunch.OAuth.Store.Tables.{Db, application_exists}
use redlaunch.OAuth.Store.Tokens.{
  insert_api_token, get_api_token_by_hash, touch_api_token_last_used, delete_api_token,
  list_api_tokens,
}

-- APITokenInput
pub record TokenInput : Type 0 where
  pub display_name : Text
  pub application_id : ℤ
  pub scope : Text
  pub expires_in_days : ℤ

-- ValidateAPITokenDisplayName
unfoldable pub validate_api_token_display_name : Text → Result Error Text
validate_api_token_display_name value =
    let name = trim_space value in
    if is_blank name
    then err display_name_required
    else if ltb 100 (length name)
    then err display_name_too_long
    else if any_char is_control name
    then err display_name_invalid
    else ok name

-- ValidateAPITokenExpiry, with the number of days that it accepts
unfoldable pub validate_api_token_expiry : ℤ → Result Error ℕ
validate_api_token_expiry (pos days) = if ltb 366 days then err expiry_invalid else ok days
validate_api_token_expiry (negsuc n) = err expiry_invalid

-- `input.ApplicationID < 1` and the lookup of the application
unfoldable pub pinned_application : Db → ℤ → Result Error (Scope × ℕ)
pinned_application db (negsuc n) = err application_required
pinned_application db (pos id) =
    if id == 0
    then err application_required
    else if application_exists db id
    then ok (run, id)
    else err application_not_found

unfoldable pub no_application : ℤ → Result Error (Scope × ℕ)
no_application (negsuc n) = err token_scope_invalid
no_application (pos id) = if id == 0 then ok (manage, 0) else err token_scope_invalid

-- the switch on the scope; an empty scope is `run`
unfoldable pub checked_scope : Db → TokenInput → Result Error (Scope × ℕ)
unfolding pinned_application no_application
checked_scope db input =
    if is_blank input.scope || text_eq input.scope (codes "run")
    then pinned_application db input.application_id
    else if text_eq input.scope (codes "manage")
    then no_application input.application_id
    else err token_scope_invalid

-- the checks of Create: the display name, the scope, the application and the days
unfoldable pub checked_input : Db → TokenInput → Result Error (Text × Scope × ℕ × ℕ)
unfolding validate_api_token_display_name checked_scope validate_api_token_expiry
checked_input db input = validate_api_token_display_name input.display_name >>= λ name.
    checked_scope db input >>= λ (scope, application_id).
    validate_api_token_expiry input.expires_in_days >>= λ days.
    ok (name, scope, application_id, days)

-- the token that Create stores; `secret` is the hexadecimal text of 32 random bytes
unfoldable pub issued_token : Platform → Time → Text → Text × Scope × ℕ × ℕ → Token
unfolding take
issued_token p now secret (name, scope, application_id, days) =
    let plaintext = format_api_token secret in
    record {
      id = 0;
      display_name = name;
      prefix = take 12 plaintext;
      token_hash = p.sha256 plaintext;
      application_id = application_id;
      scope = scope;
      created_at = now;
      expires_at = if ltb 0 days then some (now + days * day) else none;
      last_used_at = none;
    }

-- Create: the token, its plaintext and the new tables; `at` is the time of the insertion
unfoldable pub create :
    Platform → Time → Time → Text → TokenInput → Db → Result Error (Token × Text × Db)
unfolding checked_input issued_token
create p now at secret input db = checked_input db input >>= λ checked.
    insert_api_token at db (issued_token p now secret checked) >>= λ (token, db').
    ok (token, format_api_token secret, db')

-- Revoke
unfoldable pub revoke_api_token : ℕ → Db → Result Error Db
revoke_api_token id db = delete_api_token db id

-- the lookup's error turned into that of Authenticate
unfoldable pub known_token : Result Error Token → Result Error Token
known_token (err e) = err token_invalid
known_token (ok item) = ok item

-- Authenticate behind the lookup: the token with its last use, and the new tables
unfoldable pub use_item : Time → Time → Token → Db → Result Error (Token × Db)
use_item now at item db =
    if expired item now
    then err token_expired
    else touch_api_token_last_used db item.id at >>= λ db'.
        ok (record item { last_used_at = some at }, db')

-- Authenticate, which reads the clock twice
unfoldable pub authenticate : Platform → Time → Time → Text → Db → Result Error (Token × Db)
unfolding use_item known_token
authenticate p now at plaintext db = elim (split_api_token plaintext) [
  | none ↦ err token_invalid
  | some normalized ↦ known_token (get_api_token_by_hash db (p.sha256 normalized)) >>= λ item.
      use_item now at item db
]
