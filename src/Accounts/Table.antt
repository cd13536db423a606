-- ===== src/Accounts/Table.antt =====
-- The users table of internal/store/store.go, lines 2196-2213, and the statements of
-- internal/store/local_users.go. A statement that fails leaves the table as it was.
-- The sequence of AUTOINCREMENT is `last_id`. The order in which a query answers with rows and
-- the failures of the database are left out.
use redlaunch.Base.{
  ℕ, suc, ◌+◌, Bool, true, false, not, ◌&&◌, ◌||◌, ◌==◌, leb, ltb, if◌then◌else◌, Text, [], ◌∷◌,
  List, map, length, select, text_eq, trim_space, Option, none, some, Result, ok, err, ◌>>=◌,
}
use redlaunch.Base.Number.{pos, negsuc, max_int64}
use redlaunch.Auth.Platform.{Platform}
use redlaunch.Auth.Users.{LocalUser, validate_email}

pub data Error : Type 0 where
  email_refused : redlaunch.Auth.Users.Error → Error
  password_refused : Error  -- ErrPasswordInvalid
  password_hash_required : Error
  user_exists : Error  -- ErrUserExists
  user_not_found : Error  -- ErrUserNotFound
  last_user : Error  -- ErrLastUser
  table_full : Error

pub record Row : Type 0 where
  pub id : ℕ
  pub email : Option Text
  pub legacy_username : Option Text
  pub password_hash : Text
  pub credential_version : ℕ
  pub created_at : Text
  pub updated_at : Text

pub record Users : Type 0 where
  pub rows : List Row
  pub last_id : ℕ

-- UserAccount
pub record UserAccount : Type 0 where
  pub id : ℕ
  pub email : Text
  pub legacy_username : Text
  pub has_password : Bool
  pub created_at : Text

-- COLLATE NOCASE compares texts whose ASCII capitals are folded.
abbrev pub fold : ℕ → ℕ
fold c = if leb b'A' c && leb c b'Z' then c + 32 else c

abbrev pub same_text : Text → Text → Bool
same_text a b = text_eq (map fold a) (map fold b)

-- `email=?`, which NULL does not satisfy
abbrev pub has_email : Text → Row → Bool
has_email email row = elim row.email [ none ↦ false | some e ↦ same_text e email ]

abbrev pub has_legacy_username : Text → Row → Bool
has_legacy_username name row = elim row.legacy_username [ none ↦ false | some n ↦ text_eq n name ]

abbrev pub has_id : ℕ → Row → Bool
has_id id row = row.id == id

abbrev pub without_email : Row → Bool
without_email row = elim row.email [ none ↦ true | some e ↦ false ]

-- the first row that passes the test
unfoldable pub find : (Row → Bool) → List Row → Option Row
find test [] = none
find test (row ∷ rows) = if test row then some row else find test rows

-- UPDATE … WHERE id=?
unfoldable pub update_id : ℕ → (Row → Row) → List Row → List Row
update_id id change [] = []
update_id id change (row ∷ rows) =
    (if has_id id row then change row else row) ∷ update_id id change rows

abbrev pub or_blank : Option Text → Text
or_blank none = []
or_blank (some s) = s

unfoldable pub login_user : Row → LocalUser
login_user row = record {
  id = pos row.id;
  email = or_blank row.email;
  username = or_blank row.legacy_username;
  password_hash = row.password_hash;
  credential_version = pos row.credential_version;
}

unfoldable pub scan_login_user : Option Row → Result Error LocalUser
scan_login_user none = err user_not_found
scan_login_user (some row) = ok (login_user row)

unfoldable pub get_local_user : Platform → Text → Users → Result Error LocalUser
get_local_user p identifier db =
    let name = p.to_lower (trim_space identifier) in
    scan_login_user (
      find (λ row. has_email name row || (without_email row && has_legacy_username name row))
        db.rows)

unfoldable pub get_user_by_id : ℕ → Users → Result Error LocalUser
get_user_by_id id db = scan_login_user (find (has_id id) db.rows)

unfoldable pub has_local_users : Users → Bool
has_local_users db = ltb 0 (length (select (λ row. not (text_eq row.password_hash [])) db.rows))

unfoldable pub user_account : Row → UserAccount
user_account row = record {
  id = row.id;
  email = or_blank row.email;
  legacy_username = or_blank row.legacy_username;
  has_password = not (text_eq row.password_hash []);
  created_at = row.created_at;
}

-- The query orders the rows; the order is left out.
unfoldable pub list_users : Users → List UserAccount
list_users db = map user_account db.rows

unfoldable pub valid_email : Platform → Text → Result Error Text
valid_email p email = elim (validate_email p email) [ err e ↦ err (email_refused e) | ok e ↦ ok e ]

unfoldable pub new_row : ℕ → (now email hash : Text) → Row
new_row id now email hash = record {
  id = id;
  email = some email;
  legacy_username = none;
  password_hash = hash;
  credential_version = 1;
  created_at = now;
  updated_at = now;
}

-- an INSERT under the UNIQUE constraint on the email address
unfoldable pub insert_row : (now email hash : Text) → Users → Result Error Users
insert_row now email hash db = elim (find (has_email email) db.rows) [
  | some row ↦ err user_exists
  | none ↦
      if leb max_int64 db.last_id
      then err table_full
      else ok (record {
        rows = new_row (suc db.last_id) now email hash ∷ db.rows;
        last_id = suc db.last_id;
      })
]

unfoldable pub create_user :
    Platform → (now email hash : Text) → Users → Result Error (UserAccount × Users)
create_user p now email hash db = valid_email p email >>= λ email.
    if text_eq hash []
    then err password_hash_required
    else (insert_row now email hash db >>= λ next.
        ok (user_account (new_row (suc db.last_id) now email hash), next))

-- Versions below the largest 64-bit integer.
unfoldable pub with_password : (now hash : Text) → Row → Row
with_password now hash row = record row {
  password_hash = hash;
  credential_version = suc row.credential_version;
  updated_at = now;
}

unfoldable pub change_user_password : (now : Text) → ℕ → (hash : Text) → Users → Result Error Users
change_user_password now id hash db =
    if text_eq hash [] then err password_hash_required else elim (find (has_id id) db.rows) [
      | none ↦ err user_not_found
      | some row ↦ ok (record db { rows = update_id id (with_password now hash) db.rows })
    ]

unfoldable pub reset_local_password :
    Platform → (now email hash : Text) → Users → Result Error Users
reset_local_password p now email hash db = get_local_user p email db >>= λ user. elim user.id [
  | pos id ↦ change_user_password now id hash db
  | negsuc n ↦ err user_not_found
]

unfoldable pub delete_user : ℕ → Users → Result Error Users
delete_user id db = elim (find (has_id id) db.rows) [
  | none ↦ err user_not_found
  | some row ↦
      if ltb 1 (length db.rows)
      then ok (record db { rows = select (λ row. not (has_id id row)) db.rows })
      else err last_user
]

unfoldable pub with_assigned : (now email : Text) → Row → Row
with_assigned now email row = record row {
  email = some email;
  legacy_username = none;
  credential_version = suc row.credential_version;
  updated_at = now;
}

-- an UPDATE that has found its row, under the UNIQUE constraint on the email address
unfoldable pub assign_row : (now : Text) → ℕ → (email : Text) → Users → Result Error Users
assign_row now id email db = elim (find (has_email email) db.rows) [
  | some row ↦ err user_exists
  | none ↦ ok (record db { rows = update_id id (with_assigned now email) db.rows })
]

unfoldable pub assign_user_email :
    Platform → (now : Text) → ℕ → (email : Text) → Users → Result Error Users
assign_user_email p now id email db = valid_email p email >>= λ email.
    elim (find (λ row. has_id id row && without_email row) db.rows) [
      | none ↦ err user_not_found
      | some row ↦ assign_row now id email db
    ]
