-- ===== src/Accounts/Calls.antt =====
-- internal/service/users.go: the calls of UserService, in any order.
-- Delete decides by a list of users that it has read before; other calls may have come since.
use redlaunch.Base.{
  ℕ, Bool, false, not, ◌||◌, ◌==◌, ltb, leb, if◌then◌else◌, Text, [], ◌∷◌, List, length, Result, ok,
  err, ◌>>=◌,
}
use redlaunch.Base.Number.{ℤ, pos, negsuc}
use redlaunch.Auth.Platform.{Platform, Bytes}
use redlaunch.Auth.Passwords.{hash_password}
use redlaunch.Accounts.Table.{
  Error, password_refused, user_not_found, last_user, UserAccount, Users, valid_email, create_user,
  change_user_password, delete_user, assign_user_email,
}

-- what `id < 1` refuses, else the ID
unfoldable pub checked_id : ℤ → Result Error ℕ
checked_id (negsuc n) = err user_not_found
checked_id (pos n) = if ltb n 1 then err user_not_found else ok n

unfoldable pub hashed : Platform → (salt : Bytes) → Text → Result Error Text
hashed p salt password = elim (hash_password p salt password) [
  | err e ↦ err password_refused
  | ok hash ↦ ok hash
]

unfoldable pub create :
    Platform → (salt : Bytes) → (now email password : Text) → Users → Result Error Users
create p salt now email password db = valid_email p email >>= λ email.
    hashed p salt password >>= λ hash. create_user p now email hash db >>= λ made. ok made.1

unfoldable pub change_password :
    Platform → (salt : Bytes) → (now : Text) → ℤ → (password : Text) → Users → Result Error Users
change_password p salt now id password db =
    checked_id id >>= λ id. hashed p salt password >>= λ hash. change_user_password now id hash db

unfoldable pub is_listed : ℕ → List UserAccount → Bool
is_listed id [] = false
is_listed id (user ∷ users) = user.id == id || is_listed id users

unfoldable pub delete : (listed : List UserAccount) → ℤ → Users → Result Error Users
delete listed id db = checked_id id >>= λ id.
    if not (is_listed id listed)
    then err user_not_found
    else if leb (length listed) 1
    then err last_user
    else delete_user id db

unfoldable pub assign_email :
    Platform → (now : Text) → ℤ → (email : Text) → Users → Result Error Users
assign_email p now id email db =
    checked_id id >>= λ id. valid_email p email >>= λ email. assign_user_email p now id email db

pub data Call : Type 0 where
  creates : (salt : Bytes) → (now email password : Text) → Call
  changes : (salt : Bytes) → (now : Text) → ℤ → (password : Text) → Call
  deletes : (listed : List UserAccount) → ℤ → Call
  assigns : (now : Text) → ℤ → (email : Text) → Call

unfoldable pub outcome : Platform → Call → Users → Result Error Users
outcome p (creates salt now email password) db = create p salt now email password db
outcome p (changes salt now id password) db = change_password p salt now id password db
outcome p (deletes listed id) db = delete listed id db
outcome p (assigns now id email) db = assign_email p now id email db

abbrev pub settled : Users → Result Error Users → Users
settled db (err e) = db
settled db (ok next) = next

unfoldable pub run_calls : Platform → List Call → Users → Users
run_calls p [] db = db
run_calls p (call ∷ calls) db = run_calls p calls (settled db (outcome p call db))
