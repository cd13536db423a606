-- ===== src/Auth/Login.antt =====
-- AuthenticatePassword of internal/auth/local.go, lines 66-111.
use redlaunch.Base.{
  ℕ, ◌≡◌, ◌≢◌, refl, arith, Bool, true, false, not, ◌||◌, if◌then◌else◌, Text, [], text_eq,
  text_eq_iff, Result, ok, err,
}
use redlaunch.Base.Number.{pos, int_eq}
use redlaunch.Base.Assoc.{Table}
use redlaunch.Auth.Platform.{Platform}
use redlaunch.Auth.Limiter.{Attempts, allow}
use redlaunch.Auth.Passwords.{verify_password}
use redlaunch.Auth.Users.{
  Error, invalid_credentials, login_throttled, context_ended, store_failed, User, LocalUser,
  validate_email, validate_username, password_provider, normalize_user,
}
use redlaunch.Auth.Sessions.{Answer, found, missing, unavailable, Service}

unfoldable pub or_username : Platform → Text → Result Error Text → Text
or_username p identifier (ok email) = email
or_username p identifier (err e) = elim (validate_username p identifier) [
  | ok name ↦ name
  | err e' ↦ []
]

-- the name under which an account is looked up: an email address, else a username, else nothing
unfoldable pub login_name : Platform → Text → Text
login_name p identifier = or_username p identifier (validate_email p identifier)

unfoldable pub identity : LocalUser → User
identity a = record {
  account_id = a.id;
  provider = if int_eq a.id (pos 0) then [] else password_provider;
  username = a.username;
  credential_version = a.credential_version;
  email = a.email;
  name = a.email;
  picture_url = [];
}

-- `user.PasswordHash`, or the hash that stands in for it
unfoldable pub hash_or_dummy : Text → LocalUser → Text
hash_or_dummy dummy a = if text_eq a.password_hash [] then dummy else a.password_hash

unfoldable pub check_credentials : Platform → (dummy password : Text) → Answer → Result Error User
check_credentials p dummy password unavailable = err store_failed
check_credentials p dummy password missing = err invalid_credentials
check_credentials p dummy password (found a) =
    if not (verify_password p password (hash_or_dummy dummy a)) || text_eq a.password_hash []
    then err invalid_credentials
    else normalize_user p (identity a)

-- `slot` says that a hash slot is free, and `ended` that the context has ended.
unfoldable pub after_limiter :
    Platform
    → Service
    → (dummy : Text) → (slot ended : Bool) → (name password : Text) → Bool
    → Result Error User
after_limiter p s dummy slot ended name password false = err login_throttled
after_limiter p s dummy slot ended name password true =
    if not slot
    then err login_throttled
    else if ended
    then err context_ended
    else check_credentials p dummy password (s.local_user name)

unfoldable pub authenticate_password :
    Platform
    → Service
    → (dummy : Text) → (now : ℕ) → (slot ended : Bool) → (identifier password address : Text)
    → Table Attempts
    → Result Error User × Table Attempts
authenticate_password p s dummy now slot ended identifier password address entries =
    if not s.local_enabled
    then (err invalid_credentials, entries)
    else (let (allowed, next) = allow now (login_name p identifier) address entries in
        (after_limiter p s dummy slot ended (login_name p identifier) password allowed, next))

-- What a login that succeeds has gone through.
pub record IsLogin (p : Platform) (s : Service) (password name : Text) (u : User) : Type 0 where
  pub account : LocalUser
  pub stored : s.local_user name ≡ found account
  pub hash_given : account.password_hash ≢ []
  pub verified : verify_password p password account.password_hash ≡ true
  pub normal : normalize_user p (identity account) ≡ ok u

module _ (p : Platform) (s : Service) (dummy password : Text) (u : User) where
  check_credentials-IsLogin :
      (name : Text) (o : Answer)
      → s.local_user name ≡ o
      → check_credentials p dummy password o ≡ ok u
      → IsLogin p s password name u
  unfolding check_credentials hash_or_dummy
  check_credentials-IsLogin name missing e h = cc
  check_credentials-IsLogin name unavailable e h = cc
  check_credentials-IsLogin name (found a) e h = record {
    account = a;
    stored = e;
    hash_given = λ b. ground (arith, text_eq_iff a.password_hash []);
    verified = ground arith;
    normal = ground arith;
  }

  after_limiter-IsLogin :
      (slot ended : Bool) (name : Text) (allowed : Bool)
      → after_limiter p s dummy slot ended name password allowed ≡ ok u
      → (allowed ≡ true) × IsLogin p s password name u
  unfolding after_limiter
  after_limiter-IsLogin slot ended name false h = cc
  after_limiter-IsLogin slot ended name true h =
      (refl, check_credentials-IsLogin name (s.local_user name) refl (ground arith))

  -- A password login succeeds only if the limiter let the attempt pass for the name that the identifier
  -- stands for, and the store has an account of this name with a password hash against which the
  -- password is verified; the user is the account's identity in normal form.
  pub authenticate_password-IsLogin :
      (now : ℕ) (slot ended : Bool) (identifier address : Text) (entries : Table Attempts)
      → (authenticate_password p s dummy now slot ended identifier password address entries).0
        ≡ ok u
      → ((allow now (login_name p identifier) address entries).0 ≡ true)
        × IsLogin p s password (login_name p identifier) u
  unfolding authenticate_password
  authenticate_password-IsLogin now slot ended identifier address entries h =
      after_limiter-IsLogin slot ended (login_name p identifier)
        (allow now (login_name p identifier) address entries).0 (ground arith)
