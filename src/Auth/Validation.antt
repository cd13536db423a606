-- ===== src/Auth/Validation.antt =====
-- ValidateSession of internal/auth/auth.go, lines 347-413.
use redlaunch.Base.{
  ℕ, Bool, not, ◌&&◌, ◌||◌, ltb, if◌then◌else◌, Text, [], text_eq, len, split, Option, none, some,
}
use redlaunch.Base.Number.{ℤ, pos, int_eq, int_leb, is_positive}
use redlaunch.Auth.Platform.{Platform, Bytes}
use redlaunch.Auth.Users.{User, LocalUser, password_provider, google_provider}
use redlaunch.Auth.Sessions.{
  Answer, found, missing, unavailable, Service, enabled, unix, bar, decode_signed_value,
  parse_session_user,
}

-- The answer of ValidateSession: no session, a session, or an error.
pub data Checked : Type 0 where
  refused : Checked
  accepted : User → Checked
  failed : Checked

abbrev pub password_blank : LocalUser → Bool
password_blank a = text_eq a.password_hash []

unfoldable pub check_account : Service → User → Answer → Checked
check_account s u missing = refused
check_account s u unavailable = failed
check_account s u (found a) =
    if not (int_eq a.credential_version u.credential_version)
      || not (text_eq a.email u.email)
      || (text_eq u.provider google_provider && not s.google_enabled)
      || (text_eq u.provider password_provider && password_blank a)
    then refused
    else accepted u

unfoldable pub check_local : User → Answer → Checked
check_local u missing = refused
check_local u unavailable = failed
check_local u (found a) =
    if int_eq a.credential_version u.credential_version then accepted u else refused

unfoldable pub check_email : User → Option Bool → Checked
check_email u none = failed
check_email u (some authorized) = if authorized then accepted u else refused

unfoldable pub check_user : Service → User → Checked
check_user s u =
    if is_positive u.account_id
    then (if s.has_accounts then check_account s u (s.user_by_id u.account_id) else refused)
    else if not (text_eq u.username [])
    then (if s.local_enabled then check_local u (s.local_user u.username) else refused)
    else if s.has_accounts || not s.google_enabled
    then refused
    else check_email u (s.authorized_email u.email)

unfoldable pub check_parsed : Service → (now : ℕ) → Option (User × ℤ) → Checked
check_parsed s now none = refused
check_parsed s now (some (u, expires)) =
    if int_leb expires (pos (unix now)) then refused else check_user s u

unfoldable pub check_signed : Platform → Service → (now : ℕ) → Option (Text × Bytes) → Checked
check_signed p s now none = refused
check_signed p s now (some (payload, signature)) =
    if not (text_eq signature (p.hmac payload s.secret))
    then refused
    else check_parsed s now (parse_session_user p (split bar payload))

abbrev pub max_session_value_size : ℕ
max_session_value_size = 4096

unfoldable pub validate_session : Platform → Service → (now : ℕ) → Text → Checked
validate_session p s now value =
    if not (enabled s) || text_eq value [] || ltb max_session_value_size (len value)
    then refused
    else check_signed p s now (decode_signed_value p value)
