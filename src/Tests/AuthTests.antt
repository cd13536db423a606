-- ===== src/Tests/AuthTests.antt =====
-- internal/auth with one account, and a platform whose base64 adds 1,000 to every character.
use redlaunch.Base.{
  ℕ, ◌+◌, ◌-◌, ◌*◌, ◌≤◌, ◌<◌, ◌≡◌, ◌≢◌, refl, ap, arith, true, false, ◌&&◌, Text, codes, [], ◌∷◌,
  List, length, trim_space, any_char, is_control, split, text_eq, len, rune_len, Lacks, select,
  some, ok, err,
}
use redlaunch.Base.Number.{pos, int_eq, format_nat, format_int}
use redlaunch.Base.Assoc.{lookup, retain, insert}
use redlaunch.Auth.Platform.{Platform, Bytes}
use redlaunch.Auth.Limiter.{allow, reached, missing, count_attempt, counted, user_key, address_key}
use redlaunch.Auth.Attempts.{Attempt, run, IsLimited}
use redlaunch.Auth.Throttle.{Within, attempts_limited}
use redlaunch.Auth.Passwords.{
  validate_password, encoded_hash, verify_parts, compared, decoded_part, hash_password,
  verify_password, is_valid_password, dollar,
}
use redlaunch.Auth.Hashes.{IsBase64, verify_password-hash_password}
use redlaunch.Auth.Users.{
  User, LocalUser, normalize_user, normalize_account, validate_email, parses_as_itself,
  within_sizes, with_email, join, password_provider,
}
use redlaunch.Auth.Sessions.{
  found, Service, new_session, bar, enabled, encode_signed_value, session_parts,
}
use redlaunch.Auth.Validation.{accepted, validate_session}
use redlaunch.Auth.Current.{IsCurrent, validate_session-IsCurrent}
use redlaunch.Auth.SessionTexts.{IsUrlBase64, IsAccount}
use redlaunch.Auth.Acceptance.{IsUnchanged, new_session-accepted}
use redlaunch.Auth.Login.{
  after_limiter, check_credentials, hash_or_dummy, login_name, or_username, identity,
  authenticate_password, IsLogin, authenticate_password-IsLogin,
}

-- Six attempts in one second: the sixth is refused.
abbrev attempt : ℕ → Attempt
attempt now = record { now = now; username = codes "ann"; address = codes "10.0.0.1" }

abbrev attempts : List Attempt
attempts = attempt 1 ∷ attempt 2 ∷ attempt 3 ∷ attempt 4 ∷ attempt 5 ∷ attempt 6 ∷ []

abbrev five : List Attempt
five = attempt 1 ∷ attempt 2 ∷ attempt 3 ∷ attempt 4 ∷ attempt 5 ∷ []

sixth_refused : (run attempts []).0 ≡ five
unfolding run allow reached lookup retain missing count_attempt insert counted text_eq user_key
    address_key
sixth_refused = refl

no_entries-IsLimited : IsLimited []
no_entries-IsLimited = record { unique = tt; few = omega arith }

attempts-Within : Within 0 attempts
attempts-Within = ground arith

attempts_limited_example :
    (length (select (λ a. text_eq a.username (codes "ann")) (run attempts []).0) ≤ 10)
    × (length (select (λ a. text_eq a.address (codes "10.0.0.1")) (run attempts []).0) ≤ 40)
attempts_limited_example =
    attempts_limited 0 attempts [] (codes "ann") (codes "10.0.0.1") no_entries-IsLimited
      attempts-Within

unfoldable pub shift : List ℕ → List ℕ
shift [] = []
shift (c ∷ s) = (c + 1000) ∷ shift s

unfoldable pub unshift : List ℕ → List ℕ
unshift [] = []
unshift (c ∷ s) = (c - 1000) ∷ unshift s

unshift-shift : (s : List ℕ) → unshift (shift s) ≡ s
unfolding shift unshift
unshift-shift [] = refl
unshift-shift (c ∷ s) = ground (arith, unshift-shift s)

shift-Lacks : (b : ℕ) → b < 1000 → (s : List ℕ) → Lacks b (shift s)
unfolding shift
shift-Lacks b h [] = tt
shift-Lacks b h (c ∷ s) = (λ e. ground arith, shift-Lacks b h s)

shift-given : (s : List ℕ) → s ≢ [] → shift s ≢ []
unfolding shift
shift-given [] h = λ e. h refl
shift-given (c ∷ s) h = λ e. ground arith

shift-short : (s : List ℕ) → len (shift s) ≤ 4 * length s
unfolding shift len rune_len
shift-short [] = omega arith
shift-short (c ∷ s) = ground (arith, shift-short s)

abbrev pub salt : Bytes
salt = 1 ∷ 2 ∷ 3 ∷ 4 ∷ 5 ∷ 6 ∷ 7 ∷ 8 ∷ 1 ∷ 2 ∷ 3 ∷ 4 ∷ 5 ∷ 6 ∷ 7 ∷ 8 ∷ []

abbrev pub key : ℕ → Bytes
key c =
    c ∷ c ∷ c ∷ c ∷ c ∷ c ∷ c ∷ c ∷ c ∷ c ∷ c ∷ c ∷ c ∷ c ∷ c ∷ c ∷ c ∷ c ∷ c ∷ c ∷ c ∷ c ∷ c ∷ c
    ∷ c ∷ c ∷ c ∷ c ∷ c ∷ c ∷ c ∷ c ∷ []

abbrev pub platform : Platform
platform = record {
  argon2_key = λ password s. key (length password);
  encode_bytes = shift;
  decode_bytes = λ t. some (unshift t);
  encode_text = shift;
  decode_text = λ t. some (unshift t);
  encode_signature = shift;
  decode_signature = λ t. some (unshift t);
  hmac = λ v s. 7 ∷ [];
  parse_address = λ t. some (t, []);
  to_lower = λ t. t;
  to_upper = λ c. c;
}

platform-IsBase64 : IsBase64 platform
platform-IsBase64 = record {
  decodes = λ b. ap some (unshift-shift b);
  no_dollar = shift-Lacks dollar (omega arith);
  short = shift-short;
}

pub platform-IsUrlBase64 : IsUrlBase64 platform
platform-IsUrlBase64 = record {
  text_decodes = λ b. ap some (unshift-shift b);
  text_barless = shift-Lacks bar (omega arith);
  text_dotless = shift-Lacks b'.' (omega arith);
  text_given = shift-given;
  signature_decodes = λ b. ap some (unshift-shift b);
  signature_barless = shift-Lacks bar (omega arith);
  signature_given = shift-given;
}

abbrev pub password : Text
password = codes "correct horse"

abbrev wrong_password : Text
wrong_password = codes "wrong horse"

abbrev pub hash : Text
hash = elim (hash_password platform salt password) [ ok h ↦ h | err e ↦ [] ]

hash_made : hash_password platform salt password ≡ ok hash
unfolding hash_password validate_password any_char
hash_made = refl

verify_password-hash_password_example : verify_password platform wrong_password hash ≡ (
    is_valid_password wrong_password
    && text_eq (platform.argon2_key wrong_password salt) (platform.argon2_key password salt))
verify_password-hash_password_example =
    verify_password-hash_password platform platform-IsBase64 salt refl (λ p. refl) password
      wrong_password hash hash_made

abbrev account : LocalUser
account = record {
  id = pos 3;
  email = codes "ann@example.org";
  username = [];
  password_hash = hash;
  credential_version = pos 2;
}

abbrev pub service : Service
service = record {
  secret = codes "0123456789abcdef0123456789abcdef";
  duration = 60 * 1000000000;
  google_enabled = false;
  local_enabled = true;
  has_accounts = true;
  user_by_id = λ i. found account;
  local_user = λ n. found account;
  authorized_email = λ e. some false;
}

abbrev pub ann : User
ann = record {
  account_id = pos 3;
  provider = password_provider;
  username = [];
  credential_version = pos 2;
  email = codes "ann@example.org";
  name = codes "ann@example.org";
  picture_url = [];
}

pub ann-IsAccount : IsAccount platform ann 3 2
unfolding normalize_user normalize_account text_eq validate_email trim_space any_char is_control
    parses_as_itself within_sizes with_email len
ann-IsAccount = record {
  id_given = refl;
  id_positive = omega arith;
  id_small = omega arith;
  version_given = refl;
  version_small = omega arith;
  email_given = λ e. ground arith;
  normal = refl;
}

account-IsUnchanged : IsUnchanged service ann 3 2
unfolding hash_password validate_password any_char encoded_hash
account-IsUnchanged = record {
  account = account;
  has_accounts = refl;
  stored = refl;
  same_version = refl;
  same_email = refl;
  google_on = λ e. absurd (ground arith);
  password_set = λ g e. ground arith;
}

abbrev pub session : Text
session = elim (new_session platform service 0 (9 ∷ []) ann) [ ok v ↦ v | err e ↦ [] ]

session_made : new_session platform service 0 (9 ∷ []) ann ≡ ok session
unfolding new_session enabled normalize_user normalize_account text_eq validate_email trim_space
    any_char is_control parses_as_itself within_sizes with_email len
session_made = refl

pub session_short : len session ≤ 4096
unfolding new_session enabled normalize_user normalize_account text_eq validate_email trim_space
    any_char is_control parses_as_itself within_sizes with_email len rune_len encode_signed_value
    join session_parts format_int format_nat shift encoded_hash
session_short = omega arith

new_session-accepted_example : validate_session platform service 1000000000 session ≡ accepted ann
new_session-accepted_example =
    new_session-accepted platform service ann 3 2 0 1000000000 (9 ∷ []) session platform-IsUrlBase64
      ann-IsAccount account-IsUnchanged (λ e. ground arith) (λ v e. ground arith) (omega arith)
      (omega arith) session_short session_made

validate_session-IsCurrent_example : IsCurrent platform service 1000000000 session ann
validate_session-IsCurrent_example =
    validate_session-IsCurrent platform service 1000000000 session ann new_session-accepted_example

login_made :
    (authenticate_password platform service [] 0 true false
      (codes "ann@example.org")
      password
      (codes "10.0.0.1")
      []).0
    ≡ ok ann
unfolding authenticate_password after_limiter allow reached lookup retain missing check_credentials
    verify_password is_valid_password validate_password any_char len hash_or_dummy text_eq
    hash_password encoded_hash shift unshift verify_parts compared decoded_part identity int_eq
    login_name or_username normalize_user normalize_account validate_email parses_as_itself
    trim_space is_control split rune_len within_sizes with_email user_key address_key count_attempt
    counted insert
login_made = refl

authenticate_password-IsLogin_example :
    ((allow 0 (login_name platform (codes "ann@example.org")) (codes "10.0.0.1") []).0 ≡ true)
    × IsLogin platform service password (login_name platform (codes "ann@example.org")) ann
authenticate_password-IsLogin_example =
    authenticate_password-IsLogin platform service [] password ann 0 true false
      (codes "ann@example.org") (codes "10.0.0.1") [] login_made
