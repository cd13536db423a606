-- ===== src/Auth/Sessions.antt =====
-- Signed sessions: NewSession and what ValidateSession reads, internal/auth/auth.go, lines
-- 317-345 and 516-628.
-- A time is a number of nanoseconds since 1970.
use redlaunch.Base.{
  ℕ, ◌+◌, ◌/◌, Bool, not, ◌||◌, leb, if◌then◌else◌, Text, codes, [], ◌∷◌, ◌++◌, List, text_eq, len,
  cut, Option, none, some, Result, ok, err, ◌>>=◌,
}
use redlaunch.Base.Number.{ℤ, pos, is_positive, parse_int, format_int}
use redlaunch.Auth.Platform.{Platform, Bytes}
use redlaunch.Auth.Users.{
  Error, not_configured, User, LocalUser, validate_email, join, normalize_user,
}

-- what the store answers to a query for one account
pub data Answer : Type 0 where
  found : LocalUser → Answer
  missing : Answer
  unavailable : Answer

-- The service and its store; `has_accounts` says that the store has GetUserByID.
pub record Service : Type 0 where
  pub secret : Text
  pub duration : ℕ
  pub google_enabled : Bool
  pub local_enabled : Bool
  pub has_accounts : Bool
  pub user_by_id : ℤ → Answer
  pub local_user : Text → Answer
  pub authorized_email : Text → Option Bool  -- none for an error

unfoldable pub enabled : Service → Bool
enabled s = leb 32 (len s.secret)

-- Time.Unix
abbrev pub unix : ℕ → ℕ
unix t = t / 1000000000

abbrev pub bar : ℕ
bar = b'|'

abbrev pub user_tag : Text
user_tag = codes "user-v1"

abbrev pub local_tag : Text
local_tag = codes "local-v1"

abbrev pub google_tag : Text
google_tag = codes "v2"

abbrev pub old_tag : Text
old_tag = codes "v1"

module _ (p : Platform) where
  unfoldable pub session_parts : (expires : Text) → (nonce : Text) → User → List Text
  session_parts expires nonce u =
      if is_positive u.account_id
      then user_tag
        ∷ format_int u.account_id
        ∷ u.provider
        ∷ format_int u.credential_version
        ∷ p.encode_text u.email
        ∷ p.encode_text u.name
        ∷ p.encode_text u.picture_url
        ∷ expires
        ∷ nonce
        ∷ []
      else if not (text_eq u.username [])
      then local_tag
        ∷ p.encode_text u.username
        ∷ format_int u.credential_version
        ∷ expires
        ∷ nonce
        ∷ []
      else google_tag
        ∷ p.encode_text u.email
        ∷ p.encode_text u.name
        ∷ p.encode_text u.picture_url
        ∷ expires
        ∷ nonce
        ∷ []

  unfoldable pub encode_signed_value : Text → Text → Text
  encode_signed_value payload secret =
      p.encode_text payload ++ b'.' ∷ p.encode_signature (p.hmac payload secret)

  -- The nonce is what crypto/rand draws.
  unfoldable pub new_session : Service → (now : ℕ) → (nonce : Bytes) → User → Result Error Text
  new_session s now nonce user =
      if not (enabled s)
      then err not_configured
      else (normalize_user p user >>= λ u. ok (
          encode_signed_value
            (join bar (
              session_parts (format_int (pos (unix (now + s.duration)))) (p.encode_signature nonce)
                u))
            s.secret))

  unfoldable pub decoded_parts : Option Text → Option Bytes → Option (Text × Bytes)
  decoded_parts (some payload) (some signature) = some (payload, signature)
  decoded_parts none signature = none
  decoded_parts (some payload) none = none

  unfoldable pub decode_signed_value : Text → Option (Text × Bytes)
  decode_signed_value value = elim (cut b'.' value) [
    | none ↦ none
    | some (first, second) ↦
        if text_eq first [] || text_eq second []
        then none
        else decoded_parts (p.decode_text first) (p.decode_signature second)
  ]

  -- `user, err := normalizeUser(…); return user, expires, err == nil`
  unfoldable pub normalized : Option ℤ → User → Option (User × ℤ)
  normalized none u = none
  normalized (some expires) u = elim (normalize_user p u) [
    | err e ↦ none
    | ok user ↦ some (user, expires)
  ]

  unfoldable pub account_user :
      Option ℤ → Text → Option ℤ → Option Text → Option Text → Option Text → Option User
  account_user (some id) provider (some version) (some email) (some name) (some picture) =
      if not (is_positive id)
      then none
      else some (record {
        account_id = id;
        provider = provider;
        username = name;
        credential_version = version;
        email = email;
        name = name;
        picture_url = picture;
      })
  account_user id provider version email name picture = none

  unfoldable pub local_session_user : Option Text → Option ℤ → Option User
  local_session_user (some username) (some version) = some (record {
    account_id = pos 0;
    provider = [];
    username = username;
    credential_version = version;
    email = [];
    name = [];
    picture_url = [];
  })
  local_session_user username version = none

  unfoldable pub google_user : Option Text → Option Text → Option Text → Option User
  google_user (some email) (some name) (some picture) = some (record {
    account_id = pos 0;
    provider = [];
    username = [];
    credential_version = pos 0;
    email = email;
    name = name;
    picture_url = picture;
  })
  google_user email name picture = none

  unfoldable pub old_user : Result Error Text → Option User
  old_user (err e) = none
  old_user (ok email) = google_user (some email) (some []) (some [])

  unfoldable pub finished : Text → Option ℤ → Option User → Option (User × ℤ)
  finished nonce expires none = none
  finished nonce expires (some u) = if text_eq nonce [] then none else normalized expires u

  unfoldable pub user_session : List Text → Option (User × ℤ)
  user_session (id ∷ provider ∷ version ∷ email ∷ name ∷ picture ∷ expires ∷ nonce ∷ []) =
      finished nonce (parse_int expires) (
        account_user (parse_int id) provider (parse_int version) (p.decode_text email)
          (p.decode_text name) (p.decode_text picture))
  user_session parts = none

  unfoldable pub local_session : List Text → Option (User × ℤ)
  local_session (username ∷ version ∷ expires ∷ nonce ∷ []) =
      finished nonce (parse_int expires)
        (local_session_user (p.decode_text username) (parse_int version))
  local_session parts = none

  unfoldable pub old_session : List Text → Option (User × ℤ)
  old_session (email ∷ expires ∷ nonce ∷ []) =
      finished nonce (parse_int expires) (old_user (validate_email p email))
  old_session parts = none

  unfoldable pub google_session : List Text → Option (User × ℤ)
  google_session (email ∷ name ∷ picture ∷ expires ∷ nonce ∷ []) =
      finished nonce (parse_int expires)
        (google_user (p.decode_text email) (p.decode_text name) (p.decode_text picture))
  google_session parts = none

  unfoldable pub parse_session_user : List Text → Option (User × ℤ)
  parse_session_user [] = none
  parse_session_user (tag ∷ parts) =
      if text_eq tag user_tag
      then user_session parts
      else if text_eq tag local_tag
      then local_session parts
      else if text_eq tag old_tag
      then old_session parts
      else if text_eq tag google_tag
      then google_session parts
      else none
