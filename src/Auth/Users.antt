-- ===== src/Auth/Users.antt =====
-- The identities of internal/auth/auth.go, lines 67-78 and 436-514, with ValidateUsername of
-- internal/application/local_user.go and ValidateEmail of internal/application/application.go.
use redlaunch.Base.{
  ℕ, Bool, true, false, not, ◌&&◌, ◌||◌, ◌==◌, leb, ltb, if◌then◌else◌, Text, codes, [], ◌∷◌, ◌++◌,
  List, map, length, text_eq, len, trim_space, is_control, any_char, every_char, cut, fields,
  Option, none, some, Result, ok, err, ◌>>=◌,
}
use redlaunch.Base.Number.{ℤ, pos, is_positive}
use redlaunch.Auth.Platform.{Platform}

pub data Error : Type 0 where
  username_invalid : Error
  email_required : Error
  email_too_long : Error
  email_invalid : Error
  account_identity_invalid : Error
  local_identity_invalid : Error
  not_configured : Error
  invalid_credentials : Error  -- ErrInvalidCredentials
  login_throttled : Error  -- ErrLoginThrottled
  context_ended : Error
  store_failed : Error

pub record User : Type 0 where
  pub account_id : ℤ
  pub provider : Text
  pub username : Text
  pub credential_version : ℤ
  pub email : Text
  pub name : Text
  pub picture_url : Text

-- LocalUser
pub record LocalUser : Type 0 where
  pub id : ℤ
  pub email : Text
  pub username : Text
  pub password_hash : Text
  pub credential_version : ℤ

abbrev pub alphanumeric : ℕ → Bool
alphanumeric c = (leb b'a' c && leb c b'z') || (leb b'0' c && leb c b'9')

unfoldable pub username_characters : Text → Bool
username_characters [] = true
username_characters (c ∷ s) =
    alphanumeric c && every_char (λ d. alphanumeric d || d == b'.' || d == b'_' || d == b'-') s

unfoldable pub validate_username : Platform → Text → Result Error Text
validate_username p value =
    let name = p.to_lower (trim_space value) in
    if ltb (len name) 1 || ltb 64 (len name)
    then err username_invalid
    else if not (username_characters name)
    then err username_invalid
    else ok name

abbrev pub max_email_length : ℕ
max_email_length = 320

unfoldable pub parses_as_itself : Text → Option (Text × Text) → Bool
parses_as_itself email none = false
parses_as_itself email (some (address, name)) = text_eq address email && text_eq name []

unfoldable pub validate_email : Platform → Text → Result Error Text
validate_email p value =
    let email = trim_space value in
    if text_eq email []
    then err email_required
    else if ltb max_email_length (length email)
    then err email_too_long
    else if any_char is_control email
    then err email_invalid
    else if not (parses_as_itself email (p.parse_address email))
    then err email_invalid
    else ok (p.to_lower email)

abbrev pub max_user_name_size : ℕ
max_user_name_size = 256

abbrev pub max_picture_url_size : ℕ
max_picture_url_size = 1024

abbrev pub space : ℕ
space = b' '

-- strings.NewReplacer(".", " ", "_", " ", "-", " ")
abbrev pub separated : ℕ → ℕ
separated c = if c == b'.' || c == b'_' || c == b'-' then space else c

abbrev pub capitalized : Platform → Text → Text
capitalized p [] = []
capitalized p (c ∷ s) = p.to_upper c ∷ s

-- strings.Join with a separator of one character
unfoldable pub join : ℕ → List Text → Text
join sep [] = []
join sep (part ∷ []) = part
join sep (part ∷ next ∷ parts) = part ++ sep ∷ join sep (next ∷ parts)

unfoldable pub spoken_name : Platform → Text → Text → Text
spoken_name p email local =
    let words = map (capitalized p) (fields (map separated local)) in
    elim words [ [] ↦ email | word ∷ more ↦ join space (word ∷ more) ]

unfoldable pub fallback_user_name : Platform → Text → Text
fallback_user_name p email = elim (cut b'@' email) [
  | none ↦ email
  | some (local, domain) ↦ if text_eq local [] then email else spoken_name p email local
]

abbrev pub password_provider : Text
password_provider = codes "password"

abbrev pub google_provider : Text
google_provider = codes "google"

-- the last two tests of the account branch
unfoldable pub within_sizes : User → User
within_sizes u = record u {
  name = if ltb max_user_name_size (len u.name) then u.email else u.name;
  picture_url = if ltb max_picture_url_size (len u.picture_url) then [] else u.picture_url;
}

-- `user.AccountID > 0` with an email address
unfoldable pub with_email : User → Text → User
with_email u email = record u {
  email = email;
  username = [];
  name = if text_eq u.name [] then email else u.name;
}

unfoldable pub normalize_account : Platform → User → Result Error User
normalize_account p u =
    if not (is_positive u.credential_version)
      || (not (text_eq u.provider password_provider) && not (text_eq u.provider google_provider))
    then err account_identity_invalid
    else if not (text_eq u.email [])
    then (validate_email p u.email >>= λ email. ok (within_sizes (with_email u email)))
    else if not (text_eq u.provider password_provider)
    then err email_required
    else (validate_username p u.username >>= λ name.
        ok (within_sizes (record u { username = name; name = name })))

unfoldable pub normalize_local : Platform → User → Result Error User
normalize_local p u = elim (validate_username p u.username) [
  | err e ↦ err local_identity_invalid
  | ok username ↦
      if not (text_eq u.email []) || not (is_positive u.credential_version)
      then err local_identity_invalid
      else ok (record {
        account_id = pos 0;
        provider = [];
        username = username;
        credential_version = u.credential_version;
        email = [];
        name = username;
        picture_url = [];
      })
]

unfoldable pub normalize_google : Platform → User → Result Error User
normalize_google p u = validate_email p u.email >>= λ email.
    let name = trim_space u.name in
    let picture = trim_space u.picture_url in
    ok (record u {
      email = email;
      name =
          if text_eq name [] || ltb max_user_name_size (len name)
          then fallback_user_name p email
          else name;
      picture_url = if ltb max_picture_url_size (len picture) then [] else picture;
    })

unfoldable pub normalize_user : Platform → User → Result Error User
normalize_user p u =
    if is_positive u.account_id
    then normalize_account p u
    else if not (text_eq u.username [])
    then normalize_local p u
    else normalize_google p u
