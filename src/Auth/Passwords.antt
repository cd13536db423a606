-- ===== src/Auth/Passwords.antt =====
-- internal/auth/password.go.
use redlaunch.Base.{
  ℕ, Bool, true, false, not, ◌||◌, ◌==◌, ltb, if◌then◌else◌, Text, codes, [], ◌∷◌, ◌++◌, List,
  length, text_eq, len, any_char, split, Option, none, some, Result, ok, err, ◌>>=◌,
}
use redlaunch.Auth.Platform.{Platform, Bytes}

-- the one error of password.go that depends on the password
pub data PasswordError : Type 0 where
  password_invalid : PasswordError  -- ErrPasswordInvalid

abbrev pub salt_size : ℕ
salt_size = 16

abbrev pub key_size : ℕ
key_size = 32

abbrev pub is_line_break : ℕ → Bool
is_line_break c = c == b'\r' || c == b'\n'

unfoldable pub validate_password : Text → Result PasswordError Unit
validate_password password =
    if ltb (length password) 8 || ltb 128 (length password) || any_char is_line_break password
    then err password_invalid
    else ok tt

abbrev pub algorithm : Text
algorithm = codes "argon2id"

abbrev pub argon_version : Text
argon_version = codes "v=19"

abbrev pub costs : Text
costs = codes "m=19456,t=2,p=1"

abbrev pub dollar : ℕ
dollar = b'$'

unfoldable pub encoded_hash : Text → Text → Text
encoded_hash salt key =
    dollar
    ∷ (algorithm ++ dollar ∷ (argon_version ++ dollar ∷ (costs ++ dollar ∷ (salt ++ dollar ∷ key))))

-- The salt is what crypto/rand draws.
unfoldable pub hash_password : Platform → (salt : Bytes) → Text → Result PasswordError Text
hash_password p salt password = validate_password password >>= λ _.
    ok (encoded_hash (p.encode_bytes salt) (p.encode_bytes (p.argon2_key password salt)))

-- a decoded part of the right size
unfoldable pub decoded_part : Platform → ℕ → Text → Option Bytes
decoded_part p size part = elim (p.decode_bytes part) [
  | none ↦ none
  | some b ↦ if length b == size then some b else none
]

unfoldable pub compared : Platform → Text → Option Bytes → Option Bytes → Bool
compared p password none key = false
compared p password (some salt) none = false
compared p password (some salt) (some key) = text_eq (p.argon2_key password salt) key

unfoldable pub verify_parts : Platform → Text → List Text → Bool
verify_parts p password (empty ∷ name ∷ number ∷ cost ∷ salt ∷ key ∷ []) =
    if not (text_eq name algorithm)
      || not (text_eq number argon_version)
      || not (text_eq cost costs)
    then false
    else compared p password (decoded_part p salt_size salt) (decoded_part p key_size key)
verify_parts p password parts = false

unfoldable pub is_valid_password : Text → Bool
is_valid_password password = elim (validate_password password) [ ok _ ↦ true | err _ ↦ false ]

unfoldable pub verify_password : Platform → (password encoded : Text) → Bool
verify_password p password encoded =
    if not (is_valid_password password) || ltb 256 (len encoded)
    then false
    else verify_parts p password (split dollar encoded)
