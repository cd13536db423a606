-- ===== src/Auth/Platform.antt =====
-- What package auth takes from crypto/hmac, golang.org/x/crypto/argon2, encoding/base64, net/mail and
-- package strings, as a parameter throughout.
use redlaunch.Base.{ℕ, Text, List, Option}

-- Bytes are numbers below 256, and a text stands for its bytes in UTF-8 where one is asked for.
abbrev pub Bytes : Type 0
Bytes = List ℕ

pub record Platform : Type 0 where
  -- argon2.IDKey with the costs of password.go: password and salt
  pub argon2_key : Text → Bytes → Bytes
  -- base64.RawStdEncoding at bytes
  pub encode_bytes : Bytes → Text
  pub decode_bytes : Text → Option Bytes
  -- base64.RawURLEncoding at texts
  pub encode_text : Text → Text
  pub decode_text : Text → Option Text
  -- base64.RawURLEncoding at bytes
  pub encode_signature : Bytes → Text
  pub decode_signature : Text → Option Bytes
  -- hmac with sha256: value and secret
  pub hmac : Text → Text → Bytes
  -- mail.ParseAddress: address and name
  pub parse_address : Text → Option (Text × Text)
  -- strings.ToLower, and the first character of strings.ToUpper at one character
  pub to_lower : Text → Text
  pub to_upper : ℕ → ℕ
