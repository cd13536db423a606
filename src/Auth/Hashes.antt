-- ===== src/Auth/Hashes.antt =====
-- A password that is hashed is verified, and no password whose key differs.
use redlaunch.Base.{
  ok_injective, ℕ, ◌+◌, ◌*◌, ◌≤◌, ◌≡◌, refl, subst, arith, false, ◌&&◌, ltb, Text, [], ◌∷◌, length,
  text_eq, len, rune_len, split, split-append, split-Lacks, Lacks, some, ok, >>=-eq-ok,
}
use redlaunch.Base.Trimming.{len-append}
use redlaunch.Auth.Platform.{Platform, Bytes}
use redlaunch.Auth.Passwords.{
  salt_size, key_size, validate_password, algorithm, argon_version, costs, dollar, encoded_hash,
  hash_password, decoded_part, compared, verify_parts, is_valid_password, verify_password,
}

-- What base64.RawStdEncoding does: it is decoded again, has no dollar sign, and is at most four times
-- as long.
pub record IsBase64 (p : Platform) : Type 0 where
  pub decodes : (b : Bytes) → p.decode_bytes (p.encode_bytes b) ≡ some b
  pub no_dollar : (b : Bytes) → Lacks dollar (p.encode_bytes b)
  pub short : (b : Bytes) → len (p.encode_bytes b) ≤ 4 * length b

encoded_hash-parts :
    (salt key : Text)
    → Lacks dollar salt
    → Lacks dollar key
    → split dollar (encoded_hash salt key)
      ≡ [] ∷ algorithm ∷ argon_version ∷ costs ∷ salt ∷ key ∷ []
unfolding encoded_hash split
encoded_hash-parts salt key ls lk =
    rw (split-append dollar salt key ls, split-Lacks dollar key lk) refl

encoded_hash-len : (salt key : Text) → len (encoded_hash salt key) ≡ 32 + (len salt + len key)
unfolding encoded_hash len rune_len
encoded_hash-len salt key = ground (arith, len-append salt (dollar ∷ key))

module _ (p : Platform) (laws : IsBase64 p) (salt : Bytes) (sized : length salt ≡ salt_size)
    (keys : (password : Text) → length (p.argon2_key password salt) ≡ key_size) where
  decoded_part-encode :
      (size : ℕ) (b : Bytes) → length b ≡ size → decoded_part p size (p.encode_bytes b) ≡ some b
  unfolding decoded_part
  decoded_part-encode size b h = rw (decoded_part, laws.decodes b) (ground arith)

  hash_text : Text → Text
  hash_text password =
      encoded_hash (p.encode_bytes salt) (p.encode_bytes (p.argon2_key password salt))

  hash_text-short : (password : Text) → ltb 256 (len (hash_text password)) ≡ false
  unfolding hash_text
  hash_text-short password = ground (
    arith,
    encoded_hash-len (p.encode_bytes salt) (p.encode_bytes (p.argon2_key password salt)),
    laws.short salt,
    laws.short (p.argon2_key password salt),
    keys password,
    sized,
  )

  verify_parts-hash :
      (password other : Text)
      → verify_parts p other (split dollar (hash_text password))
        ≡ text_eq (p.argon2_key other salt) (p.argon2_key password salt)
  unfolding hash_text verify_parts compared text_eq
  verify_parts-hash password other =
      rw
        (
          encoded_hash-parts (p.encode_bytes salt) (p.encode_bytes (p.argon2_key password salt))
              (laws.no_dollar salt) (laws.no_dollar (p.argon2_key password salt)),
          decoded_part-encode salt_size salt sized,
          decoded_part-encode key_size (p.argon2_key password salt) (keys password),
        )
        refl

  -- A password is verified against the hash of a password, made with a salt of 16 bytes, exactly when
  -- it is a valid password and argon2 gives it the same key with that salt. The keys have 32 bytes, and
  -- base64 decodes what it encodes.
  pub verify_password-hash_password :
      (password other encoded : Text)
      → hash_password p salt password ≡ ok encoded
      → verify_password p other encoded ≡ (
          is_valid_password other && text_eq (p.argon2_key other salt) (p.argon2_key password salt))
  unfolding hash_password verify_password hash_text
  verify_password-hash_password password other encoded h =
      let (u, valid, same) = >>=-eq-ok (validate_password password) _ h in
      subst
        (λ e. verify_password p other e ≡ (
          is_valid_password other
          && text_eq (p.argon2_key other salt) (p.argon2_key password salt)))
        (ok_injective same)
        (rw (hash_text-short password, verify_parts-hash password other) (ground arith))
