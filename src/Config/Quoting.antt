-- ===== src/Config/Quoting.antt =====
-- A quoted value is read back from its line.
use redlaunch.Base.{
  ℕ, ◌≡◌, ◌≢◌, refl, subst, arith, true, false, ◌==◌, Text, [], ◌∷◌, ◌++◌, append_assoc, text_eq,
  is_space, trim_space, trim_space-NoSpace, Lacks, cut, cut_prefix, every_char, any_char, All,
  All-map, Option, some, ok,
}
use redlaunch.Base.Trimming.{Solid, trim_space-Solid, cut-append}
use mathlib.Core.List.{reverse, reverse-append}
use redlaunch.Config.DotEnv.{
  quote, hash, is_dot_env_key_start, is_key_character, valid_dot_env_key, is_comment,
  valid_dot_env_suffix, single_quoted, parse_dot_env_value, mark, without_prefix, export,
  after_export, first_byte_is_space, without_export, keyed_value, parse_line,
}

equals : ℕ
equals = b'='

abbrev IsKeyCharacter : ℕ → Type 0
IsKeyCharacter c = is_key_character c ≡ true

key_start-key_character : (c : ℕ) → is_dot_env_key_start c ≡ true → is_key_character c ≡ true
unfolding is_key_character
key_start-key_character c h = ground arith

every_char-All : (s : Text) → every_char is_key_character s ≡ true → All IsKeyCharacter s
unfolding every_char
every_char-All [] h = tt
every_char-All (c ∷ s) h = (ground arith, every_char-All s (ground arith))

valid_dot_env_key-All : (key : Text) → valid_dot_env_key key ≡ true → All IsKeyCharacter key
unfolding valid_dot_env_key
valid_dot_env_key-All [] h = cc
valid_dot_env_key-All (c ∷ key) h =
    (key_start-key_character c (ground arith), every_char-All key (ground arith))

module _ (c : ℕ) (h : IsKeyCharacter c) where
  key_character-is_space : is_space c ≡ false
  unfolding is_key_character is_dot_env_key_start is_space
  key_character-is_space = ground arith

  key_character-equals : c ≢ b'='
  unfolding is_key_character is_dot_env_key_start
  key_character-equals e = ground arith

  key_character-mark : c ≢ 0xFEFF
  unfolding is_key_character is_dot_env_key_start
  key_character-mark e = ground arith

  key_character-hash : c ≢ hash
  unfolding is_key_character is_dot_env_key_start
  key_character-hash e = ground arith

-- What is left of a key and an equals sign behind `export` does not begin with a space.
export_kept :
    (prefix line key tail : Text)
    → All IsKeyCharacter key
    → Lacks b'=' prefix
    → after_export line (cut_prefix prefix (key ++ b'=' ∷ tail)) ≡ line
unfolding cut_prefix after_export first_byte_is_space is_space
export_kept [] line [] tail h n = refl
export_kept [] line (c ∷ key) tail h n = ground (arith, key_character-is_space c h.0)
export_kept (d ∷ prefix) line [] tail h n = ground (arith, n.0)
export_kept (d ∷ prefix) line (c ∷ key) tail h n =
    ground (arith, export_kept prefix line key tail h.1 n.1)

test-Lacks : (b : ℕ) (t : Text) → any_char (λ c. c == b) t ≡ false → Lacks b t
unfolding any_char
test-Lacks b [] h = tt
test-Lacks b (c ∷ t) h = (λ e. ground arith, test-Lacks b t (ground arith))

export-Lacks : Lacks b'=' export
unfolding any_char
export-Lacks = test-Lacks b'=' export refl

-- `KEY='value'`
abbrev pub line_of : Text → Text → Text
line_of key value = key ++ b'=' ∷ (quote ∷ (value ++ quote ∷ []))

quote_space : is_space quote ≡ false
unfolding is_space
quote_space = refl

last-Solid : (s : Text) (c : ℕ) → is_space c ≡ false → Solid (reverse (s ++ c ∷ []))
last-Solid s c h = rw reverse-append h

module _ (value : Text) where
  quoted-trimmed : trim_space (quote ∷ (value ++ quote ∷ [])) ≡ quote ∷ (value ++ quote ∷ [])
  quoted-trimmed =
      trim_space-Solid (quote ∷ (value ++ quote ∷ [])) quote_space
        (last-Solid (quote ∷ value) quote quote_space)

  parse-quoted :
      (unquote : Text → Option Text)
      → Lacks quote value
      → parse_dot_env_value unquote (quote ∷ (value ++ quote ∷ [])) ≡ ok value
  unfolding parse_dot_env_value single_quoted valid_dot_env_suffix trim_space text_eq
  parse-quoted unquote h = rw (cut-append quote value [] h) refl

module _ (c : ℕ) (key value : Text) (valid : valid_dot_env_key (c ∷ key) ≡ true) where
  characters : All IsKeyCharacter (c ∷ key)
  characters = valid_dot_env_key-All (c ∷ key) valid

  line_of-trimmed : trim_space (line_of (c ∷ key) value) ≡ line_of (c ∷ key) value
  line_of-trimmed =
      trim_space-Solid (line_of (c ∷ key) value) (key_character-is_space c characters.0) (
        subst (λ t. Solid (reverse t)) (append_assoc (c ∷ key) (b'=' ∷ quote ∷ value) (quote ∷ []))
          (last-Solid ((c ∷ key) ++ b'=' ∷ quote ∷ value) quote quote_space))

  no_mark : without_prefix mark (line_of (c ∷ key) value) ≡ line_of (c ∷ key) value
  unfolding without_prefix cut_prefix
  no_mark = ground (arith, key_character-mark c characters.0)

  key-trimmed : trim_space (c ∷ key) ≡ c ∷ key
  key-trimmed =
      trim_space-NoSpace (c ∷ key)
        (All-map {Q = λ d. is_space d ≡ false} key_character-is_space (c ∷ key) characters)

  split_at_equals :
      cut b'=' (line_of (c ∷ key) value) ≡ some (c ∷ key, quote ∷ (value ++ quote ∷ []))
  split_at_equals =
      cut-append b'=' (c ∷ key) (quote ∷ (value ++ quote ∷ []))
        (All-map {Q = λ d. d ≢ b'='} key_character-equals (c ∷ key) characters)

  export_kept-line : without_export (line_of (c ∷ key) value) ≡ line_of (c ∷ key) value
  unfolding without_export
  export_kept-line =
      export_kept export (line_of (c ∷ key) value) (c ∷ key) (quote ∷ (value ++ quote ∷ []))
        characters export-Lacks

  keyed_value-line :
      (unquote : Text → Option Text)
      → Lacks quote value
      → keyed_value unquote (cut b'=' (line_of (c ∷ key) value)) ≡ ok (c ∷ key, value)
  unfolding keyed_value text_eq
  keyed_value-line unquote h =
      rw (split_at_equals, key-trimmed, valid, quoted-trimmed value, parse-quoted value unquote h)
        refl

  parse_line-quoted :
      (unquote : Text → Option Text)
      → Lacks quote value
      → parse_line unquote (line_of (c ∷ key) value) ≡ ok (some (c ∷ key, value))
  unfolding parse_line is_comment text_eq
  parse_line-quoted unquote h =
      rw (no_mark, line_of-trimmed, no_hash, export_kept-line, keyed_value-line unquote h) refl
    where
      no_hash : (c == hash) ≡ false
      no_hash = ground (arith, key_character-hash c characters.0)

-- A line `KEY='value'` with a valid key and a value without single quotes is read as that key and that
-- value, whatever spaces, hashes and other characters the value has.
pub parse_line-line_of :
    (unquote : Text → Option Text) (key value : Text)
    → valid_dot_env_key key ≡ true
    → Lacks quote value
    → parse_line unquote (line_of key value) ≡ ok (some (key, value))
unfolding valid_dot_env_key
parse_line-line_of unquote [] value v h = cc
parse_line-line_of unquote (c ∷ key) value v h = parse_line-quoted c key value v unquote h
