-- ===== src/Tests/ConfigTests.antt =====
-- internal/config/dotenv.go on single lines and a small file.
use redlaunch.Base.{
  ◌≡◌, refl, arith, true, Text, [], ◌∷◌, List, codes, text_eq, trim_space, is_space, cut,
  cut_prefix, every_char, Option, none, some, ok,
}
use redlaunch.Base.Assoc.{Table, lookup, insert, erase}
use redlaunch.Config.DotEnv.{
  valid_dot_env_key, is_dot_env_key_start, is_key_character, parse_line, unquoted_dot_env_value,
  before_comment, last_byte_is_space, first_byte_is_space, read_environment, load_environment,
  Opened, lines_of, load_at, load_file, parse_dot_env, parse_lines, add_entry, merged, keyed_value,
  parse_dot_env_value, without_prefix, without_export, after_export, is_comment, single_quoted,
  valid_dot_env_suffix,
}
use redlaunch.Config.Quoting.{line_of, parse_line-line_of}
use redlaunch.Config.Precedence.{Extends, load_environment-Extends}

no_unquote : Text → Option Text
no_unquote t = none

-- A hash begins a comment behind a space, and also behind a letter whose last byte in UTF-8 is 0xA0.
comment_after_space : unquoted_dot_env_value (codes "a #b") ≡ codes "a"
unfolding unquoted_dot_env_value before_comment last_byte_is_space trim_space is_space
comment_after_space = refl

no_comment : unquoted_dot_env_value (codes "a#b") ≡ codes "a#b"
unfolding unquoted_dot_env_value before_comment last_byte_is_space trim_space is_space
no_comment = refl

comment_after_letter : unquoted_dot_env_value (codes "voilà#1") ≡ codes "voilà"
unfolding unquoted_dot_env_value before_comment last_byte_is_space trim_space is_space
comment_after_letter = refl

parse_line-line_of_example :
    parse_line no_unquote (line_of (codes "NAME") (codes "a #b"))
    ≡ ok (some (codes "NAME", codes "a #b"))
unfolding valid_dot_env_key is_dot_env_key_start is_key_character every_char
parse_line-line_of_example =
    parse_line-line_of no_unquote (codes "NAME") (codes "a #b") refl (ground arith)

abbrev entries : List Text
entries = codes "HOME=/root" ∷ codes "NAME=" ∷ []

abbrev file : Text → Opened
file path = lines_of (codes "NAME='ann'" ∷ codes "# port" ∷ codes "export PORT='80'" ∷ []) true

abbrev loaded : Table Text
loaded = (codes "PORT", codes "80") ∷ (codes "NAME", []) ∷ (codes "HOME", codes "/root") ∷ []

file-loaded : load_environment no_unquote file entries ≡ ok loaded
unfolding load_environment load_at load_file parse_dot_env parse_lines lookup read_environment cut
    insert text_eq trim_space parse_line without_prefix cut_prefix is_comment keyed_value
    without_export after_export valid_dot_env_key is_dot_env_key_start every_char is_key_character
    erase is_space add_entry merged parse_dot_env_value single_quoted valid_dot_env_suffix
    first_byte_is_space no_unquote
file-loaded = refl

load_environment-Extends_example : Extends (read_environment [] entries) loaded
load_environment-Extends_example =
    load_environment-Extends no_unquote file entries loaded file-loaded
