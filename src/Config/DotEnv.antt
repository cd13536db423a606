-- ===== src/Config/DotEnv.antt =====
-- loadEnvironment and parseDotEnv of internal/config/dotenv.go. A file is the list of its lines, as
-- bufio.Scanner gives them, of valid UTF-8. The bytes that the code looks for are ASCII, so their
-- indices are those of characters; where it asks unicode.IsSpace for a byte of a longer character, the
-- byte is written out. strconv.Unquote is a parameter.
use redlaunch.Base.{
  ℕ, ◌+◌, ◌%◌, Bool, true, false, not, ◌&&◌, ◌||◌, ◌==◌, leb, ltb, if◌then◌else◌, Text, codes, [],
  ◌∷◌, List, text_eq, is_space, trim_space, cut, cut_prefix, every_char, Option, none, some, Result,
  ok, err, ◌>>=◌,
}
use redlaunch.Base.Assoc.{Table, lookup, insert}

pub data Error : Type 0 where
  key_value_expected : Error
  variable_invalid : Error
  single_quote_open : Error
  double_quote_open : Error
  text_after_quote : Error
  double_quote_invalid : Error
  read_failed : Error
  open_failed : Error

abbrev pub hash : ℕ
hash = b'#'

abbrev pub quote : ℕ
quote = b'\''

abbrev pub double_quote : ℕ
double_quote = b'"'

abbrev pub backslash : ℕ
backslash = b'\\'

unfoldable pub is_dot_env_key_start : ℕ → Bool
is_dot_env_key_start c = (leb b'a' c && leb c b'z') || (leb b'A' c && leb c b'Z') || c == b'_'

unfoldable pub is_key_character : ℕ → Bool
is_key_character c = is_dot_env_key_start c || (leb b'0' c && leb c b'9')

unfoldable pub valid_dot_env_key : Text → Bool
valid_dot_env_key [] = false
valid_dot_env_key (c ∷ key) = is_dot_env_key_start c && every_char is_key_character key

-- `strings.HasPrefix(s, "#")`
unfoldable pub is_comment : Text → Bool
is_comment [] = false
is_comment (c ∷ s) = c == hash

unfoldable pub valid_dot_env_suffix : Text → Bool
valid_dot_env_suffix suffix = let rest = trim_space suffix in text_eq rest [] || is_comment rest

-- `unicode.IsSpace(rune(s[i-1]))` where the character before index i is `c`, and
-- `unicode.IsSpace(rune(s[i]))` where the one at index i is: its last and its first byte in UTF-8
unfoldable pub last_byte_is_space : ℕ → Bool
last_byte_is_space c = is_space (if ltb c 128 then c else 128 + c % 64)

unfoldable pub first_byte_is_space : ℕ → Bool
first_byte_is_space c = ltb c 128 && is_space c

-- what stands before a `#` that begins the text or follows a byte that counts as a space
unfoldable pub before_comment : Bool → Text → Text
before_comment after_space [] = []
before_comment after_space (c ∷ s) =
    let rest = before_comment (last_byte_is_space c) s in
    if c == hash && after_space then [] else c ∷ rest

unfoldable pub unquoted_dot_env_value : Text → Text
unquoted_dot_env_value raw = trim_space (before_comment true raw)

-- The text behind an opening double quote: what stands up to the closing one with it, and the rest.
unfoldable pub closing_double_quote : Bool → Text → Option (Text × Text)
closing_double_quote escaped [] = none
closing_double_quote escaped (c ∷ s) =
    let found = closing_double_quote (not escaped && c == backslash) s in
    if not escaped && c == double_quote
    then some (c ∷ [], s)
    else elim found [ none ↦ none | some (inside, rest) ↦ some (c ∷ inside, rest) ]

unfoldable pub single_quoted : Option (Text × Text) → Result Error Text
single_quoted none = err single_quote_open
single_quoted (some (inside, rest)) =
    if valid_dot_env_suffix rest then ok inside else err text_after_quote

unfoldable pub unquoted : Option Text → Result Error Text
unquoted none = err double_quote_invalid
unquoted (some value) = ok value

unfoldable pub double_quoted : (Text → Option Text) → Option (Text × Text) → Result Error Text
double_quoted unquote none = err double_quote_open
double_quoted unquote (some (inside, rest)) =
    if valid_dot_env_suffix rest
    then unquoted (unquote (double_quote ∷ inside))
    else err text_after_quote

unfoldable pub parse_dot_env_value : (Text → Option Text) → Text → Result Error Text
parse_dot_env_value unquote [] = ok []
parse_dot_env_value unquote (c ∷ raw) =
    if c == quote
    then single_quoted (cut quote raw)
    else if c == double_quote
    then double_quoted unquote (closing_double_quote false raw)
    else ok (unquoted_dot_env_value (c ∷ raw))

-- the byte order mark that may begin a line
abbrev pub mark : Text
mark = 0xFEFF ∷ []

unfoldable pub without_prefix : Text → Text → Text
without_prefix prefix s = elim (cut_prefix prefix s) [ none ↦ s | some rest ↦ rest ]

abbrev pub export : Text
export = codes "export"

unfoldable pub after_export : Text → Option Text → Text
after_export line none = line
after_export line (some []) = line
after_export line (some (c ∷ rest)) = if first_byte_is_space c then trim_space (c ∷ rest) else line

unfoldable pub without_export : Text → Text
without_export line = after_export line (cut_prefix export line)

unfoldable pub keyed_value :
    (Text → Option Text) → Option (Text × Text) → Result Error (Text × Text)
keyed_value unquote none = err key_value_expected
keyed_value unquote (some (before, after)) =
    if text_eq before []
    then err key_value_expected
    else if not (valid_dot_env_key (trim_space before))
    then err variable_invalid
    else (parse_dot_env_value unquote (trim_space after) >>= λ value. ok (trim_space before, value))

-- one round of the loop: none for a blank line or a comment
unfoldable pub parse_line : (Text → Option Text) → Text → Result Error (Option (Text × Text))
parse_line unquote text =
    let line = trim_space (without_prefix mark text) in
    if text_eq line [] || is_comment line
    then ok none
    else (keyed_value unquote (cut b'=' (without_export line)) >>= λ entry. ok (some entry))

unfoldable pub add_entry : Option (Text × Text) → Table Text → Table Text
add_entry none values = values
add_entry (some (key, value)) values = insert key value values

-- `complete` says that the scanner has read the whole file.
unfoldable pub parse_lines :
    (Text → Option Text) → (complete : Bool) → List Text → Table Text → Result Error (Table Text)
parse_lines unquote complete [] values = if complete then ok values else err read_failed
parse_lines unquote complete (line ∷ lines) values =
    parse_line unquote line >>= λ entry. parse_lines unquote complete lines (add_entry entry values)

unfoldable pub parse_dot_env :
    (Text → Option Text) → (complete : Bool) → List Text → Result Error (Table Text)
parse_dot_env unquote complete lines = parse_lines unquote complete lines []

-- the last loop of loadEnvironment
unfoldable pub merged : Table Text → Table Text → Table Text
merged [] environment = environment
merged ((key, value) ∷ values) environment =
    let rest = merged values environment in
    elim (lookup key environment) [ none ↦ insert key value rest | some v ↦ rest ]

unfoldable pub read_environment : Table Text → List Text → Table Text
read_environment environment [] = environment
read_environment environment (entry ∷ entries) = elim (cut b'=' entry) [
  | none ↦ read_environment environment entries
  | some (key, value) ↦ read_environment (insert key value environment) entries
]

-- what os.Open finds at the path
pub data Opened : Type 0 where
  lines_of : List Text → (complete : Bool) → Opened
  not_there : Opened
  broken : Opened

unfoldable pub load_file :
    (Text → Option Text) → (configured : Bool) → Table Text → Opened → Result Error (Table Text)
load_file unquote configured environment not_there =
    if configured then err open_failed else ok environment
load_file unquote configured environment broken = err open_failed
load_file unquote configured environment (lines_of lines complete) =
    parse_dot_env unquote complete lines >>= λ values. ok (merged values environment)

abbrev pub file_variable : Text
file_variable = codes "DOTENV_FILE"

abbrev pub default_file : Text
default_file = codes ".env"

unfoldable pub load_at :
    (Text → Option Text) → (Text → Opened) → Bool → Text → Table Text → Result Error (Table Text)
load_at unquote open_file configured path environment =
    if text_eq path []
    then ok environment
    else load_file unquote configured environment (open_file path)

unfoldable pub load_environment :
    (Text → Option Text) → (Text → Opened) → (entries : List Text) → Result Error (Table Text)
load_environment unquote open_file entries =
    let environment = read_environment [] entries in
    elim (lookup file_variable environment) [
      | none ↦ load_at unquote open_file false (trim_space default_file) environment
      | some path ↦ load_at unquote open_file true (trim_space path) environment
    ]
