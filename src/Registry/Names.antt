-- ===== src/Registry/Names.antt =====
-- internal/application/registry.go: the names of repositories, tags and images.
pub mod References
use redlaunch.Base.{
  ℕ, Bool, true, false, not, ◌&&◌, ◌||◌, List, [], ◌∷◌, ◌++◌, Option, none, some, Text, codes,
  text_eq, ltb, leb, ◌==◌, if◌then◌else◌, is_blank, len, trim_space, cut_prefix, cut, split,
  every_char, Result, ok, err, ◌>>=◌, IsOk,
}
use redlaunch.Base.Number.{ℤ}
use redlaunch.Base.Assoc.{Table, lookup}
use redlaunch.Registry.Types.{Error, repository_invalid, digest_invalid}

abbrev pub is_lower_alphanumeric : ℕ → Bool
is_lower_alphanumeric c = (leb b'a' c && leb c b'z') || (leb b'0' c && leb c b'9')

abbrev pub is_separator : ℕ → Bool
is_separator c = c == b'.' || c == b'_' || c == b'-'

-- the characters of a part behind the first one; the last one ends the part
unfoldable pub valid_rest : Text → Bool
valid_rest [] = true
valid_rest (c ∷ []) = is_lower_alphanumeric c
valid_rest (c ∷ d ∷ s) = (is_lower_alphanumeric c || is_separator c) && valid_rest (d ∷ s)

-- validRegistryRepositoryPart
unfoldable pub valid_registry_repository_part : Text → Bool
unfolding valid_rest
valid_registry_repository_part [] = false
valid_registry_repository_part (c ∷ s) =
    not (ltb 128 (len (c ∷ s))) && is_lower_alphanumeric c && valid_rest s

unfoldable pub valid_parts : List Text → Bool
valid_parts [] = true
valid_parts (part ∷ parts) =
    if valid_registry_repository_part part then valid_parts parts else false

-- ValidateRegistryRepository
unfoldable pub validate_registry_repository : Text → Result Error Text
unfolding valid_parts
validate_registry_repository value =
    let repository = trim_space value in
    if is_blank repository || ltb 255 (len repository)
    then err repository_invalid
    else if valid_parts (split b'/' repository)
    then ok repository
    else err repository_invalid

abbrev pub is_word : ℕ → Bool
is_word c =
    (leb b'a' c && leb c b'z')
    || (leb b'A' c && leb c b'Z')
    || (leb b'0' c && leb c b'9')
    || c == b'_'

-- the loop over the characters of a tag
unfoldable pub valid_tag : Text → Bool
valid_tag [] = true
valid_tag (c ∷ s) = is_word c && every_char (λ d. is_word d || d == b'.' || d == b'-') s

-- ValidateRegistryTag
unfoldable pub validate_registry_tag : Text → Result Error Text
unfolding valid_tag
validate_registry_tag value =
    let tag = trim_space value in
    if is_blank tag || ltb 128 (len tag)
    then err repository_invalid
    else if valid_tag tag
    then ok tag
    else err repository_invalid

abbrev pub is_lower_hex : ℕ → Bool
is_lower_hex c = (leb b'0' c && leb c b'9') || (leb b'a' c && leb c b'f')

abbrev pub checked_digest : Text → Option (Text × Text) → Result Error Text
checked_digest digest none = err digest_invalid
checked_digest digest (some (algorithm, encoded)) =
    if not (text_eq algorithm (codes "sha256")) || not (len encoded == 64)
    then err digest_invalid
    else if every_char is_lower_hex encoded
    then ok digest
    else err digest_invalid

-- ValidateRegistryDigest
unfoldable pub validate_registry_digest : Text → Result Error Text
validate_registry_digest value =
    let digest = trim_space value in checked_digest digest (cut b':' digest)

abbrev pub local_registry_address : Text
local_registry_address = codes "localhost:5000"

abbrev pub is_ok : Result Error Text → Bool
is_ok (err e) = false
is_ok (ok a) = true

unfoldable pub checked_reference : Option (Text × Text) → Option (Text × Text)
checked_reference none = none
checked_reference (some (repository, tag)) =
    if not (is_ok (validate_registry_repository repository))
    then none
    else if not (is_ok (validate_registry_tag tag))
    then none
    else some (repository, tag)

unfoldable pub read_reference : Option Text → Option (Text × Text)
read_reference none = none
read_reference (some reference) = checked_reference (cut b':' reference)

-- ParseDeployedRegistryReference
unfoldable pub parse_deployed_registry_reference : Text → Option (Text × Text)
unfolding checked_reference read_reference
parse_deployed_registry_reference image_name =
    read_reference (cut_prefix (local_registry_address ++ codes "/") (trim_space image_name))

abbrev pub or_default : ℤ → Option ℤ → ℤ
or_default default_keep none = default_keep
or_default default_keep (some keep) = keep

-- EffectiveRegistryKeep; a nil map has no entries
unfoldable pub effective_registry_keep : ℤ → Table ℤ → Text → ℤ
effective_registry_keep default_keep policies repository =
    or_default default_keep (lookup repository policies)
