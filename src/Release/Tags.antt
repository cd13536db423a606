-- ===== src/Release/Tags.antt =====
-- Which texts are release tags, and which numbers they stand for.
use redlaunch.Base.{
  ok, ℕ, ◌≤◌, ◌≡◌, refl, ◌≢◌, false, List, [], ◌∷◌, ◌++◌, none, some, Option, cut_prefix-append,
  Text, codes, arith, trim_space, trim_space-NoSpace, NoSpace, is_space, split, split-append,
  split-Lacks, Lacks, All, All-append, All-map, cut_prefix,
}
use redlaunch.Base.Number.{
  pos, max_int64, format_nat, format_nat-IsDigit, format_nat-ne-nil, IsDigit, parse_int,
  parse_int-format_nat, parse_int-le,
}
use redlaunch.Release.{Version, component, components, parse_release_version, prefixed}

-- vMAJOR.MINOR.PATCH in decimal
pub tag : Version → Text
tag v = b'v' ∷ (format_nat v.major ++ b'.' ∷ (format_nat v.minor ++ b'.' ∷ format_nat v.patch))

abbrev pub IsInt64 : Version → Type 0
IsInt64 v = (v.major ≤ max_int64) × (v.minor ≤ max_int64) × (v.patch ≤ max_int64)

digit_space : (c : ℕ) → IsDigit c → is_space c ≡ false
unfolding is_space
digit_space c h = ground arith

digit_dot : (c : ℕ) → IsDigit c → c ≢ b'.'
digit_dot c h e = omega arith

component-digits :
    (s : Text) (n : ℕ) → All IsDigit s → s ≢ [] → parse_int s ≡ some (pos n) → component s ≡ ok n
unfolding component cut_prefix
component-digits [] n h d e = absurd (d refl)
component-digits (c ∷ s) n h d e = ground arith

format_nat-component : (n : ℕ) → n ≤ max_int64 → component (format_nat n) ≡ ok n
format_nat-component n b =
    component-digits (format_nat n) n (format_nat-IsDigit n) (format_nat-ne-nil n)
      (parse_int-format_nat n b)

no_dots : (n : ℕ) → Lacks b'.' (format_nat n)
no_dots n = All-map digit_dot (format_nat n) (format_nat-IsDigit n)

no_spaces : (n : ℕ) → NoSpace (format_nat n)
no_spaces n = All-map digit_space (format_nat n) (format_nat-IsDigit n)

tag-NoSpace : (v : Version) → NoSpace (tag v)
unfolding tag is_space
tag-NoSpace v = (
  refl,
  All-append _ _ _ (no_spaces v.major)
      (refl, All-append _ _ _ (no_spaces v.minor) (refl, no_spaces v.patch)),
)

-- The tag that a version number is written as is read back as that version number.
pub parse_release_version-tag : (v : Version) → IsInt64 v → parse_release_version (tag v) ≡ ok v
unfolding parse_release_version
parse_release_version-tag v (a, b, c) = rw (trim_space-NoSpace (tag v) (tag-NoSpace v)) (
    unfold tag in
    rw (
      cut_prefix-append (codes "v") _,
      split-append b'.' (format_nat v.major) _ (no_dots v.major),
      split-append b'.' (format_nat v.minor) _ (no_dots v.minor),
      split-Lacks b'.' (format_nat v.patch) (no_dots v.patch),
      format_nat-component v.major a,
      format_nat-component v.minor b,
      format_nat-component v.patch c,
    ))

component-le : (s : Text) (n : ℕ) → component s ≡ ok n → n ≤ max_int64
unfolding component cut_prefix
component-le [] n h = cc
component-le (c ∷ s) n h = ground (arith, parse_int-le (c ∷ s) n)

components-IsInt64 : (ps : List Text) (v : Version) → components ps ≡ ok v → IsInt64 v
unfolding components
components-IsInt64 (a ∷ b ∷ c ∷ []) v h =
    ground (arith, component-le a v.major, component-le b v.minor, component-le c v.patch)
components-IsInt64 [] v h = cc
components-IsInt64 _ v h = cc

prefixed-IsInt64 : (o : Option Text) (v : Version) → prefixed o ≡ ok v → IsInt64 v
unfolding prefixed
prefixed-IsInt64 none v h = cc
prefixed-IsInt64 (some rest) v h = components-IsInt64 (split b'.' rest) v h

-- The numbers of an accepted tag are those of an int: none wrapped around.
pub parse_release_version-IsInt64 :
    (s : Text) (v : Version) → parse_release_version s ≡ ok v → IsInt64 v
unfolding parse_release_version
parse_release_version-IsInt64 s v h = prefixed-IsInt64 (cut_prefix (codes "v") (trim_space s)) v h
