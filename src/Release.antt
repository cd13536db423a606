-- ===== src/Release.antt =====
-- internal/application/update.go: release tags and their order.
pub mod Order
pub mod Tags
use redlaunch.Base.{
  Result, ok, err, ◌>>=◌, ℕ, zero, Bool, List, [], ◌∷◌, Option, none, some, Text, codes, ltb,
  if◌then◌else◌, trim_space, cut_prefix, split,
}
use redlaunch.Base.Number.{ℤ, pos, negsuc, parse_int, is_positive}

pub data Error : Type 0 where
  no_prefix component_count not_stable invalid : Error

-- the array `[3]int`; the numbers are not negative
pub record Version : Type 0 where
  pub major : ℕ
  pub minor : ℕ
  pub patch : ℕ

abbrev number : ℤ → Result Error ℕ
number (pos n) = ok n
number (negsuc n) = err invalid

-- one round of the loop over the parts: an empty part, a sign, and strconv.Atoi
component : Text → Result Error ℕ
component [] = err not_stable
component (c ∷ s) = elim (cut_prefix (codes "+") (c ∷ s)) [
  | some _ ↦ err not_stable
  | none ↦ elim (cut_prefix (codes "-") (c ∷ s)) [
    | some _ ↦ err not_stable
    | none ↦ elim (parse_int (c ∷ s)) [ none ↦ err invalid | some z ↦ number z ]
  ]
]

components : List Text → Result Error Version
unfolding component
components (a ∷ b ∷ c ∷ []) = do
  x ← component a
  y ← component b
  z ← component c
  ok (record { major = x; minor = y; patch = z })
components _ = err component_count

-- what follows the letter v
prefixed : Option Text → Result Error Version
unfolding components
prefixed none = err no_prefix
prefixed (some rest) = components (split b'.' rest)

-- ParseReleaseVersion
unfoldable pub parse_release_version : Text → Result Error Version
unfolding prefixed
parse_release_version value = prefixed (cut_prefix (codes "v") (trim_space value))

-- one round of the loop of CompareReleaseVersions
abbrev compare_at : ℕ → ℕ → ℤ → ℤ
compare_at left right rest =
    if ltb left right then negsuc 0 else if ltb right left then pos 1 else rest

compare_versions : Version → Version → ℤ
compare_versions left right =
    compare_at left.major right.major
      (compare_at left.minor right.minor (compare_at left.patch right.patch (pos 0)))

-- CompareReleaseVersions: -1, 0 or 1
unfoldable pub compare_release_versions : Text → Text → Result Error ℤ
unfolding compare_versions
compare_release_versions left right = do
  l ← parse_release_version left
  r ← parse_release_version right
  ok (compare_versions l r)

-- IsNewerRelease
unfoldable pub is_newer_release : Text → Text → Result Error Bool
unfolding compare_release_versions
is_newer_release current candidate = do
  comparison ← compare_release_versions candidate current
  ok (is_positive comparison)
