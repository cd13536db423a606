-- ===== src/Registry/Types.antt =====
-- The types of registry.go and versions.go, and the errors.
use redlaunch.Base.{ℕ, Bool, List, ◌∷◌, ◌++◌, Text, ltb, ◌==◌, if◌then◌else◌, Result, ok, err}
use redlaunch.Base.Number.{ℤ, pos, negsuc}

pub data Error : Type 0 where
  keep_invalid repository_invalid digest_invalid graph_incomplete graph_cycle out_of_fuel : Error

-- a time.Time as the nanoseconds since the zero time
abbrev pub Time : Type 0
Time = ℕ

abbrev pub is_zero_time : Time → Bool
is_zero_time t = t == 0

-- RegistryImage
pub record Image : Type 0 where
  pub repository : Text
  pub tag : Text
  pub digest : Text
  pub pushed_at : Time

-- RegistryVersion
pub record Version : Type 0 where
  pub digest : Text
  pub tags : List Text
  pub pushed_at : Time

abbrev pub max_registry_keep_count : ℕ
max_registry_keep_count = 100

abbrev keep_count : ℤ → Result Error ℤ
keep_count (pos n) = if ltb max_registry_keep_count n then err keep_invalid else ok (pos n)
keep_count (negsuc n) = err keep_invalid

-- ValidateRegistryKeepCount
unfoldable pub validate_registry_keep_count : ℤ → Result Error ℤ
validate_registry_keep_count value = keep_count value

-- RegistryImageKey: the repository and the tag with a NUL between them
unfoldable pub registry_image_key : Text → Text → Text
registry_image_key repository tag = repository ++ 0 ∷ tag
