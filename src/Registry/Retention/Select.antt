-- ===== src/Registry/Retention/Select.antt =====
-- SelectRegistryVersions: which versions the policy keeps.
pub mod Quota
use redlaunch.Base.{
  ℕ, zero, suc, ◌+◌, ◌<◌, ◌≤◌, ◌≡◌, refl, Bool, true, false, ◌||◌, ◌&&◌, not, List, [], ◌∷◌, ◌++◌,
  map, Text, text_eq, text_eq_iff, ltb, ◌==◌, if◌then◌else◌, Result, ok, err, ◌>>=◌, has,
  has-cons_self, has-cons, arith, Bool-cases, inl, inr,
}
use redlaunch.Base.Number.{ℤ, pos, negsuc}
use redlaunch.Registry.Types.{
  Error, Version, is_zero_time, validate_registry_keep_count, registry_image_key,
}

-- the loop over the tags of registryVersionProtected
any_tag_protected : (Text → Bool) → Text → List Text → Bool
any_tag_protected protected repository [] = false
any_tag_protected protected repository (tag ∷ tags) =
    if protected (registry_image_key repository tag)
    then true
    else any_tag_protected protected repository tags

-- registryVersionProtected
unfoldable pub registry_version_protected : (Text → Bool) → Text → Version → Bool
unfolding any_tag_protected
registry_version_protected protected repository version =
    if protected (registry_image_key repository version.digest)
    then true
    else any_tag_protected protected repository version.tags

-- `count < keep`
abbrev below : ℕ → ℤ → Bool
below count (pos n) = ltb count n
below count (negsuc n) = false

abbrev is_unlimited : ℤ → Bool
is_unlimited (pos n) = n == 0
is_unlimited (negsuc n) = false

abbrev pub digests : List Version → List Text
digests [] = []
digests (v ∷ vs) = v.digest ∷ digests vs

-- kept whatever the quota says
abbrev pub is_free : Text → (Text → Bool) → Version → Bool
is_free repository protected version =
    is_zero_time version.pushed_at || registry_version_protected protected repository version

pub digests-listed :
    (newer older : List Version) (v : Version) → has v.digest (digests (newer ++ v ∷ older)) ≡ true
digests-listed [] older v = has-cons_self v.digest (digests older)
digests-listed (w ∷ newer) older v =
    has-cons v.digest w.digest (digests (newer ++ v ∷ older)) (digests-listed newer older v)

module _ (repository : Text) (keep : ℤ) (protected : Text → Bool) (excluded : List Text) where
  -- the loop over the versions, newest first; `count` is the quota used
  select_loop : List Version → ℕ → List Text → List Text
  select_loop [] count keep_set = keep_set
  select_loop (version ∷ versions) count keep_set =
      let skip = select_loop versions count keep_set in
      let free = select_loop versions count (version.digest ∷ keep_set) in
      let counted = select_loop versions (count + 1) (version.digest ∷ keep_set) in
      if has version.digest excluded
      then skip
      else if is_free repository protected version
      then free
      else if below count keep
      then counted
      else skip

-- SelectRegistryVersions
unfoldable pub select_registry_versions :
    List Version → Text → ℤ → (Text → Bool) → List Text → Result Error (List Text)
unfolding select_loop
select_registry_versions versions repository keep protected excluded = do
  _ ← validate_registry_keep_count keep
  ok (
      if is_unlimited keep
      then digests versions
      else select_loop repository keep protected excluded versions 0 [])
