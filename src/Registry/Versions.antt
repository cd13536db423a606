-- ===== src/Registry/Versions.antt =====
-- internal/application/versions.go: the versions of a repository, newest first. The map `byDigest` is a
-- list whose order the sort forgets, as no two of its versions have the same digest.

pub mod Sorted
pub mod Grouped
use redlaunch.Base.{
  ℕ, Bool, true, false, not, ◌||◌, List, [], ◌∷◌, ◌++◌, Text, text_eq, text_lt, ltb, ◌==◌,
  if◌then◌else◌, is_blank,
}
use redlaunch.Registry.Types.{Image, Version, is_zero_time}

-- what an image adds to its version
abbrev pub merged : Image → Version → Version
merged image v = record v {
  tags = if is_blank image.tag then v.tags else v.tags ++ image.tag ∷ [];
  pushed_at = if ltb v.pushed_at image.pushed_at then image.pushed_at else v.pushed_at;
}

-- `byDigest[image.Digest]`, created where it is missing, and then changed
unfoldable pub add_image : Image → List Version → List Version
add_image image [] = merged image (record { digest = image.digest; tags = []; pushed_at = 0 }) ∷ []
add_image image (v ∷ vs) =
    if text_eq v.digest image.digest then merged image v ∷ vs else v ∷ add_image image vs

abbrev pub is_skipped : Text → Image → Bool
is_skipped repository image = not (text_eq image.repository repository) || is_blank image.digest

-- the loop over the images
unfoldable pub collect : Text → List Image → List Version → List Version
collect repository [] vs = vs
collect repository (image ∷ images) vs =
    collect repository images (if is_skipped repository image then vs else add_image image vs)

-- sorting by a strict order that tells any two elements apart, which determines the result
unfoldable pub insert_sorted : {A : Type 0} → (A → A → Bool) → A → List A → List A
insert_sorted less x [] = x ∷ []
insert_sorted less x (y ∷ ys) = if less x y then x ∷ y ∷ ys else y ∷ insert_sorted less x ys

unfoldable pub sort_by : {A : Type 0} → (A → A → Bool) → List A → List A
sort_by less [] = []
sort_by less (x ∷ xs) = insert_sorted less x (sort_by less xs)

-- `!=` on two Booleans
abbrev pub differ : Bool → Bool → Bool
differ true b = not b
differ false b = b

-- the order of the versions: newest first, those without a time last, and then by digest
unfoldable pub newer_first : Version → Version → Bool
newer_first left right =
    let left_zero = is_zero_time left.pushed_at in
    let right_zero = is_zero_time right.pushed_at in
    if differ left_zero right_zero
    then right_zero
    else if not (left.pushed_at == right.pushed_at)
    then ltb right.pushed_at left.pushed_at
    else text_lt left.digest right.digest

-- sort.Strings on the tags
abbrev pub with_sorted_tags : Version → Version
with_sorted_tags v = record v { tags = sort_by text_lt v.tags }

unfoldable pub sort_tags : List Version → List Version
sort_tags [] = []
sort_tags (v ∷ vs) = with_sorted_tags v ∷ sort_tags vs

-- GroupRegistryVersions
unfoldable pub group_registry_versions : List Image → Text → List Version
unfolding collect sort_tags
group_registry_versions images repository =
    sort_by newer_first (sort_tags (collect repository images []))

-- the inner loop of DigestForTag
unfoldable pub has_tag : Text → List Text → Bool
has_tag tag [] = false
has_tag tag (t ∷ ts) = if text_eq t tag then true else has_tag tag ts

-- DigestForTag
unfoldable pub digest_for_tag : List Version → Text → Text
unfolding has_tag
digest_for_tag [] tag = []
digest_for_tag (v ∷ vs) tag = if has_tag tag v.tags then v.digest else digest_for_tag vs tag
