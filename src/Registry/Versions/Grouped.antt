-- ===== src/Registry/Versions/Grouped.antt =====
-- The digests of the versions (internal/application/versions.go).
use redlaunch.Base.{
  Bool, false, List, [], ◌∷◌, Text, text_eq, text_eq_iff, ◌≡◌, refl, arith, not, ◌&&◌, ◌||◌, has,
  ◌∙◌,
}
use redlaunch.Registry.Types.{Image, Version}
use redlaunch.Registry.Retention.Select.{digests}
use redlaunch.Registry.Retention.Plan.Listed.{Distinct}
use redlaunch.Registry.Versions.{
  add_image, is_skipped, collect, insert_sorted, sort_by, newer_first, sort_tags,
  group_registry_versions,
}

-- an image of the repository has the digest
unfoldable pub is_listed : Text → Text → List Image → Bool
is_listed repository d [] = false
is_listed repository d (image ∷ images) =
    not (is_skipped repository image) && text_eq image.digest d || is_listed repository d images

has-add_image :
    (d : Text) (image : Image) (vs : List Version)
    → has d (digests (add_image image vs)) ≡ (text_eq image.digest d || has d (digests vs))
unfolding add_image has
has-add_image d image [] = refl
has-add_image d image (v ∷ vs) =
    ground (arith, has-add_image d image vs, text_eq_iff v.digest image.digest)

has-collect :
    (repository d : Text) (images : List Image) (vs : List Version)
    → has d (digests (collect repository images vs))
      ≡ (is_listed repository d images || has d (digests vs))
unfolding collect is_listed
has-collect repository d [] vs = refl
has-collect repository d (image ∷ images) vs = ground (
  arith,
  has-collect repository d images vs,
  has-collect repository d images (add_image image vs),
  has-add_image d image vs,
)

digests-sort_tags : (vs : List Version) → digests (sort_tags vs) ≡ digests vs
unfolding sort_tags
digests-sort_tags [] = refl
digests-sort_tags (v ∷ vs) = ground (arith, digests-sort_tags vs)

has-insert_sorted :
    (d : Text) (v : Version) (vs : List Version)
    → has d (digests (insert_sorted newer_first v vs)) ≡ (text_eq v.digest d || has d (digests vs))
unfolding insert_sorted has
has-insert_sorted d v [] = refl
has-insert_sorted d v (w ∷ vs) = ground (arith, has-insert_sorted d v vs)

has-sort_by :
    (d : Text) (vs : List Version) → has d (digests (sort_by newer_first vs)) ≡ has d (digests vs)
unfolding sort_by has
has-sort_by d [] = refl
has-sort_by d (v ∷ vs) =
    ground (arith, has-insert_sorted d v (sort_by newer_first vs), has-sort_by d vs)

add_image-Distinct :
    (image : Image) (vs : List Version)
    → Distinct (digests vs)
    → Distinct (digests (add_image image vs))
unfolding add_image has
add_image-Distinct image [] u = (refl, tt)
add_image-Distinct image (v ∷ vs) (n, u) = ground (
  arith,
  add_image-Distinct image vs u,
  has-add_image v.digest image vs,
  text_eq_iff v.digest image.digest,
  text_eq_iff image.digest v.digest,
)

collect-Distinct :
    (repository : Text) (images : List Image) (vs : List Version)
    → Distinct (digests vs)
    → Distinct (digests (collect repository images vs))
unfolding collect
collect-Distinct repository [] vs u = u
collect-Distinct repository (image ∷ images) vs u = ground (
  arith,
  collect-Distinct repository images vs u,
  collect-Distinct repository images (add_image image vs) (add_image-Distinct image vs u),
)

insert_sorted-Distinct :
    (v : Version) (vs : List Version)
    → has v.digest (digests vs) ≡ false
    → Distinct (digests vs)
    → Distinct (digests (insert_sorted newer_first v vs))
unfolding insert_sorted has
insert_sorted-Distinct v [] n u = (refl, tt)
insert_sorted-Distinct v (w ∷ vs) n (m, u) = ground (
  arith,
  insert_sorted-Distinct v vs,
  has-insert_sorted w.digest v vs,
  text_eq_iff v.digest w.digest,
  text_eq_iff w.digest v.digest,
)

sort_by-Distinct :
    (vs : List Version) → Distinct (digests vs) → Distinct (digests (sort_by newer_first vs))
unfolding sort_by
sort_by-Distinct [] u = tt
sort_by-Distinct (v ∷ vs) (n, u) =
    insert_sorted-Distinct v (sort_by newer_first vs) (has-sort_by v.digest vs ∙ n)
      (sort_by-Distinct vs u)

-- The versions of a repository have exactly the digests of its images, and each digest once.
pub group_registry_versions-digests :
    (images : List Image) (repository d : Text)
    → (has d (digests (group_registry_versions images repository)) ≡ is_listed repository d images)
      × Distinct (digests (group_registry_versions images repository))
unfolding group_registry_versions has
group_registry_versions-digests images repository d =
    let found = collect repository images [] in
    let same = digests-sort_tags found in
    (
      ground (arith, has-sort_by d (sort_tags found), same, has-collect repository d images []),
      sort_by-Distinct (sort_tags found) (rw same (collect-Distinct repository images [] tt)),
    )
