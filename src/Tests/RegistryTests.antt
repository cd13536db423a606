-- ===== src/Tests/RegistryTests.antt =====
-- internal/application/versions.go and registry.go on three images.
use redlaunch.Base.{
  ◌≡◌, ◌↔◌, refl, true, List, [], ◌∷◌, codes, some, has, Lacks, trim_space, text_eq, text_lt, len,
  cut, cut_prefix, split, every_char,
}
use redlaunch.Registry.Types.{Image, Version}
use redlaunch.Registry.Retention.Select.{digests}
use redlaunch.Registry.Retention.Plan.Listed.{Distinct}
use redlaunch.Registry.Versions.{
  newer_first, group_registry_versions, digest_for_tag, add_image, insert_sorted, sort_by,
}
use redlaunch.Registry.Versions.Sorted.{IsSorted, Precedes, group_registry_versions-IsSorted}
use redlaunch.Registry.Versions.Grouped.{is_listed, group_registry_versions-digests}
use redlaunch.Registry.Names.{
  parse_deployed_registry_reference, validate_registry_repository, validate_registry_tag, is_ok,
  valid_registry_repository_part,
}
use redlaunch.Registry.Names.References.{parse_deployed_registry_reference_iff, reference_of}

abbrev images : List Image
images =
    record { repository = codes "web"; tag = codes "v2"; digest = codes "b"; pushed_at = 5 }
    ∷ record { repository = codes "web"; tag = codes "v1"; digest = codes "a"; pushed_at = 9 }
    ∷ record { repository = codes "web"; tag = codes "latest"; digest = codes "b"; pushed_at = 7 }
    ∷ []

abbrev versions : List Version
versions =
    record { digest = codes "a"; tags = codes "v1" ∷ []; pushed_at = 9 }
    ∷ record { digest = codes "b"; tags = codes "latest" ∷ codes "v2" ∷ []; pushed_at = 7 }
    ∷ []

grouped : group_registry_versions images (codes "web") ≡ versions
unfolding group_registry_versions text_eq add_image sort_by insert_sorted newer_first text_lt
grouped = refl

latest : digest_for_tag versions (codes "latest") ≡ codes "b"
unfolding digest_for_tag text_eq
latest = refl

group_registry_versions-IsSorted_example :
    IsSorted Precedes (group_registry_versions images (codes "web"))
group_registry_versions-IsSorted_example = group_registry_versions-IsSorted images (codes "web")

group_registry_versions-digests_example :
    (has (codes "a") (digests (group_registry_versions images (codes "web")))
      ≡ is_listed (codes "web") (codes "a") images)
    × Distinct (digests (group_registry_versions images (codes "web")))
group_registry_versions-digests_example =
    group_registry_versions-digests images (codes "web") (codes "a")

deployed :
    parse_deployed_registry_reference (codes "localhost:5000/acme/web:v1.2")
    ≡ some (codes "acme/web", codes "v1.2")
unfolding parse_deployed_registry_reference cut_prefix trim_space cut validate_registry_repository
    validate_registry_tag split valid_registry_repository_part len every_char
deployed = refl

parse_deployed_registry_reference_iff_example :
    (parse_deployed_registry_reference (codes "localhost:5000/acme/web:v1.2")
      ≡ some (codes "acme/web", codes "v1.2"))
    ↔ ((trim_space (codes "localhost:5000/acme/web:v1.2")
          ≡ reference_of (codes "acme/web") (codes "v1.2"))
        × Lacks b':' (codes "acme/web")
        × (is_ok (validate_registry_repository (codes "acme/web")) ≡ true)
        × (is_ok (validate_registry_tag (codes "v1.2")) ≡ true))
parse_deployed_registry_reference_iff_example =
    parse_deployed_registry_reference_iff (codes "localhost:5000/acme/web:v1.2") (codes "acme/web")
      (codes "v1.2")
