-- ===== src/Tests/ReleaseTests.antt =====
-- internal/application/update.go on concrete tags.
use redlaunch.Base.{
  ◌≡◌, refl, ◌↔◌, true, Text, codes, ok, err, arith, trim_space, cut_prefix, split,
}
use redlaunch.Base.Number.{negsuc, parse_int}
use redlaunch.Release.{
  Version, parse_release_version, compare_release_versions, is_newer_release, not_stable,
  component_count, no_prefix, invalid,
}
use redlaunch.Release.Order.{is_newer_release_iff, Tags, Older}
use redlaunch.Release.Tags.{tag, parse_release_version-tag}

abbrev v1 : Text
v1 = codes "v1.2.9"

abbrev v2 : Text
v2 = codes " v1.10.0 "

abbrev v3 : Text
v3 = codes "v2.0.0"

abbrev one_two_nine : Version
one_two_nine = record { major = 1; minor = 2; patch = 9 }

parse_v1 : parse_release_version v1 ≡ ok one_two_nine
unfolding parse_release_version cut_prefix trim_space split parse_int
parse_v1 = refl

parse_errors :
    (parse_release_version (codes "1.2.3") ≡ err no_prefix)
    × (parse_release_version (codes "v1.2") ≡ err component_count)
    × (parse_release_version (codes "v1.+2.3") ≡ err not_stable)
    × (parse_release_version (codes "v1.2.x") ≡ err invalid)
    × (parse_release_version (codes "v1.2.9223372036854775808") ≡ err invalid)
unfolding parse_release_version cut_prefix trim_space split parse_int
parse_errors = (refl, refl, refl, refl, refl)

newer_v2 : is_newer_release v1 v2 ≡ ok true
unfolding is_newer_release parse_release_version cut_prefix trim_space split parse_int
newer_v2 = refl

newer_v3 : is_newer_release v2 v3 ≡ ok true
unfolding is_newer_release parse_release_version cut_prefix trim_space split parse_int
newer_v3 = refl

is_newer_release_iff_example :
    (is_newer_release v1 v2 ≡ ok true)
    ↔ ((u : Version) × (v : Version) × Tags v1 u × Tags v2 v × Older u v)
is_newer_release_iff_example = is_newer_release_iff v1 v2

compare_v1-v2 : compare_release_versions v1 v2 ≡ ok (negsuc 0)
unfolding compare_release_versions parse_release_version cut_prefix trim_space split parse_int
compare_v1-v2 = refl

parse_release_version-tag_example : parse_release_version (tag one_two_nine) ≡ ok one_two_nine
parse_release_version-tag_example = parse_release_version-tag one_two_nine (omega arith)
