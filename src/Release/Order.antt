-- ===== src/Release/Order.antt =====
-- Release tags are ordered by their version numbers.
use redlaunch.Base.{
  Result, ok, err, ◌>>=◌, zero, suc, ap, sym, ◌∙◌, ◌<◌, ◌≡◌, refl, ◌⊎◌, ◌↔◌, true, Text, arith,
}
use redlaunch.Base.Number.{ℤ, pos, negsuc, is_positive}
use redlaunch.Release.{
  Error, Version, parse_release_version, compare_versions, compare_release_versions,
  is_newer_release,
}

-- the lexicographic order of version numbers
abbrev pub Older : Version → Version → Type 0
Older u v =
    (u.major < v.major)
    ⊎ ((u.major ≡ v.major) × ((u.minor < v.minor) ⊎ ((u.minor ≡ v.minor) × (u.patch < v.patch))))

-- a text that is the tag of a version
abbrev pub Tags : Text → Version → Type 0
Tags s v = parse_release_version s ≡ ok v

abbrev pub negate : ℤ → ℤ
negate (pos zero) = pos 0
negate (pos (suc n)) = negsuc n
negate (negsuc n) = pos (suc n)

compare_versions-Older : (u v : Version) → (is_positive (compare_versions v u) ≡ true) ↔ Older u v
unfolding compare_versions
compare_versions-Older u v = (λ h. ground arith, λ h. ground arith)

newer_inversion :
    (rv ru : Result Error Version)
    → (rv >>= (λ v. ru >>= λ u. ok (compare_versions v u)) >>= λ c. ok (is_positive c)) ≡ ok true
    → (u : Version) × (v : Version) × (ru ≡ ok u) × (rv ≡ ok v) × Older u v
newer_inversion (ok v) (ok u) h = (u, v, refl, refl, (compare_versions-Older u v).0 (ground arith))
newer_inversion (ok v) (err e) h = cc
newer_inversion (err e) ru h = cc

antisym_inversion :
    (rv ru : Result Error Version) {z : ℤ}
    → (rv >>= λ v. ru >>= λ u. ok (compare_versions v u)) ≡ ok z
    → (ru >>= λ u. rv >>= λ v. ok (compare_versions u v)) ≡ ok (negate z)
unfolding compare_versions
antisym_inversion (ok v) (ok u) h = ground arith
antisym_inversion (ok v) (err e) h = cc
antisym_inversion (err e) ru h = cc

tag_unique : (v v' : Version) → ◌≡◌ {A = Result Error Version} (ok v) (ok v') → v ≡ v'
tag_unique v v' h = cc

Older-trans : (u v w : Version) → Older u v → Older v w → Older u w
Older-trans u v w p q = ground arith

-- IsNewerRelease answers yes exactly when both texts are release tags and the version of the first
-- is below that of the second, number by number; on anything else it answers no or an error.
pub is_newer_release_iff :
    (current candidate : Text)
    → (is_newer_release current candidate ≡ ok true)
      ↔ ((u : Version) × (v : Version) × Tags current u × Tags candidate v × Older u v)
unfolding is_newer_release compare_release_versions
is_newer_release_iff current candidate =
    (newer_inversion (parse_release_version candidate) (parse_release_version current), from)
  where
    from :
        ((u : Version) × (v : Version) × Tags current u × Tags candidate v × Older u v)
        → is_newer_release current candidate ≡ ok true
    from (u, v, eu, ev, o) = rw (ev, eu) (ap ok ((compare_versions-Older u v).1 o))

-- Comparing two texts the other way round gives the opposite sign, and the same kind of failure:
-- an error one way is an error the other way.
pub compare_release_versions_antisym :
    (left right : Text) {z : ℤ}
    → compare_release_versions left right ≡ ok z
    → compare_release_versions right left ≡ ok (negate z)
unfolding compare_release_versions
compare_release_versions_antisym left right h =
    antisym_inversion (parse_release_version left) (parse_release_version right) h

-- "Newer" is transitive, so an upgrade path never comes back to its start.
pub is_newer_release_trans :
    (a b c : Text)
    → is_newer_release a b ≡ ok true
    → is_newer_release b c ≡ ok true
    → is_newer_release a c ≡ ok true
is_newer_release_trans a b c p q =
    let (u, v, eu, ev, o) = (is_newer_release_iff a b).0 p in
    let (v', w, ev', ew, o') = (is_newer_release_iff b c).0 q in
    (is_newer_release_iff a c).1
      (u, w, eu, ew, Older-trans u v w o (rw (tag_unique v v' (sym ev ∙ ev')) o'))
