-- ===== src/Registry/Retention/Select/Quota.antt =====
-- What the quota of SelectRegistryVersions means for one version.
use redlaunch.Base.{
  ℕ, ◌+◌, ◌≡◌, refl, Bool, true, false, ◌||◌, ◌&&◌, not, List, [], ◌∷◌, ◌++◌, Text, text_eq_iff,
  if◌then◌else◌, ok, >>=-eq-ok, ◌∙◌, has, arith, Bool-cases, inl, inr,
}
use native.Mathlib.Nat.{add-zero, add_assoc, zero-add}
use redlaunch.Base.Number.{ℤ, pos, negsuc}
use redlaunch.Registry.Types.{Version, validate_registry_keep_count}
use redlaunch.Registry.Retention.Select.{
  below, is_free, is_unlimited, digests, digests-listed, select_loop, select_registry_versions,
}

-- a version that uses up quota when it is kept
abbrev pub counts : Text → (Text → Bool) → List Text → Version → Bool
counts repository protected excluded version =
    not (has version.digest excluded) && not (is_free repository protected version)

abbrev pub quota_used : Text → (Text → Bool) → List Text → List Version → ℕ
quota_used repository protected excluded [] = 0
quota_used repository protected excluded (v ∷ vs) =
    (if counts repository protected excluded v then 1 else 0)
    + quota_used repository protected excluded vs

-- an unprotected version is kept while fewer than `keep` newer ones have used the quota
abbrev pub kept_by_policy : Text → ℤ → (Text → Bool) → List Text → List Version → Version → Bool
kept_by_policy repository keep protected excluded newer v =
    not (has v.digest excluded)
    && (is_free repository protected v
        || below (quota_used repository protected excluded newer) keep)

below_more :
    (keep : ℤ) (count more : ℕ) → below count keep ≡ false → below (count + more) keep ≡ false
below_more (pos n) count more h = ground arith
below_more (negsuc n) count more h = refl

module _ (repository : Text) (keep : ℤ) (protected : Text → Bool) (excluded : List Text) where
  loop : List Version → ℕ → List Text → List Text
  unfolding select_loop
  loop = select_loop repository keep protected excluded

  loop-old :
      (vs : List Version) (count : ℕ) (acc : List Text) (d : Text)
      → has d (digests vs) ≡ false
      → has d (loop vs count acc) ≡ has d acc
  unfolding loop has
  loop-old [] count acc d h = refl
  loop-old (v ∷ vs) count acc d h = ground (
    arith,
    loop-old vs count acc d,
    loop-old vs count (v.digest ∷ acc) d,
    loop-old vs (count + 1) (v.digest ∷ acc) d,
  )

  decided : List Version → ℕ → Version → Bool
  decided newer count v =
      not (has v.digest excluded)
      && (is_free repository protected v
          || below (count + quota_used repository protected excluded newer) keep)

  loop-decided :
      (newer older : List Version) (v : Version) (count : ℕ) (acc : List Text)
      → has v.digest (digests newer) ≡ false
      → has v.digest (digests older) ≡ false
      → has v.digest acc ≡ false
      → has v.digest (loop (newer ++ v ∷ older) count acc) ≡ decided newer count v
  unfolding loop has decided
  loop-decided [] older v count acc hn ho ha = ground (
    arith,
    text_eq_iff v.digest v.digest,
    add-zero count,
    loop-old older count acc v.digest,
    loop-old older count (v.digest ∷ acc) v.digest,
    loop-old older (count + 1) (v.digest ∷ acc) v.digest,
  )
  loop-decided (w ∷ newer) older v count acc hn ho ha = ground (
    arith,
    loop-decided newer older v count acc,
    loop-decided newer older v count (w.digest ∷ acc),
    loop-decided newer older v (count + 1) (w.digest ∷ acc),
    below_more keep count (quota_used repository protected excluded newer),
    below_more keep count (1 + quota_used repository protected excluded newer),
    add_assoc count 1 (quota_used repository protected excluded newer),
  )

  selected_by_loop :
      (vs : List Version) (keep_set : List Text)
      → is_unlimited keep ≡ false
      → select_registry_versions vs repository keep protected excluded ≡ ok keep_set
      → keep_set ≡ loop vs 0 []
  unfolding select_registry_versions loop
  selected_by_loop vs keep_set u h =
      ground (arith, >>=-eq-ok (validate_registry_keep_count keep) _ h)

  selected_all :
      (vs : List Version) (keep_set : List Text)
      → is_unlimited keep ≡ true
      → select_registry_versions vs repository keep protected excluded ≡ ok keep_set
      → keep_set ≡ digests vs
  unfolding select_registry_versions
  selected_all vs keep_set u h = ground (arith, >>=-eq-ok (validate_registry_keep_count keep) _ h)

  decided_from_zero :
      (newer : List Version) (v : Version)
      → decided newer 0 v ≡ kept_by_policy repository keep protected excluded newer v
  unfolding decided
  decided_from_zero newer v = rw zero-add

-- With a quota, SelectRegistryVersions keeps a version exactly when it is not left to an index, and
-- is protected, has no push time, or has fewer than `keep` quota versions before it in the listing,
-- which is newest first; one that is left to an index is not selected even if it is protected or has
-- no push time. The version's digest is listed once.
pub select_registry_versions-has :
    (repository : Text) (keep : ℤ) (protected : Text → Bool) (excluded : List Text)
    (newer older : List Version) (v : Version) (keep_set : List Text)
    → is_unlimited keep ≡ false
    → has v.digest (digests newer) ≡ false
    → has v.digest (digests older) ≡ false
    → select_registry_versions (newer ++ v ∷ older) repository keep protected excluded ≡ ok keep_set
    → has v.digest keep_set ≡ kept_by_policy repository keep protected excluded newer v
select_registry_versions-has repository keep protected excluded newer older v keep_set u hn ho h =
    rw (selected_by_loop repository keep protected excluded (newer ++ v ∷ older) keep_set u h) (
      loop-decided repository keep protected excluded newer older v 0 [] hn ho (unfold has in refl)
      ∙ decided_from_zero repository keep protected excluded newer v)

-- A protected version, or one with no push time, is selected whatever the keep count.
pub select_registry_versions-free :
    (repository : Text) (keep : ℤ) (protected : Text → Bool) (excluded : List Text)
    (newer older : List Version) (v : Version) (keep_set : List Text)
    → has v.digest (digests newer) ≡ false
    → has v.digest (digests older) ≡ false
    → has v.digest excluded ≡ false
    → is_free repository protected v ≡ true
    → select_registry_versions (newer ++ v ∷ older) repository keep protected excluded ≡ ok keep_set
    → has v.digest keep_set ≡ true
select_registry_versions-free repository keep protected excluded newer older v keep_set hn ho x f
      h =
    elim (Bool-cases (is_unlimited keep)) [
      | inl u ↦
          rw (selected_all repository keep protected excluded (newer ++ v ∷ older) keep_set u h)
            (digests-listed newer older v)
      | inr u ↦
          select_registry_versions-has repository keep protected excluded newer older v keep_set u
            hn ho h
          ∙ ground arith
    ]
