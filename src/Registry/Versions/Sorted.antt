-- ===== src/Registry/Versions/Sorted.antt =====
-- The order of the versions (internal/application/versions.go).
use redlaunch.Base.{
  ◌<◌, if◌then◌else◌, Bool, true, false, List, [], ◌∷◌, Text, text_lt, ◌≡◌, ◌⊎◌, inl, inr, refl,
  arith, All, All-map, Bool-cases,
}
use redlaunch.Registry.Types.{Image, Version}
use redlaunch.Registry.Versions.{
  insert_sorted, sort_by, newer_first, group_registry_versions, sort_tags, collect,
}

-- each element comes before all that follow
abbrev pub IsSorted : {A : Type 0} → (A → A → Type 0) → List A → Type 0
IsSorted before [] = Unit
IsSorted before (x ∷ xs) = All (before x) xs × IsSorted before xs

-- newer, or of the same time and with a digest that is not greater; the zero time is the least
abbrev pub Precedes : Version → Version → Type 0
Precedes v w =
    (w.pushed_at < v.pushed_at)
    ⊎ ((v.pushed_at ≡ w.pushed_at) × (text_lt w.digest v.digest ≡ false))

module _ {A : Type 0} (less : A → A → Bool) (before : A → A → Type 0)
    (placed : (x y : A) → less x y ≡ true → before x y)
    (passed : (x y : A) → less x y ≡ false → before y x)
    (chained : (x y z : A) → before x y → before y z → before x z) where
  All-insert_sorted :
      (z x : A) (xs : List A)
      → before z x
      → All (before z) xs
      → All (before z) (insert_sorted less x xs)
  unfolding insert_sorted
  All-insert_sorted z x [] h k = (h, tt)
  All-insert_sorted z x (y ∷ ys) h (j, k) =
      elim (less x y)
        as (λ b. All (before z) (if b then x ∷ y ∷ ys else y ∷ insert_sorted less x ys)) [
          | true ↦ (h, (j, k))
          | false ↦ (j, All-insert_sorted z x ys h k)
        ]

  insert_sorted-IsSorted :
      (x : A) (xs : List A) → IsSorted before xs → IsSorted before (insert_sorted less x xs)
  unfolding insert_sorted
  insert_sorted-IsSorted x [] h = (tt, tt)
  insert_sorted-IsSorted x (y ∷ ys) (j, k) = elim (Bool-cases (less x y)) [
    | inl e ↦
        let first = placed x y e in
        rw e ((first, All-map (λ z b. chained x y z first b) ys j), (j, k))
    | inr e ↦ rw e (All-insert_sorted y x ys (passed x y e) j, insert_sorted-IsSorted x ys k)
  ]

  sort_by-IsSorted : (xs : List A) → IsSorted before (sort_by less xs)
  unfolding sort_by
  sort_by-IsSorted [] = tt
  sort_by-IsSorted (x ∷ xs) = insert_sorted-IsSorted x (sort_by less xs) (sort_by-IsSorted xs)

text_lt_asym : (s t : Text) → text_lt s t ≡ true → text_lt t s ≡ false
unfolding text_lt
text_lt_asym [] [] h = ground arith
text_lt_asym [] (d ∷ t) h = refl
text_lt_asym (c ∷ s) [] h = ground arith
text_lt_asym (c ∷ s) (d ∷ t) h = ground (arith, text_lt_asym s t)

text_lt_chained : (s t u : Text) → text_lt t s ≡ false → text_lt u t ≡ false → text_lt u s ≡ false
unfolding text_lt
text_lt_chained [] t [] h k = refl
text_lt_chained [] t (e ∷ u) h k = refl
text_lt_chained (c ∷ s) [] u h k = ground arith
text_lt_chained (c ∷ s) (d ∷ t) [] h k = ground arith
text_lt_chained (c ∷ s) (d ∷ t) (e ∷ u) h k = ground (arith, text_lt_chained s t u)

newer_first_placed : (v w : Version) → newer_first v w ≡ true → Precedes v w
unfolding newer_first
newer_first_placed v w h = ground (arith, text_lt_asym v.digest w.digest)

newer_first_passed : (v w : Version) → newer_first v w ≡ false → Precedes w v
unfolding newer_first
newer_first_passed v w h = ground arith

Precedes-chained : (u v w : Version) → Precedes u v → Precedes v w → Precedes u w
Precedes-chained u v w h k = ground (arith, text_lt_chained u.digest v.digest w.digest)

-- The versions of a repository are listed newest first: each was pushed after all that follow, or at
-- the same time as them and with a digest that is not greater. The zero time, which is the least,
-- stands for an unknown push time, so that those versions come last.
pub group_registry_versions-IsSorted :
    (images : List Image) (repository : Text)
    → IsSorted Precedes (group_registry_versions images repository)
unfolding group_registry_versions
group_registry_versions-IsSorted images repository =
    sort_by-IsSorted newer_first Precedes newer_first_placed newer_first_passed Precedes-chained
      (sort_tags (collect repository images []))
