-- ===== src/Registry/Retention/Plan/Listed.antt =====
-- The versions in the order of their deletion, seen from the list of ordered digests.
use redlaunch.Base.{
  ◌≡◌, ◌≢◌, Option, refl, sym, ◌∙◌, true, false, ◌⊎◌, inl, inr, List, [], ◌∷◌, ◌++◌, none, some,
  Text, has, ◌||◌, arith, text_eq, text_eq_iff, has-cons_cases, has-append,
}
use redlaunch.Base.Assoc.{Table}
use redlaunch.Registry.Types.{Version}
use redlaunch.Registry.Retention.Select.{digests}
use redlaunch.Registry.Retention.Sweep.{parents_of, by_digest, appended}
use redlaunch.Registry.Retention.Sweep.Listing.{Ordered, listing}
use redlaunch.Registry.Retention.Sweep.Maps.{
  parents_of-has, refers_sound, by_digest-found, by_digest-IsFound, by_digest-known, IsFound,
}

pub digests-append : (a b : List Version) → digests (a ++ b) ≡ digests a ++ digests b
digests-append [] b = refl
digests-append (v ∷ a) b = rw (digests-append a b)

digests-snoc :
    (vs : List Version) (v : Version) (x : Text)
    → has x (digests (vs ++ v ∷ [])) ≡ (has x (digests vs) || text_eq v.digest x)
unfolding has
digests-snoc vs v x =
    rw (digests-append vs (v ∷ [])) (ground (arith, has-append x (digests vs) (v.digest ∷ [])))

-- no digest twice
abbrev pub Distinct : List Text → Type 0
Distinct [] = Unit
Distinct (d ∷ ds) = (has d ds ≡ false) × Distinct ds

Distinct-snoc :
    (ds : List Text) (d : Text) → Distinct ds → has d ds ≡ false → Distinct (ds ++ d ∷ [])
unfolding has
Distinct-snoc [] d h n = (refl, tt)
Distinct-snoc (x ∷ ds) d (k, h) n = (
  ground (arith, has-append x ds (d ∷ []), text_eq_iff x d, text_eq_iff d x),
  Distinct-snoc ds d h (ground arith),
)

module _ (keep_set : List Text) (parents : Text → List Text) where
  -- behind the digests `seen`, each version comes after its parents, but for the kept ones
  abbrev pub ParentsFirst : List Text → List Version → Type 0
  ParentsFirst seen [] = Unit
  ParentsFirst seen (v ∷ vs) =
      ((p : Text) → has p (parents v.digest) ≡ true → (has p keep_set ≡ true) ⊎ (has p seen ≡ true))
      × ParentsFirst (v.digest ∷ seen) vs

  ParentsFirst-snoc :
      (vs : List Version) (seen : List Text) (v : Version)
      → ParentsFirst seen vs
      → ((p : Text)
          → has p (parents v.digest) ≡ true
          → (has p keep_set ≡ true) ⊎ (has p seen ≡ true) ⊎ (has p (digests vs) ≡ true))
      → ParentsFirst seen (vs ++ v ∷ [])
  unfolding has
  ParentsFirst-snoc [] seen v h k = (λ p e. ground (arith, k p), tt)
  ParentsFirst-snoc (w ∷ vs) seen v (f, h) k =
      (f, ParentsFirst-snoc vs (w.digest ∷ seen) v h (λ p e. ground (arith, k p)))

  pub ParentsFirst-at :
      (before after : List Version) (seen : List Text) (v : Version)
      → ParentsFirst seen (before ++ v ∷ after)
      → (p : Text) → has p (parents v.digest) ≡ true
      → (has p keep_set ≡ true) ⊎ (has p seen ≡ true) ⊎ (has p (digests before) ≡ true)
  unfolding has
  ParentsFirst-at [] after seen v (f, h) p e = ground (arith, f p)
  ParentsFirst-at (w ∷ before) after seen v (f, h) p e =
      ground (arith, ParentsFirst-at before after (w.digest ∷ seen) v h p)

module _ (references : Table (List Text)) (versions : List Version) (keep_set : List Text) where
  abbrev pub plan_listing : List Text → List Version
  plan_listing = listing keep_set (parents_of references versions) (by_digest versions)

  abbrev pub PlanOrdered : List Text → Type 0
  PlanOrdered = Ordered keep_set (parents_of references versions) (by_digest versions)

  appended_cases :
      (o : Option Version) (d : Text) (vs : List Version) (x : Text)
      → IsFound d o
      → has x (digests (appended o vs)) ≡ true
      → (d ≡ x) ⊎ (has x (digests vs) ≡ true)
  appended_cases none d vs x f h = inr h
  appended_cases (some v) d vs x f h = ground (arith, digests-snoc vs v x, text_eq_iff v.digest x)

  pub listed-ordered :
      (ds : List Text) (x : Text) → has x (digests (plan_listing ds)) ≡ true → has x ds ≡ true
  unfolding has
  listed-ordered [] x h = cc
  listed-ordered (d ∷ ds) x h = ground (
    arith,
    appended_cases (by_digest versions d) d (plan_listing ds) x (by_digest-IsFound versions d) h,
    listed-ordered ds x,
    text_eq_iff d x,
  )

  appended_known :
      (o : Option Version) (d : Text) (vs : List Version) (x : Text)
      → IsFound d o
      → (o ≢ none → has d (digests versions) ≡ true)
      → (has x (digests vs) ≡ true → has x (digests versions) ≡ true)
      → has x (digests (appended o vs)) ≡ true
      → has x (digests versions) ≡ true
  appended_known none d vs x f g k h = k h
  appended_known (some w) d vs x f g k h =
      ground (arith, digests-snoc vs w x, text_eq_iff w.digest x, g (λ e. cc))

  -- only listed versions are deleted
  pub listed-known :
      (ds : List Text) (x : Text)
      → has x (digests (plan_listing ds)) ≡ true
      → has x (digests versions) ≡ true
  unfolding has
  listed-known [] x h = cc
  listed-known (d ∷ ds) x h =
      appended_known (by_digest versions d) d (plan_listing ds) x (by_digest-IsFound versions d)
        (by_digest-known versions d) (listed-known ds x) h

  pub ordered-listed :
      (ds : List Text) (x : Text)
      → has x (digests versions) ≡ true
      → has x ds ≡ true
      → has x (digests (plan_listing ds)) ≡ true
  unfolding has
  ordered-listed [] x v h = cc
  ordered-listed (d ∷ ds) x v h = elim (has-cons_cases x d ds h) [
    | inl e ↦
        let (w, f, g) = by_digest-found versions d (rw e v) in
        rw f (ground (arith, digests-snoc (plan_listing ds) w x, text_eq_iff w.digest x))
    | inr e ↦ kept_listed (by_digest versions d) (plan_listing ds) (ordered-listed ds x v e)
  ]
    where
      kept_listed :
          (o : Option Version) (vs : List Version)
          → has x (digests vs) ≡ true
          → has x (digests (appended o vs)) ≡ true
      kept_listed none vs k = k
      kept_listed (some w) vs k = ground (arith, digests-snoc vs w x)

  pub ordered-unkept :
      (ds : List Text) (x : Text) → PlanOrdered ds → has x ds ≡ true → has x keep_set ≡ false
  unfolding has
  ordered-unkept [] x o h = cc
  ordered-unkept (d ∷ ds) x (k, _, _, o) h = ground (arith, ordered-unkept ds x o, text_eq_iff d x)

  appended-Distinct :
      (o : Option Version) (d : Text) (vs : List Version)
      → IsFound d o
      → has d (digests vs) ≡ false
      → Distinct (digests vs)
      → Distinct (digests (appended o vs))
  appended-Distinct none d vs f n h = h
  appended-Distinct (some w) d vs f n h =
      rw (digests-append vs (w ∷ [])) (Distinct-snoc (digests vs) w.digest h (rw f n))

  pub listing-Distinct : (ds : List Text) → PlanOrdered ds → Distinct (digests (plan_listing ds))
  listing-Distinct [] o = tt
  listing-Distinct (d ∷ ds) (k, n, _, o) =
      appended-Distinct (by_digest versions d) d (plan_listing ds) (by_digest-IsFound versions d)
        (ground (arith, listed-ordered ds d)) (listing-Distinct ds o)

  appended-ParentsFirst :
      (o : Option Version) (d : Text) (vs : List Version)
      → IsFound d o
      → ((p : Text)
          → has p (parents_of references versions d) ≡ true
          → (has p keep_set ≡ true) ⊎ (has p (digests vs) ≡ true))
      → ParentsFirst keep_set (parents_of references versions) [] vs
      → ParentsFirst keep_set (parents_of references versions) [] (appended o vs)
  appended-ParentsFirst none d vs f k h = h
  appended-ParentsFirst (some w) d vs f k h =
      ParentsFirst-snoc keep_set (parents_of references versions) vs [] w h
        (λ p e. elim (k p (rw f at e)) [ inl a ↦ inl a | inr b ↦ inr (inr b) ])

  parent_listed :
      (p d : Text)
      → has p (parents_of references versions d) ≡ true
      → has p (digests versions) ≡ true
  parent_listed p d h =
      (refers_sound references versions p d (sym (parents_of-has references versions p d) ∙ h)).0

  pub listing-ParentsFirst :
      (ds : List Text)
      → PlanOrdered ds
      → ParentsFirst keep_set (parents_of references versions) [] (plan_listing ds)
  listing-ParentsFirst [] o = tt
  listing-ParentsFirst (d ∷ ds) (k, n, f, o) =
      appended-ParentsFirst (by_digest versions d) d (plan_listing ds)
        (by_digest-IsFound versions d)
        (λ p e. elim (f p e) [
          | inl a ↦ inl a
          | inr b ↦ inr (ordered-listed ds p (parent_listed p d e) b)
        ])
        (listing-ParentsFirst ds o)
