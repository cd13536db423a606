-- ===== src/Auth/Attempts.antt =====
-- How many login attempts pass the limiter, and how large its table gets.
use redlaunch.Base.{
  ℕ, ◌+◌, ◌≤◌, ◌≡◌, refl, subst, ap, ◌∙◌, arith, ◌⊎◌, inl, inr, Bool, true, false, ◌||◌, ltb,
  if◌then◌else◌, Text, length, Option, some, List, [], ◌∷◌, text_eq, text_eq_iff, Bool-cases,
}
use redlaunch.Base.Assoc.{Table, lookup, retain, lookup-insert, length-retain-le}
use redlaunch.Base.Unique.{IsUnique, kept, lookup-retain, retain-IsUnique}
use redlaunch.Auth.Limiter.{
  Attempts, user_key, address_key, user_limit, address_limit, max_entries, live, reached, missing,
  counted, count_attempt, allow,
}

pub record Attempt : Type 0 where
  pub now : ℕ
  pub username : Text
  pub address : Text

-- the attempts that pass, and the table after all of them
unfoldable pub run : List Attempt → Table Attempts → List Attempt × Table Attempts
run [] entries = ([], entries)
run (a ∷ attempts) entries =
    let (passed, next) = allow a.now a.username a.address entries in
    let (more, last) = run attempts next in (if passed then (a ∷ more, last) else (more, last))

-- A table of the limiter: each key stands once, and there are not too many.
pub record IsLimited (entries : Table Attempts) : Type 0 where
  pub unique : IsUnique entries
  pub few : length entries ≤ max_entries

user_key-injective : (u v : Text) → user_key u ≡ user_key v → u ≡ v
unfolding user_key
user_key-injective u v h = cc

pub keys_apart : (u a : Text) → text_eq (user_key u) (address_key a) ≡ false
unfolding user_key address_key text_eq
keys_apart u a = refl

user_key-eq : (u v : Text) → text_eq (user_key u) (user_key v) ≡ text_eq u v
unfolding user_key text_eq
user_key-eq u v = refl

address_key-eq : (a b : Text) → text_eq (address_key a) (address_key b) ≡ text_eq a b
unfolding address_key text_eq
address_key-eq a b = refl

keys_apart' : (u a : Text) → text_eq (address_key a) (user_key u) ≡ false
unfolding user_key address_key text_eq
keys_apart' u a = refl

-- What an attempt does to one entry: `mine` says whether it counts for this entry.
pub data Turn (limit now : ℕ) (mine passed : Bool) (before after : Option Attempts) : Type 0 where
  unchanged :
      (mine ≡ false) ⊎ (passed ≡ false)
      → after ≡ kept (live now) before
      → Turn limit now mine passed before after
  counts :
      mine ≡ true
      → reached limit (kept (live now) before) ≡ false
      → after ≡ some (counted now (kept (live now) before))
      → Turn limit now mine passed before after

pub lookup-count_attempt :
    (now : ℕ) (k j : Text) (m : Table Attempts)
    → lookup j (count_attempt now k m)
      ≡ (if text_eq k j then some (counted now (lookup k m)) else lookup j m)
unfolding count_attempt
lookup-count_attempt now k j m = lookup-insert k j (counted now (lookup k m)) m

module _ (now : ℕ) (u a : Text) (entries : Table Attempts) where
  unfoldable pub current : Table Attempts
  current = retain (live now) entries

  unfoldable pub counted_both : Table Attempts
  counted_both = count_attempt now (address_key a) (count_attempt now (user_key u) current)

  -- what it takes to pass
  pub record Passes : Type 0 where
    pub user_below : reached user_limit (lookup (user_key u) current) ≡ false
    pub address_below : reached address_limit (lookup (address_key a) current) ≡ false
    pub room :
        length current
          + (missing (lookup (user_key u) current) + missing (lookup (address_key a) current))
        ≤ max_entries

  pub allow_cases :
      (P : Bool × Table Attempts → Type 0)
      → P (false, current)
      → (Passes → P (true, counted_both))
      → P (allow now u a entries)
  unfolding allow current counted_both
  allow_cases P refused passes = elim (Bool-cases t) [
    | inl e ↦ rw e refused
    | inr e ↦ rw e (
        passes
          (record { user_below = ground arith; address_below = ground arith; room = ground arith }))
  ]
    where
      t : Bool
      t =
          reached user_limit (lookup (user_key u) current)
          || reached address_limit (lookup (address_key a) current)
          || ltb max_entries (
              length current
              + (missing (lookup (user_key u) current) + missing (lookup (address_key a) current)))

  lookup-both_user :
      (v : Text)
      → lookup (user_key v) counted_both ≡ (
          if text_eq u v
          then some (counted now (lookup (user_key v) current))
          else lookup (user_key v) current)
  unfolding counted_both
  lookup-both_user v = ground (
    arith,
    lookup-count_attempt now (address_key a) (user_key v) (count_attempt now (user_key u) current),
    lookup-count_attempt now (user_key u) (user_key v) current,
    keys_apart' v a,
    user_key-eq u v,
    text_eq_iff u v,
  )

  lookup-both_address :
      (b : Text)
      → lookup (address_key b) counted_both ≡ (
          if text_eq a b
          then some (counted now (lookup (address_key b) current))
          else lookup (address_key b) current)
  unfolding counted_both
  lookup-both_address b = ground (
    arith,
    lookup-count_attempt now (address_key a) (address_key b)
        (count_attempt now (user_key u) current),
    lookup-count_attempt now (user_key u) (address_key b) current,
    lookup-count_attempt now (user_key u) (address_key a) current,
    keys_apart u b,
    keys_apart u a,
    address_key-eq a b,
    text_eq_iff a b,
  )

  module _ (h : IsUnique entries) where
    lookup-current : (k : Text) → lookup k current ≡ kept (live now) (lookup k entries)
    unfolding current
    lookup-current k = lookup-retain (live now) k entries h

    passed_turn :
        {limit : ℕ} {mine : Bool} (k : Text) {after : Option Attempts}
        → (mine ≡ true → reached limit (lookup k current) ≡ false)
        → after ≡ (if mine then some (counted now (lookup k current)) else lookup k current)
        → Turn limit now mine true (lookup k entries) after
    passed_turn {limit} {mine = true} k below e =
        counts refl (subst (λ o. reached limit o ≡ false) (lookup-current k) (below refl))
          (e ∙ ap (λ o. some (counted now o)) (lookup-current k))
    passed_turn {mine = false} k below e = unchanged (inl refl) (e ∙ lookup-current k)

    pub user_turn :
        (v : Text)
        → Turn user_limit now
            (text_eq u v)
            (allow now u a entries).0
            (lookup (user_key v) entries)
            (lookup (user_key v) (allow now u a entries).1)
    user_turn v =
        allow_cases
          (λ r.
            Turn user_limit now (text_eq u v) r.0 (lookup (user_key v) entries)
              (lookup (user_key v) r.1))
          (unchanged (inr refl) (lookup-current (user_key v)))
          (λ q.
            passed_turn (user_key v) (λ e. ground (arith, q.user_below, text_eq_iff u v))
              (lookup-both_user v))

    pub address_turn :
        (b : Text)
        → Turn address_limit now
            (text_eq a b)
            (allow now u a entries).0
            (lookup (address_key b) entries)
            (lookup (address_key b) (allow now u a entries).1)
    address_turn b =
        allow_cases
          (λ r.
            Turn address_limit now (text_eq a b) r.0 (lookup (address_key b) entries)
              (lookup (address_key b) r.1))
          (unchanged (inr refl) (lookup-current (address_key b)))
          (λ q.
            passed_turn (address_key b) (λ e. ground (arith, q.address_below, text_eq_iff a b))
              (lookup-both_address b))

    pub current-IsLimited : length entries ≤ max_entries → IsLimited current
    unfolding current
    current-IsLimited few = record {
      unique = retain-IsUnique (live now) entries h;
      few = omega (arith, few, length-retain-le (live now) entries);
    }
