-- ===== src/OAuth/Store/Distinct.antt =====
-- Rows that a test tells apart: no two are the same by it.
use redlaunch.Base.{
  Bool, true, false, List, [], ◌∷◌, ◌++◌, some, select, ◌≡◌, refl, sym, ◌∙◌, arith, All,
  if◌then◌else◌, Bool-cases, inl, inr,
}
use redlaunch.OAuth.Store.Tables.{first, some_row, update_rows}
use redlaunch.OAuth.Store.Rows.{some_row-append, some_row-select-false}

-- no two rows are the same by the test
module _ {ℓ} {A : Type ℓ} (same : A → A → Bool) where
  abbrev pub Unique : List A → Type 0
  Unique [] = Unit
  Unique (x ∷ xs) = (some_row (same x) xs ≡ false) × Unique xs

  pub Unique-select : (q : A → Bool) (xs : List A) → Unique xs → Unique (select q xs)
  unfolding select
  Unique-select q [] u = tt
  Unique-select q (x ∷ xs) (h, u) =
      ground (arith, Unique-select q xs u, some_row-select-false (same x) q xs h)

  pub Unique-append :
      (xs : List A) (y : A)
      → Unique xs
      → some_row (λ x. same x y) xs ≡ false
      → Unique (xs ++ y ∷ [])
  unfolding some_row
  Unique-append [] y u h = (refl, tt)
  Unique-append (x ∷ xs) y (k, u) h =
      (ground (arith, some_row-append (same x) xs (y ∷ [])), Unique-append xs y u (ground arith))

  module _ (r : A → Bool) (f : A → A) (kept_left : (x y : A) → same (f x) y ≡ same x y)
      (kept_right : (x y : A) → same x (f y) ≡ same x y) where
    some_row-update_same :
        (x : A) (xs : List A)
        → some_row (same (if r x then f x else x)) (update_rows r f xs) ≡ some_row (same x) xs
    unfolding some_row update_rows
    some_row-update_same x [] = refl
    some_row-update_same x (y ∷ xs) = ground (
      arith,
      kept_left x y,
      kept_right x y,
      kept_left x (f y),
      kept_right (f x) y,
      some_row-update_same x xs,
    )

    pub Unique-update : (xs : List A) → Unique xs → Unique (update_rows r f xs)
    unfolding update_rows
    Unique-update [] u = tt
    Unique-update (x ∷ xs) (h, u) = (some_row-update_same x xs ∙ h, Unique-update xs u)

  first-some_row-false :
      (p q : A → Bool) (xs : List A) {x : A}
      → some_row q xs ≡ false
      → first p xs ≡ some x
      → q x ≡ false
  unfolding first some_row
  first-some_row-false p q [] h e = ground arith
  first-some_row-false p q (y ∷ xs) {x = x} h e =
      ground (arith, first-some_row-false p q xs {x = x})

  none_same :
      (P : A → Type ℓ) (q : A → Bool) (xs : List A)
      → some_row q xs ≡ false
      → All (λ z. q z ≡ true → P z) xs
  unfolding some_row
  none_same P q [] h = tt
  none_same P q (y ∷ xs) h = (λ e. ground arith, none_same P q xs (ground arith))

  -- a row that is the same as the one found is the one found
  pub Unique-first :
      ((x y : A) → same x y ≡ same y x)
      → (p : A → Bool) (xs : List A) {x : A} → Unique xs
      → first p xs ≡ some x
      → All (λ y. same x y ≡ true → y ≡ x) xs
  unfolding first
  Unique-first swap p [] u h = tt
  Unique-first swap p (y ∷ xs) {x = x} (k, u) h = elim (Bool-cases (p y)) [
    | inl hit ↦
        let here : y ≡ x = ground arith in
        (λ e. here, none_same (λ z. z ≡ x) (same x) xs (rw (sym here) k))
    | inr miss ↦
        let rest : first p xs ≡ some x = ground arith in
        let other = first-some_row-false p (same y) xs k rest in
        (λ e. ground (arith, swap x y), Unique-first swap p xs u rest)
  ]
