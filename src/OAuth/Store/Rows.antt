-- ===== src/OAuth/Store/Rows.antt =====
-- What the queries and the updates of the tables do to the rows.
use redlaunch.Base.{
  Bool, true, false, not, ◌&&◌, ◌||◌, List, [], ◌∷◌, ◌++◌, none, some, select, ◌≡◌, refl, ap, sym,
  arith, All, All-map, length, Bool-cases, inl, inr,
}
use redlaunch.OAuth.Store.Tables.{first, some_row, update_rows}

module _ {ℓ} {A : Type ℓ} where
  pub first-some : (p : A → Bool) (xs : List A) {x : A} → first p xs ≡ some x → p x ≡ true
  unfolding first
  first-some p [] h = ground arith
  first-some p (y ∷ xs) {x = x} h = ground (arith, first-some p xs {x = x})

  pub first-none : (p : A → Bool) (xs : List A) → some_row p xs ≡ false → first p xs ≡ none
  unfolding first some_row
  first-none p [] h = refl
  first-none p (y ∷ xs) h = ground (arith, first-none p xs)

  pub first-some_row :
      (p : A → Bool) (xs : List A) {x : A} → first p xs ≡ some x → some_row p xs ≡ true
  unfolding first some_row
  first-some_row p [] h = ground arith
  first-some_row p (y ∷ xs) {x = x} h = ground (arith, first-some_row p xs {x = x})

  pub first-member :
      (p q : A → Bool) (xs : List A) {x : A}
      → first p xs ≡ some x
      → q x ≡ true
      → some_row q xs ≡ true
  unfolding first some_row
  first-member p q [] h e = ground arith
  first-member p q (y ∷ xs) {x = x} h e = ground (arith, first-member p q xs {x = x})

  pub some_row-first :
      (p : A → Bool) (xs : List A) → some_row p xs ≡ true → (x : A) × (first p xs ≡ some x)
  unfolding first some_row
  some_row-first p [] h = ground arith
  some_row-first p (y ∷ xs) h = elim (Bool-cases (p y)) [
    | inl hit ↦ (y, ground arith)
    | inr miss ↦ let (x, found) = some_row-first p xs (ground arith) in (x, ground arith)
  ]

  pub first-append_right :
      (p : A → Bool) (xs ys : List A) → some_row p xs ≡ false → first p (xs ++ ys) ≡ first p ys
  unfolding first some_row
  first-append_right p [] ys h = refl
  first-append_right p (x ∷ xs) ys h = ground (arith, first-append_right p xs ys)

  pub first-only : (p : A → Bool) (x : A) → p x ≡ true → first p (x ∷ []) ≡ some x
  unfolding first
  first-only p x h = ground arith

  pub some_row-append :
      (p : A → Bool) (xs ys : List A) → some_row p (xs ++ ys) ≡ (some_row p xs || some_row p ys)
  unfolding some_row
  some_row-append p [] ys = refl
  some_row-append p (x ∷ xs) ys = ground (arith, some_row-append p xs ys)

  pub some_row-append_last :
      (p : A → Bool) (xs : List A) (y : A) → p y ≡ true → some_row p (xs ++ y ∷ []) ≡ true
  unfolding some_row
  some_row-append_last p xs y h = ground (arith, some_row-append p xs (y ∷ []))

  pub some_row-select :
      (p q : A → Bool) (xs : List A) → some_row p (select q xs) ≡ some_row (λ x. q x && p x) xs
  unfolding some_row select
  some_row-select p q [] = refl
  some_row-select p q (x ∷ xs) = ground (arith, some_row-select p q xs)

  pub some_row-select-false :
      (p q : A → Bool) (xs : List A) → some_row p xs ≡ false → some_row p (select q xs) ≡ false
  unfolding some_row select
  some_row-select-false p q [] h = h
  some_row-select-false p q (x ∷ xs) h = ground (arith, some_row-select-false p q xs)

  pub some_row-select_out :
      (p : A → Bool) (xs : List A) → some_row p (select (λ x. not (p x)) xs) ≡ false
  unfolding some_row select
  some_row-select_out p [] = refl
  some_row-select_out p (x ∷ xs) = ground (arith, some_row-select_out p xs)

  pub some_row_mono :
      (p q : A → Bool)
      → ((x : A) → p x ≡ true → q x ≡ true)
      → (xs : List A) → some_row p xs ≡ true
      → some_row q xs ≡ true
  unfolding some_row
  some_row_mono p q f [] h = h
  some_row_mono p q f (x ∷ xs) h = ground (arith, f x, some_row_mono p q f xs)

  pub some_row_contra :
      (p q : A → Bool)
      → ((x : A) → p x ≡ true → q x ≡ true)
      → (xs : List A) → some_row q xs ≡ false
      → some_row p xs ≡ false
  some_row_contra p q f xs h = ground (arith, some_row_mono p q f xs)

  pub some_row-never :
      (p : A → Bool) → ((x : A) → p x ≡ false) → (xs : List A) → some_row p xs ≡ false
  unfolding some_row
  some_row-never p f [] = refl
  some_row-never p f (x ∷ xs) = ground (arith, f x, some_row-never p f xs)

  pub some_row-update :
      (p : A → Bool) (r : A → Bool) (f : A → A)
      → ((x : A) → p (f x) ≡ p x)
      → (xs : List A) → some_row p (update_rows r f xs) ≡ some_row p xs
  unfolding some_row update_rows
  some_row-update p r f h [] = refl
  some_row-update p r f h (x ∷ xs) = ground (arith, h x, some_row-update p r f h xs)

  pub length-update :
      (r : A → Bool) (f : A → A) (xs : List A) → length (update_rows r f xs) ≡ length xs
  unfolding update_rows
  length-update r f [] = refl
  length-update r f (x ∷ xs) = ground (arith, length-update r f xs)

module _ {ℓ κ} {A : Type ℓ} (P : A → Type κ) where
  pub All-first : (p : A → Bool) (xs : List A) {x : A} → All P xs → first p xs ≡ some x → P x
  unfolding first
  All-first p [] h e = ground arith
  All-first p (y ∷ xs) {x = x} (q, h) e = ground (arith, All-first p xs {x = x} h)

  pub All-update :
      (r : A → Bool) (f : A → A)
      → ((x : A) → r x ≡ true → P x → P (f x))
      → (xs : List A) → All P xs
      → All P (update_rows r f xs)
  unfolding update_rows
  All-update r f k [] h = tt
  All-update r f k (x ∷ xs) (q, h) = ground (arith, k x, All-update r f k xs h)

module _ {ℓ κ λ'} {A : Type ℓ} {P : A → Type κ} {Q : A → Type λ'} where
  -- what holds of the rows that a selection leaves
  pub All-select_map :
      (q : A → Bool)
      → ((x : A) → q x ≡ true → P x → Q x)
      → (xs : List A) → All P xs
      → All Q (select q xs)
  unfolding select
  All-select_map q f [] h = tt
  All-select_map q f (x ∷ xs) (a, h) = ground (arith, f x, All-select_map q f xs h)

  pub All-update_map :
      (r : A → Bool) (f : A → A)
      → ((x : A) → r x ≡ true → P x → Q (f x))
      → ((x : A) → r x ≡ false → P x → Q x)
      → (xs : List A) → All P xs
      → All Q (update_rows r f xs)
  unfolding update_rows
  All-update_map r f k l [] h = tt
  All-update_map r f k l (x ∷ xs) (q, h) = ground (arith, k x, l x, All-update_map r f k l xs h)

module _ {ℓ} {A : Type ℓ} where
  -- every row is among the rows
  pub All-self :
      (near : A → A → Bool)
      → ((x : A) → near x x ≡ true)
      → (xs : List A) → All (λ x. some_row (near x) xs ≡ true) xs
  unfolding some_row
  All-self near same [] = tt
  All-self near same (x ∷ xs) =
      (ground (arith, same x), All-map (λ y h. ground arith) xs (All-self near same xs))

module _ {ℓ κ λ'} {A : Type ℓ} (P : A → Type κ) (Q : A → Type λ') where
  pub All-both : (xs : List A) → All P xs → All Q xs → All (λ x. P x × Q x) xs
  All-both [] h k = tt
  All-both (x ∷ xs) (p, h) (q, k) = ((p, q), All-both xs h k)

module _ {ℓ κ} {A : Type ℓ} {P : A → Type κ} where
  -- no row passes a test that none of the rows with the property passes
  pub some_row-none :
      (q : A → Bool)
      → ((x : A) → P x → q x ≡ false)
      → (xs : List A) → All P xs
      → some_row q xs ≡ false
  unfolding some_row
  some_row-none q f [] h = refl
  some_row-none q f (x ∷ xs) (p, h) = ground (arith, f x p, some_row-none q f xs h)

module _ {ℓ} {A : Type ℓ} (p hit keep : A → Bool) (f : A → A) where
  -- the first row is updated in place and stays the first
  pub first-update :
      (xs : List A) (x : A)
      → first p xs ≡ some x
      → hit x ≡ true
      → All (λ y. hit y ≡ true → y ≡ x) xs
      → p (f x) ≡ true
      → keep (f x) ≡ true
      → first p (select keep (update_rows hit f xs)) ≡ some (f x)
  unfolding first select update_rows
  first-update [] x found e only q k = ground arith
  first-update (y ∷ xs) x found e (same, only) q k = elim (Bool-cases (p y)) [
    | inl here ↦
        let equal : x ≡ y = ground arith in
        let image : f y ≡ f x = ap f (sym equal) in
        let stays : keep (f y) ≡ true = rw image k in
        let passes : p (f y) ≡ true = rw image q in
        let changed : hit y ≡ true = rw (sym equal) e in ground arith
    | inr other ↦
        let later : first p xs ≡ some x = ground arith in
        let passing = first-some p xs later in
        let unchanged : hit y ≡ false = elim (Bool-cases (hit y)) [
          | inl chosen ↦ let equal : p y ≡ p x = ap p (same chosen) in ground arith
          | inr kept ↦ kept
        ] in
        ground (arith, first-update xs x later e only q k)
  ]
