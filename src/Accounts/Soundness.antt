-- ===== src/Accounts/Soundness.antt =====
-- The order of the users table, and lemmas on its lists of rows.
use redlaunch.Base.{
  ℕ, suc, ◌≤◌, ◌≡◌, ◌≢◌, refl, sym, subst, inl, inr, ap, ◌∙◌, arith, Bool, true, false, not,
  if◌then◌else◌, Text, [], ◌∷◌, List, map, length, select, All, text_eq, text_eq_iff, Option, none,
  some, Bool-cases,
}
use redlaunch.Accounts.Table.{
  Row, Users, same_text, has_email, has_id, find, update_id, with_password, with_assigned, fold,
}

-- No row of the list has the row's email address.
abbrev pub Unshared : Option Text → List Row → Type 0
Unshared none rows = Unit
Unshared (some email) rows = find (has_email email) rows ≡ none

abbrev pub Distinct : List Row → Type 0
Distinct [] = Unit
Distinct (row ∷ rows) = (find (has_id row.id) rows ≡ none) × Unshared row.email rows × Distinct rows

abbrev pub IsNumbered : ℕ → Row → Type 0
IsNumbered last row = (1 ≤ row.id) × (row.id ≤ last)

-- CHECK(email IS NOT NULL OR legacy_username IS NOT NULL)
abbrev pub IsNamed : Row → Type 0
IsNamed row = (row.email ≡ none) → (row.legacy_username ≢ none)

pub record IsOrderly (db : Users) : Type 0 where
  pub distinct : Distinct db.rows
  pub numbered : All (IsNumbered db.last_id) db.rows
  pub named : All IsNamed db.rows
  pub present : 1 ≤ length db.rows

pub find_fresh :
    (last : ℕ) (rows : List Row) → All (IsNumbered last) rows → find (has_id (suc last)) rows ≡ none
unfolding find
find_fresh last [] h = refl
find_fresh last (row ∷ rows) ((l, u), h) = ground (arith, find_fresh last rows h)

pub find-select :
    (test keep : Row → Bool) (rows : List Row)
    → find test rows ≡ none
    → find test (select keep rows) ≡ none
unfolding find select
find-select test keep [] h = refl
find-select test keep (row ∷ rows) h = ground (arith, find-select test keep rows)

pub Unshared-select :
    (email : Option Text) (keep : Row → Bool) (rows : List Row)
    → Unshared email rows
    → Unshared email (select keep rows)
Unshared-select none keep rows h = tt
Unshared-select (some e) keep rows h = find-select (has_email e) keep rows h

pub Distinct-select :
    (keep : Row → Bool) (rows : List Row) → Distinct rows → Distinct (select keep rows)
unfolding select
Distinct-select keep [] h = tt
Distinct-select keep (row ∷ rows) (i, e, d) =
    elim (keep row) as (λ b. Distinct (if b then row ∷ select keep rows else select keep rows)) [
      | true ↦ (
        find-select _ keep rows i,
        Unshared-select row.email keep rows e,
        Distinct-select keep rows d,
      )
      | false ↦ Distinct-select keep rows d
    ]

not_found :
    (test : Row → Bool) (row : Row) (rows : List Row)
    → find test (row ∷ rows) ≡ none
    → (test row ≡ false) × (find test rows ≡ none)
unfolding find
not_found test row rows h = ground arith

pub length-update_id :
    (id : ℕ) (change : Row → Row) (rows : List Row)
    → length (update_id id change rows) ≡ length rows
unfolding update_id
length-update_id id change [] = refl
length-update_id id change (row ∷ rows) = ap suc (length-update_id id change rows)

select_absent :
    (id : ℕ) (rows : List Row)
    → find (has_id id) rows ≡ none
    → select (λ row. not (has_id id row)) rows ≡ rows
unfolding find select
select_absent id [] h = refl
select_absent id (row ∷ rows) h = ground (arith, select_absent id rows)

pub length-select_one :
    (id : ℕ) (rows : List Row)
    → Distinct rows
    → length rows ≤ suc (length (select (λ row. not (has_id id row)) rows))
unfolding select
length-select_one id [] h = omega arith
length-select_one id (row ∷ rows) (i, e, d) =
    ground (arith, length-select_one id rows d, select_absent id rows)

module _ (id : ℕ) (change : Row → Row) where
  find-update_id :
      (test : Row → Bool)
      → ((row : Row) → test row ≡ false → test (change row) ≡ false)
      → (rows : List Row) → find test rows ≡ none
      → find test (update_id id change rows) ≡ none
  unfolding find update_id
  find-update_id test k [] h = refl
  find-update_id test k (row ∷ rows) h = ground (arith, find-update_id test k rows, k row)

  pub All-update_id :
      (P : Row → Type 0)
      → ((row : Row) → P row → P (change row))
      → (rows : List Row) → All P rows
      → All P (update_id id change rows)
  unfolding update_id
  All-update_id P k [] h = tt
  All-update_id P k (row ∷ rows) (p, h) = (
    elim (has_id id row) as (λ b. P (if b then change row else row)) [ true ↦ k row p | false ↦ p ],
    All-update_id P k rows h,
  )

  pub update_found :
      (row : Row) (rows : List Row)
      → has_id id row ≡ true
      → update_id id change (row ∷ rows) ≡ change row ∷ update_id id change rows
  unfolding update_id
  update_found row rows h = ground arith

  pub update_passed :
      (row : Row) (rows : List Row)
      → has_id id row ≡ false
      → update_id id change (row ∷ rows) ≡ row ∷ update_id id change rows
  unfolding update_id
  update_passed row rows h = ground arith

  pub update_absent :
      (rows : List Row) → find (has_id id) rows ≡ none → update_id id change rows ≡ rows
  unfolding find update_id
  update_absent [] h = refl
  update_absent (row ∷ rows) h = ground (arith, update_absent rows)

text_eq-sym : (s t : Text) → text_eq s t ≡ false → text_eq t s ≡ false
text_eq-sym s t h = ground (arith, text_eq_iff s t, text_eq_iff t s)

module _ (id : ℕ) (now hash : Text) where
  Unshared-with_password :
      (email : Option Text) (rows : List Row)
      → Unshared email rows
      → Unshared email (update_id id (with_password now hash) rows)
  unfolding with_password
  Unshared-with_password none rows h = tt
  Unshared-with_password (some e) rows h = find-update_id id _ (has_email e) (λ row k. k) rows h

  pub Distinct-with_password :
      (rows : List Row) → Distinct rows → Distinct (update_id id (with_password now hash) rows)
  unfolding update_id with_password
  Distinct-with_password [] h = tt
  Distinct-with_password (row ∷ rows) (i, e, d) =
      let ids = find-update_id id (with_password now hash) (has_id row.id) (λ r k. k) rows i in
      let emails = Unshared-with_password row.email rows e in
      let rest = Distinct-with_password rows d in
      elim (has_id id row)
        as (λ b. Distinct (
          (if b then with_password now hash row else row)
          ∷ update_id id (with_password now hash) rows)) [
            | true ↦ (ids, emails, rest)
            | false ↦ (ids, emails, rest)
          ]

module _ (id : ℕ) (now email : Text) where
  Unshared-with_assigned :
      (row : Row) (old : Option Text) (rows : List Row)
      → row.email ≡ old
      → has_email email row ≡ false
      → Unshared old rows
      → Unshared old (update_id id (with_assigned now email) rows)
  unfolding with_assigned
  Unshared-with_assigned row none rows o n h = tt
  Unshared-with_assigned row (some f) rows o n h =
      find-update_id id _ (has_email f)
        (λ r k.
          text_eq-sym (map fold f) (map fold email)
            (subst (λ o. elim o [ none ↦ false | some g ↦ same_text g email ] ≡ false) o n))
        rows h

  assigned-Distinct :
      (row : Row) (rows : List Row)
      → find (has_id row.id) rows ≡ none
      → find (has_email email) rows ≡ none
      → Distinct rows
      → Distinct (with_assigned now email row ∷ rows)
  unfolding with_assigned
  assigned-Distinct row rows i f d = (i, f, d)

  pub Distinct-with_assigned :
      (rows : List Row)
      → find (has_email email) rows ≡ none
      → Distinct rows
      → Distinct (update_id id (with_assigned now email) rows)
  unfolding with_assigned update_id
  Distinct-with_assigned [] f h = tt
  Distinct-with_assigned (row ∷ rows) f (i, e, d) =
      let (other, tail) = not_found (has_email email) row rows f in
      elim (Bool-cases (has_id id row)) [
        | inl b ↦
            let same =
              update_absent id (with_assigned now email) rows
                (subst (λ j. find (has_id j) rows ≡ none) (ground arith) i) in
            subst Distinct
              (sym (
                update_found id (with_assigned now email) row rows b
                ∙ ap (λ rs. with_assigned now email row ∷ rs) same))
              (assigned-Distinct row rows i tail d)
        | inr b ↦ subst Distinct (sym (update_passed id (with_assigned now email) row rows b)) (
          find-update_id id _ (has_id row.id) (λ r k. k) rows i,
          Unshared-with_assigned row row.email rows refl other e,
          Distinct-with_assigned rows tail d,
        )
      ]
