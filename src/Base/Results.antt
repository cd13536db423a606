-- ===== src/Base/Results.antt =====
-- Results of Go functions that return an error: a value or an error, never both.
use mathlib.Core.Path.{◌≡◌, refl}
use mathlib.Core.Logic.{◌⊎◌, inl, inr}
use mathlib.Core.Option.{Option, some}
use native.Mathlib.Omega.{arith}

pub data Result (E A : Type 0) : Type 0 where
  err : E → Result E A
  ok : A → Result E A

-- `if err != nil { return …, err }`
infixl 5 ◌>>=◌
abbrev pub ◌>>=◌ : {E A B : Type 0} → Result E A → (A → Result E B) → Result E B
err failure >>= next = err failure
ok value >>= next = next value

module _ {E A B : Type 0} where
  -- what a chain that succeeds has gone through
  pub >>=-eq-ok :
      (first : Result E A) (next : A → Result E B) {b : B}
      → (first >>= next) ≡ ok b
      → (value : A) × (first ≡ ok value) × (next value ≡ ok b)
  >>=-eq-ok (err failure) next h = cc
  >>=-eq-ok (ok value) next h = (value, refl, h)

  -- where a chain that fails has failed
  pub >>=-eq-err :
      (first : Result E A) (next : A → Result E B) {e : E}
      → (first >>= next) ≡ err e
      → (first ≡ err e) ⊎ ((value : A) × (first ≡ ok value) × (next value ≡ err e))
  >>=-eq-err (err failure) next h = inl (ground arith)
  >>=-eq-err (ok value) next h = inr (value, refl, h)

pub Result-cases :
    {E A : Type 0} (r : Result E A) → ((e : E) × (r ≡ err e)) ⊎ ((a : A) × (r ≡ ok a))
Result-cases (err failure) = inl (failure, refl)
Result-cases (ok value) = inr (value, refl)

abbrev pub IsOk : {E A : Type 0} → Result E A → Type 0
IsOk (err failure) = ⊥
IsOk (ok value) = Unit

pub ok_injective : {E A : Type 0} {a b : A} → ◌≡◌ {A = Result E A} (ok a) (ok b) → a ≡ b
ok_injective h = cc

pub some_injective : {A : Type 0} {a b : A} → ◌≡◌ {A = Option A} (some a) (some b) → a ≡ b
some_injective h = cc
