-- ===== src/Base/Number.antt =====
-- Signed machine integers and their decimal texts: `int64` values, strconv.ParseInt in base 10 and
-- strconv.FormatInt.
use Prim.Native.Nat.{ℕ, zero, suc, ◌+◌, ◌-◌, ◌*◌, ◌/◌, ◌%◌, ◌^◌, ◌≤◌, ◌<◌}
use mathlib.Core.Path.{◌≡◌, refl, ◌∙◌}
use mathlib.Core.Logic.{◌≢◌, inl, inr}
use mathlib.Core.Bool.{Bool, true, false, ◌&&◌}
use mathlib.Core.Option.{Option, none, some}
use mathlib.Core.List.{[], ◌∷◌, ◌++◌, concat-ne-nil}
use native.Mathlib.Omega.{arith}
use redlaunch.Base.Tests.{ltb, leb, ◌==◌, if◌then◌else◌, Bool-cases}
use redlaunch.Base.Lists.{All, All-append}
use redlaunch.Base.Strings.{Text}

-- `negsuc n` is -(n + 1)
pub data ℤ : Type 0 where
  pos : ℕ → ℤ
  negsuc : ℕ → ℤ

-- `z > 0`
abbrev pub is_positive : ℤ → Bool
is_positive (pos n) = ltb 0 n
is_positive (negsuc n) = false

-- `z < 0`
abbrev pub is_negative : ℤ → Bool
is_negative (pos n) = false
is_negative (negsuc n) = true

unfoldable pub int_eq : ℤ → ℤ → Bool
int_eq (pos m) (pos n) = m == n
int_eq (pos m) (negsuc n) = false
int_eq (negsuc m) (pos n) = false
int_eq (negsuc m) (negsuc n) = m == n

pub int_eq_iff : (x y : ℤ) → int_eq x y ≡ true → x ≡ y
unfolding int_eq
int_eq_iff (pos m) (pos n) h = ground arith
int_eq_iff (pos m) (negsuc n) h = cc
int_eq_iff (negsuc m) (pos n) h = cc
int_eq_iff (negsuc m) (negsuc n) h = ground arith

pub int_eq_refl : (x : ℤ) → int_eq x x ≡ true
unfolding int_eq
int_eq_refl (pos m) = ground arith
int_eq_refl (negsuc m) = ground arith

-- `x <= y`
unfoldable pub int_leb : ℤ → ℤ → Bool
int_leb (pos m) (pos n) = leb m n
int_leb (pos m) (negsuc n) = false
int_leb (negsuc m) (pos n) = true
int_leb (negsuc m) (negsuc n) = leb n m

abbrev pub max_int64 : ℕ
max_int64 = 2 ^ 63 - 1

-- the number that digits spell behind `n`; `none` on another character
unfoldable pub digits : Text → ℕ → Option ℕ
digits [] n = some n
digits (c ∷ s) n = if leb 48 c && leb c 57 then digits s (n * 10 + (c - 48)) else none

positive_int : Text → Option ℤ
unfolding digits
positive_int [] = none
positive_int (c ∷ s) = elim (digits (c ∷ s) 0) [
  | none ↦ none
  | some n ↦ if leb n max_int64 then some (pos n) else none
]

negative_int : Text → Option ℤ
unfolding digits
negative_int [] = none
negative_int (c ∷ s) = elim (digits (c ∷ s) 0) [
  | none ↦ none
  | some n ↦ if n == 0 then some (pos 0) else if leb n (2 ^ 63) then some (negsuc (n - 1)) else none
]

-- strconv.ParseInt(s, 10, 64), and strconv.Atoi where int has 64 bits; `none` is an error
unfoldable pub parse_int : Text → Option ℤ
unfolding positive_int negative_int
parse_int [] = none
parse_int (c ∷ s) =
    if c == b'+' then positive_int s else if c == b'-' then negative_int s else positive_int (c ∷ s)

-- `fuel` rounds of division by ten; `n < fuel` is enough
show : ℕ → ℕ → Text
show zero n = []
show (suc f) n =
    let more = show f (n / 10) ++ (48 + n % 10) ∷ [] in if ltb n 10 then (48 + n) ∷ [] else more

unfoldable pub format_nat : ℕ → Text
unfolding show
format_nat n = show (suc n) n

-- strconv.FormatInt(z, 10)
unfoldable pub format_int : ℤ → Text
unfolding format_nat
format_int (pos n) = format_nat n
format_int (negsuc n) = b'-' ∷ format_nat (suc n)

abbrev pub IsDigit : ℕ → Type 0
IsDigit c = (48 ≤ c) × (c ≤ 57)

show-IsDigit : (f n : ℕ) → All IsDigit (show f n)
unfolding show
show-IsDigit zero n = tt
show-IsDigit (suc f) n =
    ground
      (arith, All-append IsDigit (show f (n / 10)) ((48 + n % 10) ∷ []) (show-IsDigit f (n / 10)))

pub format_nat-IsDigit : (n : ℕ) → All IsDigit (format_nat n)
unfolding format_nat
format_nat-IsDigit n = show-IsDigit (suc n) n

digits-append : (s t : Text) (n m : ℕ) → digits s n ≡ some m → digits (s ++ t) n ≡ digits t m
unfolding digits
digits-append [] t n m h = ground arith
digits-append (c ∷ s) t n m h = ground (arith, digits-append s t (n * 10 + (c - 48)) m)

digits_last : (n : ℕ) → digits ((48 + n % 10) ∷ []) (n / 10) ≡ some n
unfolding digits
digits_last n = ground arith

digits_one : (n : ℕ) → n < 10 → digits ((48 + n) ∷ []) 0 ≡ some n
unfolding digits
digits_one n h = ground arith

digits-show : (f n : ℕ) → n < f → digits (show f n) 0 ≡ some n
unfolding show
digits-show zero n h = absurd (omega arith)
digits-show (suc f) n h = elim (Bool-cases (ltb n 10)) [
  | inl small ↦ rw small (ground (arith, digits_one n))
  | inr large ↦ rw large (
      digits-append (show f (n / 10)) _ 0 (n / 10) (digits-show f (n / 10) (ground arith))
      ∙ digits_last n)
]

digits-format_nat : (n : ℕ) → digits (format_nat n) 0 ≡ some n
unfolding format_nat
digits-format_nat n = digits-show (suc n) n (omega arith)

show-ne-nil : (f n : ℕ) → show (suc f) n ≢ []
unfolding show
show-ne-nil f n = ground (arith, concat-ne-nil (48 + n % 10) (show f (n / 10)))

pub format_nat-ne-nil : (n : ℕ) → format_nat n ≢ []
unfolding format_nat
format_nat-ne-nil n = show-ne-nil n n

parse_int-digits :
    (s : Text) (n : ℕ)
    → s ≢ []
    → All IsDigit s
    → digits s 0 ≡ some n
    → n ≤ max_int64
    → parse_int s ≡ some (pos n)
unfolding parse_int
parse_int-digits [] n h d e b = absurd (h refl)
parse_int-digits (c ∷ s) n h d e b = ground arith

-- a printed number that fits is read back
pub parse_int-format_nat : (n : ℕ) → n ≤ max_int64 → parse_int (format_nat n) ≡ some (pos n)
parse_int-format_nat n b =
    parse_int-digits (format_nat n) n (format_nat-ne-nil n) (format_nat-IsDigit n)
      (digits-format_nat n) b

-- what is read fits into the machine word
pub parse_int-le : (s : Text) (n : ℕ) → parse_int s ≡ some (pos n) → n ≤ max_int64
unfolding parse_int
parse_int-le [] n h = cc
parse_int-le (c ∷ []) n h = ground arith
parse_int-le (c ∷ d ∷ s) n h = ground arith
