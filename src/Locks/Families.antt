-- ===== src/Locks/Families.antt =====
-- Families indexed by numbers, for the objects on the heap and for the callers of the lock manager:
-- update at one index, and weighted sums over the first `n` members.
use redlaunch.Base.{ℕ, zero, suc, ◌+◌, ◌≤◌, ◌<◌, ◌≡◌, refl, ◌==◌, if◌then◌else◌, arith}
use native.Mathlib.Decide.{dec_lt, ℕ_discrete}

module _ {ℓ} {A : Type ℓ} where
  -- the family with `a` at index `i`
  unfoldable pub put : ℕ → A → (ℕ → A) → ℕ → A
  put i a f j = if i == j then a else f j

module _ {ℓ} {A : Type ℓ} (weight : A → ℕ) where
  unfoldable pub sum : ℕ → (ℕ → A) → ℕ
  sum zero f = 0
  sum (suc n) f = weight (f n) + sum n f

  sum-put_beyond : (n i : ℕ) (a : A) (f : ℕ → A) → n ≤ i → sum n (put i a f) ≡ sum n f
  unfolding sum put
  sum-put_beyond zero i a f h = refl
  sum-put_beyond (suc n) i a f h = ground (arith, sum-put_beyond n i a f)

  pub sum-put :
      (n i : ℕ) (a : A) (f : ℕ → A) → i < n → sum n (put i a f) + weight (f i) ≡ sum n f + weight a
  unfolding sum put
  sum-put zero i a f h = absurd (omega arith)
  sum-put (suc n) i a f h = elim (dec_lt i n) [
    | yes below ↦ ground (arith, sum-put n i a f below)
    | no last ↦ ground (arith, sum-put_beyond n i a f)
  ]

  pub sum-zero : (n : ℕ) (f : ℕ → A) → ((i : ℕ) → weight (f i) ≡ 0) → sum n f ≡ 0
  unfolding sum
  sum-zero zero f h = refl
  sum-zero (suc n) f h = omega (arith, h n, sum-zero n f h)

  pub weight-le-sum : (n i : ℕ) (f : ℕ → A) → i < n → weight (f i) ≤ sum n f
  unfolding sum
  weight-le-sum zero i f h = absurd (omega arith)
  weight-le-sum (suc n) i f h = elim (dec_lt i n) [
    | yes below ↦ omega (arith, weight-le-sum n i f below)
    | no last ↦ ground arith
  ]

  -- a sum that is not zero has a member that is not zero
  pub sum_member : (n : ℕ) (f : ℕ → A) → 0 < sum n f → (i : ℕ) × (i < n) × (0 < weight (f i))
  unfolding sum
  sum_member zero f h = absurd (omega arith)
  sum_member (suc n) f h = elim (dec_lt 0 (weight (f n))) [
    | yes last ↦ (n, omega arith, last)
    | no rest ↦ let (i, b, w) = sum_member n f (omega arith) in (i, omega arith, w)
  ]

  -- of a sum of at most one, no two members weigh something
  pub sum_only :
      (n i j : ℕ) (f : ℕ → A)
      → i < n
      → j < n
      → sum n f ≤ 1
      → 0 < weight (f i)
      → 0 < weight (f j)
      → i ≡ j
  unfolding sum
  sum_only zero i j f hi hj s wi wj = absurd (omega arith)
  sum_only (suc n) i j f hi hj s wi wj = elim (ℕ_discrete i n) [
    | yes ei ↦ elim (ℕ_discrete j n) [
      | yes ej ↦ omega arith
      | no nj ↦ ground (arith, weight-le-sum n j f)
    ]
    | no ni ↦ elim (ℕ_discrete j n) [
      | yes ej ↦ ground (arith, weight-le-sum n i f)
      | no nj ↦ sum_only n i j f (omega arith) (omega arith) (omega arith) wi wj
    ]
  ]
