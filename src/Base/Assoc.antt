-- ===== src/Base/Assoc.antt =====
-- Go maps with string keys, as association lists. A key stands in a map once, since `insert`
-- replaces an entry; `lookup` is `m[k]` with its second result.
use mathlib.Core.Path.{◌≡◌}
use mathlib.Core.Bool.{Bool}
use mathlib.Core.Option.{Option, none, some}
use mathlib.Core.List.{List, [], ◌∷◌}
use Prim.Native.Nat.{◌+◌, ◌≤◌}
use native.Mathlib.Omega.{arith}
use redlaunch.Base.Tests.{if◌then◌else◌}
use redlaunch.Base.Lists.{length}
use redlaunch.Base.Strings.{Text, text_eq, text_eq_iff}

abbrev pub Table {ℓ} : Type ℓ → Type ℓ
Table V = List (Text × V)

module _ {ℓ} {V : Type ℓ} where
  unfoldable pub lookup : Text → Table V → Option V
  lookup k [] = none
  lookup k ((j, v) ∷ m) = if text_eq j k then some v else lookup k m

  -- delete(m, k)
  unfoldable pub erase : Text → Table V → Table V
  erase k [] = []
  erase k ((j, v) ∷ m) = if text_eq j k then erase k m else (j, v) ∷ erase k m

  -- m[k] = v
  unfoldable pub insert : Text → V → Table V → Table V
  unfolding erase
  insert k v m = (k, v) ∷ erase k m

  -- the entries for which `keep` holds: `for k, v := range m { if !keep(v) { delete(m, k) } }`
  unfoldable pub retain : (V → Bool) → Table V → Table V
  retain keep [] = []
  retain keep ((j, v) ∷ m) = if keep v then (j, v) ∷ retain keep m else retain keep m

  pub lookup-erase :
      (k j : Text) (m : Table V) → lookup j (erase k m) ≡ (if text_eq k j then none else lookup j m)
  unfolding lookup erase
  lookup-erase k j [] = ground arith
  lookup-erase k j ((i, v) ∷ m) =
      ground (arith, lookup-erase k j m, text_eq_iff i k, text_eq_iff i j, text_eq_iff k j)

  pub lookup-insert :
      (k j : Text) (v : V) (m : Table V)
      → lookup j (insert k v m) ≡ (if text_eq k j then some v else lookup j m)
  unfolding lookup insert
  lookup-insert k j v m = ground (arith, lookup-erase k j m)

  pub length-erase-le : (k : Text) (m : Table V) → length (erase k m) ≤ length m
  unfolding erase
  length-erase-le k [] = omega arith
  length-erase-le k ((j, v) ∷ m) = ground (arith, length-erase-le k m)

  pub length-insert-le : (k : Text) (v : V) (m : Table V) → length (insert k v m) ≤ length m + 1
  unfolding insert
  length-insert-le k v m = omega (arith, length-erase-le k m)

  pub length-retain-le : (keep : V → Bool) (m : Table V) → length (retain keep m) ≤ length m
  unfolding retain
  length-retain-le keep [] = omega arith
  length-retain-le keep ((j, v) ∷ m) = ground (arith, length-retain-le keep m)
