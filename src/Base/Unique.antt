-- ===== src/Base/Unique.antt =====
-- Tables in which each key stands once, as Go maps have it.
use Prim.Native.Nat.{◌≤◌}
use mathlib.Core.Path.{◌≡◌, refl}
use mathlib.Core.Bool.{Bool}
use mathlib.Core.Option.{Option, none, some}
use mathlib.Core.List.{[], ◌∷◌}
use native.Mathlib.Omega.{arith}
use redlaunch.Base.Tests.{if◌then◌else◌}
use redlaunch.Base.Lists.{length}
use redlaunch.Base.Strings.{Text, text_eq_iff}
use redlaunch.Base.Assoc.{Table, lookup, erase, insert, retain, lookup-erase, length-erase-le}

module _ {ℓ} {V : Type ℓ} where
  abbrev pub IsUnique : Table V → Type ℓ
  IsUnique [] = Unit
  IsUnique ((k, v) ∷ m) = (lookup k m ≡ none) × IsUnique m

  -- the entry of a key that passes the test
  abbrev pub kept : (V → Bool) → Option V → Option V
  kept keep none = none
  kept keep (some v) = if keep v then some v else none

  pub lookup-retain :
      (keep : V → Bool) (k : Text) (m : Table V)
      → IsUnique m
      → lookup k (retain keep m) ≡ kept keep (lookup k m)
  unfolding lookup retain
  lookup-retain keep k [] h = refl
  lookup-retain keep k ((j, v) ∷ m) (n, h) =
      ground (arith, lookup-retain keep k m h, text_eq_iff j k)

  pub retain-IsUnique : (keep : V → Bool) (m : Table V) → IsUnique m → IsUnique (retain keep m)
  unfolding retain
  retain-IsUnique keep [] h = tt
  retain-IsUnique keep ((j, v) ∷ m) (n, h) =
      ground (arith, retain-IsUnique keep m h, lookup-retain keep j m h)

  erase-IsUnique : (k : Text) (m : Table V) → IsUnique m → IsUnique (erase k m)
  unfolding erase
  erase-IsUnique k [] h = tt
  erase-IsUnique k ((j, v) ∷ m) (n, h) = ground (arith, erase-IsUnique k m h, lookup-erase k j m)

  pub insert-IsUnique : (k : Text) (v : V) (m : Table V) → IsUnique m → IsUnique (insert k v m)
  unfolding insert
  insert-IsUnique k v m h =
      (ground (arith, lookup-erase k k m, text_eq_iff k k), erase-IsUnique k m h)

  -- an insertion under a key that is there makes the table no longer
  pub length-insert-present :
      (k : Text) (v w : V) (m : Table V) → lookup k m ≡ some w → length (insert k v m) ≤ length m
  unfolding insert lookup erase
  length-insert-present k v w [] h = cc
  length-insert-present k v w ((j, u) ∷ m) h =
      ground (arith, length-erase-le k m, length-insert-present k v w m)
