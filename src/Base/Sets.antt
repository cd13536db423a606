-- ===== src/Base/Sets.antt =====
-- Go maps to bool whose keys are ranged over, as lists of their true keys.
use mathlib.Core.Path.{◌≡◌, refl}
use mathlib.Core.Logic.{◌⊎◌}
use mathlib.Core.Bool.{Bool, true, false, ◌||◌}
use mathlib.Core.List.{List, [], ◌∷◌, ◌++◌}
use native.Mathlib.Omega.{arith}
use redlaunch.Base.Strings.{Text, text_eq, text_eq_iff}

-- `m[k]`
unfoldable pub has : Text → List Text → Bool
has k [] = false
has k (j ∷ m) = text_eq j k || has k m

pub has-append : (k : Text) (l m : List Text) → has k (l ++ m) ≡ (has k l || has k m)
unfolding has
has-append k [] m = refl
has-append k (j ∷ l) m = ground (arith, has-append k l m)

pub has-append_right : (k : Text) (l m : List Text) → has k m ≡ true → has k (l ++ m) ≡ true
has-append_right k l m h = ground (arith, has-append k l m)

pub has-append_left : (k : Text) (l m : List Text) → has k l ≡ true → has k (l ++ m) ≡ true
has-append_left k l m h = ground (arith, has-append k l m)

pub has-cons_self : (k : Text) (m : List Text) → has k (k ∷ m) ≡ true
unfolding has
has-cons_self k m = ground (arith, text_eq_iff k k)

pub has-cons : (k j : Text) (m : List Text) → has k m ≡ true → has k (j ∷ m) ≡ true
unfolding has
has-cons k j m h = ground arith

pub has-cons_cases :
    (k j : Text) (m : List Text) → has k (j ∷ m) ≡ true → (j ≡ k) ⊎ (has k m ≡ true)
unfolding has
has-cons_cases k j m h = ground (arith, text_eq_iff j k)
