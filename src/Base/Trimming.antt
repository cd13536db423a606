-- ===== src/Base/Trimming.antt =====
-- strings.TrimSpace, strings.Cut and the length in bytes at texts put together from parts.
use Prim.Native.Nat.{ℕ, ◌+◌}
use mathlib.Core.Path.{◌≡◌}
use mathlib.Core.Bool.{true, false}
use mathlib.Core.List.{[], ◌∷◌, ◌++◌, reverse, reverse-append, reverse-reverse}
use mathlib.Core.Option.{some}
use native.Mathlib.Omega.{arith}
use redlaunch.Base.Strings.{cut, Lacks, Text, len, is_space, trim_left, trim_space}

pub len-append : (s t : Text) → len (s ++ t) ≡ len s + len t
unfolding len
len-append [] t = omega arith
len-append (c ∷ s) t = omega (arith, len-append s t)

-- a text that begins with something to be seen
abbrev pub Solid : Text → Type 0
Solid [] = ⊥
Solid (c ∷ s) = is_space c ≡ false

pub Solid-append : (s t : Text) → Solid s → Solid (s ++ t)
Solid-append [] t h = elim h [ ]
Solid-append (c ∷ s) t h = h

trim_left-Solid : (s : Text) → Solid s → trim_left s ≡ s
unfolding trim_left
trim_left-Solid [] h = elim h [ ]
trim_left-Solid (c ∷ s) h = rw h

-- a last space is trimmed, and nothing else from a text whose ends can be seen
pub trim_space-last :
    (s : Text) (c : ℕ)
    → Solid s
    → Solid (reverse s)
    → is_space c ≡ true
    → trim_space (s ++ c ∷ []) ≡ s
unfolding trim_space trim_left
trim_space-last s c first last h =
    rw
      (
        trim_left-Solid (s ++ c ∷ []) (Solid-append s (c ∷ []) first),
        reverse-append,
        h,
        trim_left-Solid (reverse s) last,
      )
      (reverse-reverse s)

-- a text whose ends can be seen is left alone
pub trim_space-Solid : (s : Text) → Solid s → Solid (reverse s) → trim_space s ≡ s
unfolding trim_space
trim_space-Solid s first last =
    rw (trim_left-Solid s first, trim_left-Solid (reverse s) last) (reverse-reverse s)

pub cut-append : (sep : ℕ) (a b : Text) → Lacks sep a → cut sep (a ++ sep ∷ b) ≡ some (a, b)
unfolding cut
cut-append sep [] b h = ground arith
cut-append sep (c ∷ a) b (n, h) = rw (cut-append sep a b h) (ground arith)
