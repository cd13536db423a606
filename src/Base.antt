-- ===== src/Base.antt =====
-- The names that the components share: the libraries', passed on, and those of the children.
mod Tests
mod Lists
mod Strings
mod Results
mod Sets
pub mod Trimming
pub mod Unique
pub mod Number
pub mod Assoc
pub use Tests.*
pub use Lists.{
  length, length-append, length-select-le, select-select, All, All-append, All-map, All-select,
}
unfoldable pub use Lists.{select, take}
pub use Strings.{
  Text, codes, text_eq_iff, text_eq_refl, cut_prefix-append, cut_prefix_sound, Lacks, split-Lacks,
  split-append, NoSpace, is_blank, is_hex_digit, trim_space-NoSpace,
}
unfoldable pub use Strings.{
  text_eq, text_lt, rune_len, len, is_space, trim_space, cut_prefix, cut, split, is_control,
  any_char, every_char, fields, is_hex,
}
pub use Results.{
  Result, ok, err, ◌>>=◌, >>=-eq-ok, >>=-eq-err, Result-cases, IsOk, ok_injective, some_injective,
}
pub use Sets.{
  has-append, has-append_left, has-append_right, has-cons, has-cons_self, has-cons_cases,
}
unfoldable pub use Sets.{has}
pub use Prim.Native.Nat.{ℕ, zero, suc, ◌+◌, ◌-◌, ◌*◌, ◌/◌, ◌%◌, ◌^◌, ◌≤◌, ◌<◌}
pub use mathlib.Core.Path.{◌≡◌, refl, sym, subst, ap, ◌∙◌}
pub use mathlib.Core.Logic.{◌≢◌, ◌↔◌, ◌⊎◌, inl, inr}
pub use mathlib.Core.Bool.{Bool, true, false, not, ◌&&◌, ◌||◌}
pub use mathlib.Core.Option.{Option, none, some}
pub use mathlib.Core.List.{List, [], ◌∷◌, ◌++◌, map, append_assoc, append-nil}
pub use native.Mathlib.Omega.{arith}
