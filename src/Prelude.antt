-- ===== src/Prelude.antt =====
-- The names that the other modules share: the libraries', passed on, Boolean tests on the native
-- numbers, texts, and the integers of the child `Int`.
mod Tests
mod Lists
mod Int
mod Texts
pub use Tests.*
pub use Texts.{Text, text_eq→eq, text_eq_refl}
unfoldable pub use Texts.{text_eq, trim, is_space}
unfoldable pub use Lists.*
pub use Int.{
  ℤ, pos, negsuc, pos_part, neg_part, sub_ℕ, ◌≤ℤ◌, ltb_ℤ, leb_ℤ, eqb_ℤ, +ℤ_parts, -ℤ_parts,
  eq_of_parts, eqb_ℤ→eq, eqb_ℤ-refl, int_laws, +ℤ-zero, -ℤ_cancel, +ℤ_cancel, int32_max,
}
unfoldable pub use Int.{◌+ℤ◌, ◌-ℤ◌, neg, is_int32}
pub use Prim.Native.Nat.{ℕ, zero, suc, ◌+◌, ◌-◌, ◌*◌, ◌/◌, ◌%◌, ◌^◌, ◌≤◌, ◌<◌, min, max}
pub use mathlib.Core.Path.{◌≡◌, refl, sym, ap, ◌∙◌, subst}
pub use mathlib.Core.Logic.{◌≢◌, ◌↔◌, ◌⊎◌, inl, inr}
pub use mathlib.Core.Bool.{Bool, true, false, not, ◌&&◌, ◌||◌}
pub use mathlib.Core.Option.{Option, none, some}
pub use mathlib.Core.List.{List, [], ◌∷◌, ◌++◌, map}
pub use native.Mathlib.Omega.{arith}
unfoldable pub use native.Mathlib.Decide.{ℕ_discrete}
