-- ===== src/Prelude.antt =====
-- Names and lemmas that the components share. A `HashMap` is an association list (`Prelude/Maps`),
-- text is a list of bytes (`Prelude/Texts`), machine words are native numbers (`Prelude/Words`).
mod Tests
mod Lists
pub use Tests.{
  ltb, leb, ◌==◌, if◌then◌else◌, ==_iff, leb→le, ltb-ge, Bool-cases, Option-cases, if_keeps, Key,
  number_key, Text, text_eq_iff, text_key,
}
unfoldable pub use Tests.{text_eq}
pub use Lists.{
  length, get_elem?, take, drop, length-append, take-append, drop-append, length-drop, length-take,
  take-drop, take-length, All, any-append,
}
unfoldable pub use Lists.{any, all, contains}
pub use Prim.Native.Nat.{ℕ, zero, suc, ◌+◌, ◌-◌, ◌*◌, ◌/◌, ◌%◌, ◌^◌, ◌≤◌, ◌<◌}
pub use Prim.Native.Nat.{bit_and, bit_or}
pub use mathlib.Core.Path.{◌≡◌, refl, sym, ap, subst, ◌∙◌, fun_ext}
pub use mathlib.Core.Logic.{◌≢◌, ◌↔◌, ◌⊎◌, inl, inr}
pub use mathlib.Core.Bool.{Bool, true, false, not, ◌&&◌, ◌||◌}
pub use mathlib.Core.Option.{Option, none, some}
pub use mathlib.Core.List.{List, [], ◌∷◌, ◌++◌, map}
pub use native.Mathlib.Omega.{arith}
