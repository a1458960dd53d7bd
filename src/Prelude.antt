-- ===== src/Prelude.antt =====
-- The names that all parts of the development share.
pub mod Tests
pub mod Equality
pub mod Maps
pub mod Lists
pub mod Int
pub mod Errors
pub mod Sorting
pub mod Decimal
pub use Prim.Native.Nat.{ℕ, zero, suc, ◌+◌, ◌-◌, ◌*◌, ◌/◌, ◌%◌, ◌^◌, ◌≤◌, ◌<◌, min}
pub use mathlib.Core.Bool.{Bool, true, false, not, ◌&&◌, ◌||◌}
pub use mathlib.Core.List.{List, [], ◌∷◌, ◌++◌, map, append_assoc, append-nil}
pub use mathlib.Core.Logic.{◌≢◌, ◌↔◌, ◌⊎◌, inl, inr}
pub use mathlib.Core.Option.{Option, none, some}
pub use mathlib.Core.Path.{◌≡◌, refl, sym, ap, ◌∙◌, subst}
pub use native.Mathlib.Omega.{arith}
pub use Tests.*
pub use Lists.*
unfoldable pub use Lists.{keep}
pub use Equality.{Eq, ◌==◌, Text, codes, text_beq_iff, text_beq_refl, beq_refl, nat_eq, text_eq}
unfoldable pub use Equality.{text_beq}
pub use Maps.{
  Map, values, get-put, get-del, get-put_self, get-put_ne, put-new, get-put-some, get-put_cases,
  get-put_fresh, get-del_self, get-del_ne, map_laws,
}
unfoldable pub use Maps.{get, put, del}
