-- ===== src/Base.antt =====
-- The names that the other modules share: the libraries', passed on, and those of the children.
mod Tests
mod Lists
pub mod Dict
pub mod NatDict
pub mod Int
pub mod Decimal
pub use Tests.{
  ltb, leb, eqb, ◌==◌, if◌then◌else◌, is_empty, Bool-cases, Option-cases, ==_refl, ==→≡, ==-false,
  if-cases, ◌>>=◌,
}
unfoldable pub use Tests.{String_discrete}
pub use Lists.{
  length, get_elem?, drop, replicate, All, length-append, All-append, In, In-append_left,
  In-append_right,
}
pub use Prim.Native.Nat.{ℕ, zero, suc, ◌+◌, ◌-◌, ◌*◌, ◌/◌, ◌%◌, ◌^◌, ◌≤◌, ◌<◌, min}
pub use Prim.Native.String.{String}
pub use mathlib.Core.Path.{◌≡◌, refl, sym, ap, subst, ◌∙◌}
pub use mathlib.Core.Logic.{◌≢◌, ◌↔◌, ◌⊎◌, inl, inr, ite}
pub use mathlib.Core.Bool.{Bool, true, false, not, ◌&&◌, ◌||◌}
pub use mathlib.Core.Option.{Option, none, some}
pub use mathlib.Core.List.{List, [], ◌∷◌, ◌++◌, map}
pub use native.Mathlib.Omega.{arith}
unfoldable pub use native.Mathlib.Decide.{ℕ_discrete}
