-- ===== src/Prelude.antt =====
-- The names that the other modules share: the libraries', passed on, and those of the children.
-- `HashMap` and `HashSet` of the Rust code are the maps of `Prelude.Map` and the sets of `Prelude.Set`.
pub mod Tests
pub mod Lists
pub mod Eq
pub mod Map
pub mod Set
pub mod Chunks
pub use Prim.Native.Nat.{ℕ, zero, suc, ◌+◌, ◌-◌, ◌*◌, ◌/◌, ◌%◌, ◌^◌, ◌≤◌, ◌<◌}
pub use mathlib.Core.Path.{◌≡◌, refl, sym, ap, ap₂, ◌∙◌, subst}
pub use mathlib.Core.Logic.{◌≢◌, ◌↔◌, ◌⊎◌, inl, inr}
pub use mathlib.Core.Bool.{Bool, true, false, not, ◌&&◌, ◌||◌}
pub use mathlib.Core.Option.{Option, none, some}
pub use mathlib.Core.List.{List, [], ◌∷◌, ◌++◌, map, append_assoc, append-nil}
pub use native.Mathlib.Omega.{arith}
pub use Tests.{
  ltb, leb, ◌==◌, if◌then◌else◌, ltb→lt, lt→ltb, leb→le, ==_iff, ==_refl, tests, Bool-cases,
  Option-cases, get_or, is_some, is_none, then_some,
}
pub use Lists.{
  length, get_elem?, take, drop, length-append, is_empty, filter_by, any_by, All, All-append,
  any_by-append, any_by-weaken, for_each, for_each-any_by, for_each-keeps,
}
