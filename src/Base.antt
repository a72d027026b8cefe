-- ===== src/Base.antt =====
-- The names that every module shares: the libraries' numbers, paths, options and lists, passed on,
-- with the tests, the list functions and the machine words of the child modules.
mod Tests
mod Lists
mod Word
mod Literal
pub mod Int
pub use Tests.*
pub use Lists.*
pub use Word.*
pub use Literal.*
pub use Prim.Native.Nat.{
  ℕ, zero, suc, ◌+◌, ◌-◌, ◌*◌, ◌/◌, ◌%◌, ◌^◌, ◌≤◌, ◌<◌, min, max, bit_and, bit_or,
}
pub use mathlib.Core.Path.{◌≡◌, refl, sym, ap, ap₂, ◌∙◌, fun_ext}
pub use mathlib.Core.Logic.{◌≢◌, ◌↔◌, ◌⊎◌, inl, inr}
pub use mathlib.Core.Bool.{Bool, true, false, not, ◌&&◌, ◌||◌}
pub use mathlib.Core.Option.{Option, none, some}
pub use mathlib.Core.List.{
  List, [], ◌∷◌, ◌++◌, map, append-nil, append_assoc, reverse-append, reverse_aux-append,
}
unfoldable pub use mathlib.Core.List.{reverse_aux, reverse}
pub use native.Mathlib.Omega.{arith}
unfoldable pub use native.Mathlib.Decide.{dec_lt, dec_le, ℕ_discrete}
