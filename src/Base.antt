-- ===== src/Base.antt =====
-- The names that every module shares: those of the libraries, passed on, the Boolean tests, the
-- lists measured by native numbers, the dictionaries that stand for std::map, and signed integers.
mod Tests
mod Lists
mod Eq
pub mod Dict
pub mod Int
pub mod Text
pub mod Attempt
pub mod Options
pub mod Keeps
pub mod Bytes
pub mod Find
pub use Tests.*
pub use Lists.*
pub use Text.{◌⧺◌, append-ne-empty}
unfoldable pub use Text.{decimal, hex, to_string}
pub use Eq.{Equality, string_eq, nat_eq, ◌==◌, same_self}
pub use Prim.Native.Nat.{ℕ, zero, suc, ◌+◌, ◌-◌, ◌*◌, ◌/◌, ◌%◌, ◌≤◌, ◌<◌}
pub use Prim.Native.String.{String}
pub use mathlib.Core.Path.{◌≡◌, refl, sym, ap, ◌∙◌, subst}
pub use mathlib.Core.Logic.{◌≢◌, ◌↔◌, ◌⊎◌, inl, inr}
pub use mathlib.Core.Bool.{Bool, true, false, not, ◌&&◌, ◌||◌}
pub use mathlib.Core.Option.{Option, none, some}
pub use mathlib.Core.List.{List, [], ◌∷◌, ◌++◌, map, append-nil, append_assoc}
pub use native.Mathlib.Omega.{arith}
pub use text.Mathlib.TextEquality.{eq_iff}
