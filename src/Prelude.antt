-- ===== src/Prelude.antt =====
-- The names that every module shares: the libraries', passed on, the Boolean tests, lists measured
-- by native numbers, and the results of fallible and state-changing code.
mod Tests
mod Lists
pub mod Exec
pub mod Sort
pub mod Members
pub use Tests.*
pub use Lists.*
pub use Exec.{Result, ok, err, panicked, map_err, try_, ok-injective, Result-cases}
pub use Prim.Native.Nat.{ℕ, zero, suc, ◌+◌, ◌-◌, ◌*◌, ◌/◌, ◌%◌, ◌^◌, ◌≤◌, ◌<◌, min}
pub use mathlib.Core.Path.{◌≡◌, refl, sym, ap, ap₂, ◌∙◌, fun_ext, ◌≡⟨◌⟩◌, ◌∎}
pub use mathlib.Core.Logic.{◌≢◌, ◌↔◌, ◌⊎◌, inl, inr}
pub use mathlib.Core.Bool.{Bool, true, false, not, ◌&&◌, ◌||◌}
pub use mathlib.Core.Option.{Option, none, some}
pub use mathlib.Core.List.{List, [], ◌∷◌, ◌++◌, map, append-nil, append_assoc}
pub use native.Mathlib.Omega.{arith}
