-- ===== src/Base.antt =====
-- What the modules share: names of the libraries passed on, and those of the children. `Tests` has
-- Boolean tests on numbers, `Lists` lists measured by native numbers, `Duration` the arithmetic of
-- `std::time`, `Machine` the integers of the program's types, and `Text` strings as code points,
-- `Utf8` their bytes, `PathBuf` paths and `Result` results.
pub mod Tests
pub mod Lists
pub mod Positions
pub mod Duration
pub mod Machine
pub mod Text
pub mod Result
pub mod Path
pub mod Utf8
pub use Tests.*
pub use Lists.*
pub use Positions.*
pub use Prim.Native.Nat.{ℕ, zero, suc, ◌+◌, ◌-◌, ◌*◌, ◌/◌, ◌%◌, ◌^◌, ◌≤◌, ◌<◌}
pub use mathlib.Core.Path.{◌≡◌, refl, sym, ap, ◌∙◌, subst}
pub use mathlib.Core.Logic.{◌≢◌, ◌↔◌, ◌⊎◌, inl, inr}
pub use mathlib.Core.Bool.{Bool, true, false, not, ◌&&◌, ◌||◌}
pub use mathlib.Core.Option.{Option, none, some}
pub use mathlib.Core.List.{List, [], ◌∷◌, ◌++◌, map}
pub use native.Mathlib.Omega.{arith}
