-- ===== src/Base/Machine.antt =====
-- The unsigned integers of the program: `usize` with its checked operations, `u64` with its wrap.
use Prim.Native.Nat.{ℕ, ◌+◌, ◌-◌, ◌%◌, ◌^◌, ◌<◌}
use mathlib.Core.Logic.{◌≢◌}
use mathlib.Core.Option.{Option, none, some}
use native.Mathlib.Omega.{arith}
use roused.Base.Tests.{ltb, if◌then◌else◌, ◌==◌}

abbrev pub usize_mod : ℕ
usize_mod = 2 ^ 64

abbrev pub u64_mod : ℕ
u64_mod = 2 ^ 64

-- `usize::checked_add(1)`.
abbrev pub checked_inc : ℕ → Option ℕ
checked_inc n = if ltb (n + 1) usize_mod then some (n + 1) else none

-- `usize::checked_sub(1)`.
abbrev pub checked_dec : ℕ → Option ℕ
checked_dec n = if n == 0 then none else some (n - 1)

-- `u64::wrapping_add(1)`.
abbrev pub wrapping_inc : ℕ → ℕ
wrapping_inc n = (n + 1) % u64_mod

-- A wrapping counter that moved, by less than a full turn, shows another value.
pub wrapping_ne : (g k : ℕ) → g < u64_mod → 0 < k → k < u64_mod → (g + k) % u64_mod ≢ g
wrapping_ne g k h p q = omega arith
