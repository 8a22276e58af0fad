-- ===== src/Base/Duration.antt =====
-- `std::time::{Instant, Duration}` as numbers of nanoseconds. An instant has no upper bound here.
use Prim.Native.Nat.{ℕ, ◌-◌, ◌*◌}
use mathlib.Core.Option.{Option, none, some}
use roused.Base.Tests.{leb, if◌then◌else◌}

abbrev pub from_millis : ℕ → ℕ
from_millis n = n * 1_000_000

abbrev pub from_secs : ℕ → ℕ
from_secs n = n * 1_000_000_000

-- `Instant::saturating_duration_since`: zero if the other instant is later.
abbrev pub saturating_duration_since : ℕ → ℕ → ℕ
saturating_duration_since now earlier = now - earlier

-- `Instant::checked_duration_since`: `none` if the other instant is later.
abbrev pub checked_duration_since : ℕ → ℕ → Option ℕ
checked_duration_since now earlier = if leb earlier now then some (now - earlier) else none
