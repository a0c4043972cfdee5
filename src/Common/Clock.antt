-- ===== src/Common/Clock.antt =====
-- `Instant` and `Duration` as numbers of nanoseconds; an `Instant` counts from the process's epoch.
-- `now.duration_since(t)` and `now - t` stop at zero, as the truncated subtraction does.
use Prim.Native.Nat.{ℕ, ◌*◌}

abbrev pub nanos_per_sec : ℕ
nanos_per_sec = 1_000_000_000

abbrev pub nanos_per_milli : ℕ
nanos_per_milli = 1_000_000

-- `Duration::from_secs`
abbrev pub from_secs : ℕ → ℕ
from_secs n = n * nanos_per_sec

-- `Duration::from_millis`
abbrev pub from_millis : ℕ → ℕ
from_millis n = n * nanos_per_milli
