-- ===== src/Base/Time.antt =====
-- Points of time (`time.Time`) and durations, in nanoseconds.
use Prim.Native.Nat.{ℕ}
use mathlib.Core.Bool.{Bool}
use accounts.Base.Tests.{◌==◌}

-- 0 is the zero time, and every other point counts from it; no time before it is represented.
abbrev pub Time : Type 0
Time = ℕ

-- `t.IsZero()`
abbrev pub is_zero : Time → Bool
is_zero t = t == 0
