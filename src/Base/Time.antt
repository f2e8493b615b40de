-- ===== src/Base/Time.antt =====
-- `time.Time` as an instant: nanoseconds since 367 days before Go's zero time (1 January of year 1,
-- UTC), so that every time stamp the decoder accepts (years 0000 to 9999, offsets below a day) is
-- a number. Durations are int64 nanoseconds.
use Prim.Native.Nat.{ℕ, ◌+◌, ◌-◌}
use mathlib.Core.Bool.{Bool}
use assembled_watchtower.Base.Tests.{◌==◌}
use assembled_watchtower.Base.Int.{ℤ, pos_part, neg_part}

abbrev pub Time : Type 0
Time = ℕ

-- The zero value of `time.Time`.
abbrev pub zero_time : Time
zero_time = 31708800000000000

-- `t.IsZero()`
abbrev pub is_zero : Time → Bool
is_zero t = t == zero_time

-- `t.Add(d)`
abbrev pub add : Time → ℤ → Time
add t d = t + pos_part d - neg_part d
