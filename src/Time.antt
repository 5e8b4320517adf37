-- ===== src/Time.antt =====
-- Go's time.Time, read in UTC, as the nanoseconds since its zero value, midnight of 1 January of
-- year 1. The program holds no earlier time, so a subtraction that would pass it stops there.
pub mod Month
use forge_wingman.Prelude.{ℕ, ◌-◌, ◌*◌, ◌^◌, Bool, ltb, ◌==◌}

abbrev pub Time : Type 0
Time = ℕ

abbrev pub Duration : Type 0
Duration = ℕ

abbrev pub second : Duration
second = 10 ^ 9

abbrev pub minute : Duration
minute = 60 * second

-- t.IsZero()
abbrev pub is_zero : Time → Bool
is_zero t = t == 0

-- t.Before(u)
abbrev pub is_before : Time → Time → Bool
is_before t u = ltb t u

-- t.Add(-d)
abbrev pub back : Time → Duration → Time
back t d = t - d
