-- ===== src/Time/Month.antt =====
-- time.Date(u.Year(), u.Month(), 1, 0, 0, 0, 0, time.UTC): the start of the month that a time is in.
use forge_wingman.Prelude.{
  ℕ, ◌+◌, ◌-◌, ◌*◌, ◌/◌, ◌%◌, ◌≤◌, ◌≡◌, refl, Bool, not, ◌&&◌, ◌||◌, List, [], ◌∷◌, arith, leb,
  ◌==◌, if◌then◌else◌, min,
}
use forge_wingman.Time.{Time, second}

abbrev pub day : ℕ
day = 86400 * second

-- The day of the year, from 0, and whether the year is a leap year, by the cycles of 400, 100, 4 and
-- 1 years in which the days since 1 January of year 1 repeat.
abbrev of_century : ℕ → ℕ → ℕ × Bool
of_century hundreds d =
    let fours = d / 1461 in
    let rest = d % 1461 in
    let ones = min 3 (rest / 365) in
    (rest - 365 * ones, ones == 3 && (not (fours == 24) || hundreds == 3))

pub year_day : ℕ → ℕ × Bool
year_day days =
    let d = days % 146097 in
    let hundreds = min 3 (d / 36524) in of_century hundreds (d - 36524 * hundreds)

-- The days of the year on which its months start, after January.
month_starts : Bool → List ℕ
month_starts leap =
    let l : ℕ = if leap then 1 else 0 in
    31
    ∷ (59 + l)
    ∷ (90 + l)
    ∷ (120 + l)
    ∷ (151 + l)
    ∷ (181 + l)
    ∷ (212 + l)
    ∷ (243 + l)
    ∷ (273 + l)
    ∷ (304 + l)
    ∷ (334 + l)
    ∷ []

-- The last start that is not after `d`, from the start `m`.
last_start : ℕ → ℕ → List ℕ → ℕ
last_start d m [] = m
last_start d m (s ∷ ss) = last_start d (if leb s d then s else m) ss

unfoldable pub month_start : Time → Time
unfolding year_day month_starts last_start
month_start t =
    let days = t / day in
    let (yday, leap) = year_day days in
    (days - (yday - last_start yday 0 (month_starts leap))) * day

-- A month starts no later than any time in it.
pub month_start-le : (t : Time) → month_start t ≤ t
unfolding month_start
month_start-le t = omega arith

month_start_epoch : month_start (14 * day + 5) ≡ 0
unfolding month_start
month_start_epoch = refl

-- 738885 days after 1 January of year 1 is 1 January 2024; day 60 of that year is 1 March.
month_start_leap : month_start ((738885 + 75) * day + 7) ≡ (738885 + 60) * day
unfolding month_start
month_start_leap = refl

month_start_end : month_start ((738885 + 365) * day + 7) ≡ (738885 + 335) * day
unfolding month_start
month_start_end = refl
