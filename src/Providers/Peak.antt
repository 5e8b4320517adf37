-- ===== src/Providers/Peak.antt =====
-- Peak hours: Peak of internal/providers/config.go, and the hold on a run that would touch them, of
-- internal/dispatcher/peak.go. The rates of a model, which its peak is part of, are an argument.
pub mod Spans
use forge_wingman.Prelude.{
  ℕ, zero, suc, ◌+◌, ◌-◌, ◌*◌, ◌/◌, ◌%◌, ◌^◌, Bool, true, false, ◌&&◌, ◌||◌, Option, none, some,
  List, [], ◌∷◌, ltb, leb, ◌==◌, if◌then◌else◌, contains_func,
}
use forge_wingman.Text.{Text}
use forge_wingman.Time.{Time, Duration, minute, is_zero}
use forge_wingman.Int64.{Int64, mul64}

-- The hours [from_hour, to_hour) of a UTC day.
pub record HourRange : Type 0 where
  pub from_hour : ℕ
  pub to_hour : ℕ

-- The hours of a peak; its multiplier, which prices a usage, holds no run.
abbrev pub Peak : Type 0
Peak = List HourRange

abbrev pub hour : Duration
hour = 60 * minute

-- t.Weekday() is Saturday or Sunday: the zero time is a Monday.
unfoldable pub is_weekend : Time → Bool
is_weekend t = leb 5 (t / (24 * hour) % 7)

-- t.Hour()
abbrev pub hour_of : Time → ℕ
hour_of t = t / hour % 24

-- p.Covers(t)
unfoldable pub covers : Peak → Time → Bool
unfolding is_weekend
covers p t =
    if is_weekend t
    then false
    else contains_func (λ w. leb w.from_hour (hour_of t) && ltb (hour_of t) w.to_hour) p

-- t.Add(d), for a duration that may be negative
unfoldable pub forward : Time → Int64 → Time
forward t d = if ltb d (2 ^ 63) then t + d else t - (2 ^ 64 - d)

-- The loop over the hours from `at` that are not after the end, with fuel.
unfoldable pub spans_from : ℕ → Peak → Time → Time → Bool
unfolding covers
spans_from zero p at end = false
spans_from (suc fuel) p at end =
    let rest = spans_from fuel p (at + hour) end in
    if ltb end at then false else if covers p at then true else rest

-- One round for each hour that the span touches.
unfoldable pub rounds : Time → Time → ℕ
rounds at end = (end - at) / hour + 1

-- p.Spans(from, d)
unfoldable pub spans : Peak → Time → Int64 → Bool
unfolding spans_from rounds forward
spans p from d =
    let at = from - from % hour in
    let end = forward from d in if is_zero from then true else spans_from (rounds at end) p at end

pub data PeakMode : Type 0 where
  off_peak_only always : PeakMode

-- readPeakMode: a mode that cannot be read or is neither of the two holds as the first does.
unfoldable pub read_peak_mode : Option PeakMode → PeakMode
read_peak_mode none = off_peak_only
read_peak_mode (some mode) = mode

-- PeakHeld, with the peak of the model's rates
unfoldable pub peak_held : PeakMode → Option Peak → Time → Int64 → Bool
unfolding spans
peak_held always peak now minutes = false
peak_held off_peak_only none now minutes = false
peak_held off_peak_only (some p) now minutes = spans p now (mul64 minutes minute)
