-- ===== src/Examples/Peaks.antt =====
-- The theorem on peak hours, on a run that starts an hour ahead of a peak.
use forge_wingman.Prelude.{◌*◌, ◌+◌, ◌≡◌, ◌⊎◌, ◌↔◌, true, refl, arith, [], ◌∷◌}
use forge_wingman.Time.{Time, minute, is_zero}
use forge_wingman.Int64.{Int64}
use forge_wingman.Providers.Peak.{Peak, hour, spans}
use forge_wingman.Providers.Peak.Spans.{Touches, spans_iff}

abbrev working_hours : Peak
working_hours = (record { from_hour = 14; to_hour = 18 }) ∷ []

abbrev one_pm : Time
one_pm = 37 * hour

abbrev run_length : Int64
run_length = 90 * minute

touches_peak : spans working_hours one_pm run_length ≡ true
unfolding spans
touches_peak = refl

spans_iff_example :
    (spans working_hours one_pm run_length ≡ true)
    ↔ ((is_zero one_pm ≡ true) ⊎ Touches working_hours one_pm (one_pm + run_length))
spans_iff_example = spans_iff working_hours one_pm run_length (omega arith)
