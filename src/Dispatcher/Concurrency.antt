-- ===== src/Dispatcher/Concurrency.antt =====
-- internal/dispatcher/concurrency.go: the rule that recommends how many runs to have in flight.
pub mod Bounds
use forge_wingman.Prelude.{
  ℕ, ◌+◌, ◌/◌, Bool, true, false, not, ◌&&◌, ◌||◌, ltb, leb, ◌==◌, if◌then◌else◌, min, max,
}
use forge_wingman.Time.{Duration}
use forge_wingman.Dispatcher.Admit.{Tuning, or_else}

-- The bit pattern of a float64.
abbrev pub Float64 : Type 0
Float64 = ℕ

-- The machine's operations on float64 values that the rule uses.
pub record FloatOps : Type 0 where
  -- float64(d)
  pub of_int : ℕ → Float64
  -- a / b
  pub divide : Float64 → Float64 → Float64
  -- a > b and a <= b, both false at a NaN
  pub above : Float64 → Float64 → Bool
  pub at_most : Float64 → Float64 → Bool

-- 5 runs, 1.25 and 1.5
abbrev pub default_tuning : Tuning
default_tuning = record {
  stable_runs = 5;
  rise_within = 0x3FF4000000000000;
  halve_beyond = 0x3FF8000000000000;
}

-- cmp.Or(f, d): f is zero as 0 or as -0.
abbrev pub or_else_float : Float64 → Float64 → Float64
or_else_float f d = if f == 0 || f == 0x8000000000000000 then d else f

-- t.OrDefault()
unfoldable pub tuning_or_default : Tuning → Tuning
tuning_or_default t = record {
  stable_runs = or_else t.stable_runs default_tuning.stable_runs;
  rise_within = or_else_float t.rise_within default_tuning.rise_within;
  halve_beyond = or_else_float t.halve_beyond default_tuning.halve_beyond;
}

abbrev pub max_runs_at_once : ℕ
max_runs_at_once = 15

abbrev pub runs_at_once_max : ℕ → ℕ
runs_at_once_max platform_cap = min max_runs_at_once platform_cap

pub record Concurrency : Type 0 where
  pub n : ℕ
  pub stable : ℕ

pub record Observation : Type 0 where
  pub solo : Duration
  pub loaded : Duration
  pub rate_limited : Bool

abbrev pub nothing_observed : Observation
nothing_observed = record { solo = 0; loaded = 0; rate_limited = false }

rise : Concurrency → Tuning → ℕ → Concurrency
rise next t top =
    let stable = next.stable + 1 in
    if leb t.stable_runs stable
    then record { n = min (next.n + 1) top; stable = 0 }
    else record { n = next.n; stable = stable }

unfoldable pub next_concurrency : FloatOps → Concurrency → Observation → Tuning → ℕ → Concurrency
unfolding rise
next_concurrency ops cur obs t platform_cap =
    let top = runs_at_once_max platform_cap in
    let next : Concurrency = record { n = min (max cur.n 1) top; stable = cur.stable } in
    let halved : Concurrency = record { n = max (next.n / 2) 1; stable = 0 } in
    let ratio = ops.divide (ops.of_int obs.loaded) (ops.of_int obs.solo) in
    if obs.rate_limited
    then halved
    else if obs.solo == 0 || obs.loaded == 0
    then next
    else if ops.above ratio t.halve_beyond
    then halved
    else if ops.at_most ratio t.rise_within
    then rise next t top
    else record next { stable = 0 }

-- The empty basis is `unseen`.
pub data Basis : Type 0 where
  unseen steady rising slow limited : Basis

pub record Recommendation : Type 0 where
  pub n : ℕ
  pub stable : ℕ
  pub basis : Basis

recommend_from : ℕ → Observation → Tuning → Concurrency → Recommendation
recommend_from n obs t next =
    if ltb next.n n && obs.rate_limited
    then record { n = next.n; stable = 0; basis = limited }
    else if ltb next.n n
    then record { n = next.n; stable = 0; basis = slow }
    else if ltb n next.n
    then record { n = next.n; stable = t.stable_runs; basis = rising }
    else record { n = n; stable = next.stable; basis = steady }

unfoldable pub recommend : FloatOps → Recommendation → ℕ → Observation → Tuning → ℕ → Recommendation
unfolding next_concurrency recommend_from
recommend ops prev n obs t platform_cap =
    if not obs.rate_limited && (obs.solo == 0 || obs.loaded == 0)
    then prev
    else recommend_from n obs t
        (next_concurrency ops (record { n = n; stable = prev.stable }) obs t platform_cap)
