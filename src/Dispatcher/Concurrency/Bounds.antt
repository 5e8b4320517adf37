-- ===== src/Dispatcher/Concurrency/Bounds.antt =====
-- Where the rule can move N, whatever is observed.
use forge_wingman.Prelude.{ℕ, ◌+◌, ◌≤◌, ◌<◌, ◌≡◌, true, false, arith, min, max}
use forge_wingman.Dispatcher.Admit.{Tuning}
use forge_wingman.Dispatcher.Concurrency.{
  Float64, FloatOps, Concurrency, Observation, Basis, unseen, steady, rising, slow, limited,
  runs_at_once_max, next_concurrency,
}

-- Under a platform cap of at least one the next N is from 1 to the most that the cap allows.
pub next_concurrency_bounds :
    (ops : FloatOps) (cur : Concurrency) (obs : Observation) (t : Tuning) (cap : ℕ)
    → 0 < cap
    → (1 ≤ (next_concurrency ops cur obs t cap).n)
      × ((next_concurrency ops cur obs t cap).n ≤ runs_at_once_max cap)
unfolding next_concurrency
next_concurrency_bounds ops cur obs t cap h = ground arith

-- How many times as long the phases of the loaded runs took.
abbrev pub ratio_of : FloatOps → Observation → Float64
ratio_of ops obs = ops.divide (ops.of_int obs.loaded) (ops.of_int obs.solo)

-- N rises above its bounded value only by one, and only on an observation of both phase times, without a rate
-- limit, whose ratio of loaded to solo is at most the tuning's rise_within and not above its halve_beyond, that
-- completes the count of stable ones that the tuning asks for; the count then starts over.
pub next_concurrency_rise :
    (ops : FloatOps) (cur : Concurrency) (obs : Observation) (t : Tuning) (cap : ℕ)
    → 0 < cap
    → min (max cur.n 1) (runs_at_once_max cap) < (next_concurrency ops cur obs t cap).n
    → ((next_concurrency ops cur obs t cap).n ≡ min (max cur.n 1) (runs_at_once_max cap) + 1)
      × (obs.rate_limited ≡ false)
      × (0 < obs.solo)
      × (0 < obs.loaded)
      × (ops.above (ratio_of ops obs) t.halve_beyond ≡ false)
      × (ops.at_most (ratio_of ops obs) t.rise_within ≡ true)
      × (t.stable_runs ≤ cur.stable + 1)
      × ((next_concurrency ops cur obs t cap).stable ≡ 0)
unfolding next_concurrency
next_concurrency_rise ops cur obs t cap h r = ground arith

-- What a recommendation at the owner's N says: nothing while there is no evidence, the same N when
-- steady, one more within the cap when rising, and fewer when slow or limited.
abbrev pub Fits : ℕ → ℕ → ℕ → Basis → Type 0
Fits n top m unseen = m ≡ 0
Fits n top m steady = m ≡ n
Fits n top m rising = (m ≡ n + 1) × (m ≤ top)
Fits n top m slow = (1 ≤ m) × (m < n)
Fits n top m limited = (1 ≤ m) × (m < n)
