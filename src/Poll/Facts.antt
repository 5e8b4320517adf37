-- ===== src/Poll/Facts.antt =====
-- What a poll reads beside the queue, and what admission is told of it. A read that fails is `none`. The
-- poll keeps what it has read once; a read here is a function, so that shows in no result.
use forge_wingman.Prelude.{
  ℕ, ◌+◌, ◌-◌, Bool, true, false, not, ◌&&◌, ◌||◌, Option, none, some, List, [], ◌∷◌, ◌==◌,
  if◌then◌else◌, map,
}
use forge_wingman.Text.{Text, lower_code, contains}
use forge_wingman.Time.{Time}
use forge_wingman.Int64.{Int64}
use forge_wingman.Dispatcher.{Stage, is_build}
use forge_wingman.Dispatcher.Admit.{Facts, Relations, or_default}
use forge_wingman.Dispatcher.Concurrency.{tuning_or_default}
use forge_wingman.Providers.Peak.{Peak, PeakMode, read_peak_mode, peak_held}
use forge_wingman.Poll.{Candidate, Config, Estimate}

pub record Reads : Type 0 where
  -- The time at which the walk comes to a run, and the day that it falls on for the owner.
  pub now : Text → Time
  pub day : Time → Text
  pub estimate : Text → Option Estimate
  pub plan_estimate : Text → Option Estimate
  pub halted : Text → Option Bool
  pub tripped : Option Bool
  -- The repositories, in lower case, of the projects that the owner paused.
  pub paused : Option (List Text)
  pub peak_mode : Option PeakMode
  pub peak_of : Text → Option Peak
  pub open_prs : Text → Option ℕ
  pub pull_open : Text → ℕ → Option Bool
  pub opted_in : Text → Option Bool

abbrev pub or_bool : Bool → Option Bool → Bool
or_bool b none = b
or_bool b (some a) = a

-- breakerTripped
unfoldable pub breaker_tripped : Reads → Bool
breaker_tripped r = or_bool true r.tripped

-- providerHalted
unfoldable pub provider_halted : Reads → Text → Bool
provider_halted r plan = or_bool false (r.halted plan)

-- lookupPrivateOptIn
unfoldable pub private_opt_in : Reads → Text → Bool
private_opt_in r plan = or_bool false (r.opted_in plan)

-- readPaused and its holds
unfoldable pub paused_holds : Option (List Text) → Text → Bool
unfolding contains lower_code
paused_holds none repo = true
paused_holds (some repos) repo = contains repos (map lower_code repo)

-- countOpenPRs: the count over the allowlist, known only when every read succeeded.
unfoldable pub count_open_prs : Reads → List Text → Option ℕ
count_open_prs r [] = some 0
count_open_prs r (repo ∷ repos) =
    let rest = count_open_prs r repos in
    elim (r.open_prs repo) [
      | none ↦ none
      | some n ↦ elim rest [ none ↦ none | some total ↦ some (n + total) ]
    ]

abbrev pub known_count : Option ℕ → ℕ
known_count none = 0
known_count (some n) = n

abbrev pub is_known : Option ℕ → Bool
is_known none = false
is_known (some n) = true

-- reviewWIPFor
unfoldable pub review_wip_for : Reads → Candidate → Option ℕ → ℕ
review_wip_for r cand prs =
    if cand.superseded_pr == 0 || known_count prs == 0
    then known_count prs
    else if or_bool false (r.pull_open cand.repo cand.superseded_pr)
    then known_count prs - 1
    else known_count prs

-- The facts that a claim is asked with.
unfoldable pub facts_for :
    Config → Reads → Option ℕ → Relations → Candidate → Stage → Text → Text → Int64 → Facts
unfolding or_default tuning_or_default provider_halted breaker_tripped review_wip_for peak_held
    read_peak_mode paused_holds is_build
facts_for c r prs relations cand stage plan model minutes = record {
  limits = or_default c.limits;
  tuning = tuning_or_default c.tuning;
  relations = relations;
  provider_halted = provider_halted r plan;
  breaker_tripped = breaker_tripped r;
  owner_paused = paused_holds r.paused cand.repo && not (is_build stage);
  peak_held = peak_held (read_peak_mode r.peak_mode) (r.peak_of model) (r.now cand.run_id) minutes;
  model = model;
  open_prs = review_wip_for r cand prs;
  open_prs_known = is_known prs;
  decision_mode = c.decision_mode;
}
