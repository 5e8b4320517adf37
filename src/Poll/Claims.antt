-- ===== src/Poll/Claims.antt =====
-- admitClaims: the walk over the queue in its order, which claims every candidate that admission lets start
-- and records each one it withholds.
pub mod Preparing
pub mod Walking
pub mod Refines
pub mod Kept
pub mod Open
pub mod Consented
use forge_wingman.Prelude.{
  ℕ, Bool, true, false, not, ◌&&◌, Option, none, some, List, [], ◌∷◌, if◌then◌else◌, contains_func,
}
use forge_wingman.Text.{Text, is_empty, contains}
use forge_wingman.GoMap.{GoMap, lookup}
use forge_wingman.Time.{Time}
use forge_wingman.Runner.{provider}
use forge_wingman.Dispatcher.{Stage, is_plan}
use forge_wingman.Dispatcher.Budget.{BudgetConfig, Reservation}
use forge_wingman.Dispatcher.Settled.{SettledHistory}
use forge_wingman.Dispatcher.Admit.{Facts, Relations}
use forge_wingman.Dispatcher.Holds.{
  condition_models_unchecked, condition_estimate_failed, condition_private_opt_in,
}
use forge_wingman.Store.Db.{Db, Error, Result, ok, err}
use forge_wingman.Store.Queue.Claim.{Claimed, Faults, attempt_claim}
use forge_wingman.Poll.{Candidate, Config, Estimate, Claim, Deferral}
use forge_wingman.Poll.Tier.{ClaimTier, claim_stage, tier_of, named_free_models}
use forge_wingman.Poll.Facts.{Reads, private_opt_in, facts_for}
use forge_wingman.Poll.Deferrals.{hold, deferral_choices, notice_deferral}

-- What the poll has read before the walk. `unchecked` are the retries whose models it could not check.
pub record Sight : Type 0 where
  pub reads : Reads
  pub history : Result SettledHistory
  -- What of a run's attempt Firestore fails.
  pub faults : Text → Faults
  pub relations : GoMap Relations
  pub links : GoMap Text
  pub prs : Option ℕ
  pub unchecked : List Text

abbrev no_relations : Relations
no_relations = record { known = false; blocked_by = []; blocks = []; blocked_by_open = [] }

-- relations[id], the zero value where there is none
unfoldable pub relations_of : GoMap Relations → Text → Relations
unfolding lookup
relations_of m id = elim (lookup id m) [ none ↦ no_relations | some r ↦ r ]

unfoldable pub link_of : GoMap Text → Text → Text
unfolding lookup
link_of m id = elim (lookup id m) [ none ↦ [] | some l ↦ l ]

-- A claim as it is asked for.
pub record Asked : Type 0 where
  pub stage : Stage
  pub tier : ClaimTier
  pub facts : Facts
  pub reservation : Reservation

-- A candidate is held before the queue is asked, or asked for.
pub data Prepared : Type 0 where
  unchecked_models : Prepared
  early : Text → BudgetConfig → Prepared
  asking : Asked → Prepared

-- The estimate of the claim's stage; one of a plan stage asks for a whole run's first.
unfoldable pub estimate_for : Reads → Candidate → Stage → Option Estimate
unfolding is_plan
estimate_for r cand stage = elim (r.estimate cand.size) [
  | none ↦ none
  | some est ↦ if is_plan stage then r.plan_estimate cand.size else some est
]

unfoldable pub reservation_for : Candidate → Stage → BudgetConfig → Estimate → Reservation
reservation_for cand stage budget est = record {
  provider_cost = if budget.provider_free then 0 else est.provider_cost;
  runner_minutes = if cand.private then est.minutes else 0;
  stage = stage;
  files = cand.plan_files;
}

unfoldable pub asked_for : Config → Sight → Candidate → Stage → Estimate → Asked
unfolding tier_of facts_for relations_of reservation_for provider
asked_for c s cand stage est =
    let tier = tier_of c cand stage in
    record {
      stage = stage;
      tier = tier;
      facts =
          facts_for c s.reads s.prs (relations_of s.relations cand.run_id) cand stage
            (provider tier.model) tier.model est.minutes;
      reservation = reservation_for cand stage tier.budget est;
    }

-- A private candidate's free model is of a plan without the owner's opt-in for private repositories.
unfoldable pub needs_opt_in : Config → Reads → Candidate → Bool
unfolding named_free_models private_opt_in provider
needs_opt_in c r cand =
    cand.private
    && contains_func (λ m. not (private_opt_in r (provider m))) (named_free_models c cand)

-- What stands ahead of TryClaim in the loop's body.
unfoldable pub prepare : Config → Sight → Candidate → Prepared
unfolding contains claim_stage estimate_for asked_for needs_opt_in tier_of
prepare c s cand =
    let stage = claim_stage cand c.two_stage in
    if contains s.unchecked cand.run_id
    then unchecked_models
    else elim (estimate_for s.reads cand stage) [
      | none ↦ early condition_estimate_failed c.budget
      | some est ↦
          if needs_opt_in c s.reads cand
          then early condition_private_opt_in (tier_of c cand stage).budget
          else asking (asked_for c s cand stage est)
    ]

pub record Walked : Type 0 where
  pub claims : List Claim
  pub deferrals : List Deferral
  pub failed : Option Error
  pub db : Db

unfoldable pub deferral : Sight → Candidate → Text → Deferral
deferral s cand why = record { run_id = cand.run_id; ceiling = why; at = s.reads.now cand.run_id }

unfoldable pub claim_of : Candidate → Stage → Claim
claim_of cand stage = record {
  run_id = cand.run_id;
  repo = cand.repo;
  priority = cand.priority;
  stage = stage;
  attempt = cand.attempt;
}

-- The notice of a ceiling that no notice of this walk names yet.
unfoldable pub notice : Config → Sight → Candidate → Asked → Text → List Text → Db → Bool × Db
unfolding contains deferral_choices notice_deferral link_of
notice c s cand a why noticed db =
    if contains noticed why
    then (false, db)
    else notice_deferral a.tier.budget a.facts.model a.reservation why (link_of s.links cand.run_id)
        (deferral_choices a.tier.budget why a.tier.plan c.last_resort_plans) s.history
        (s.reads.now cand.run_id) db

unfoldable pub hold_now : Sight → Candidate → Text → BudgetConfig → Db → Db
unfolding hold
hold_now s cand why budget db =
    hold cand why budget (s.reads.day (s.reads.now cand.run_id)) (s.reads.now cand.run_id) db

-- One candidate: what it adds to the walk, and the ceilings noticed so far.
pub record Step : Type 0 where
  pub claim : Option Claim
  pub deferred : Option Deferral
  pub noticed : List Text
  pub db : Db

unfoldable pub answered : Config → Sight → Candidate → Asked → List Text → Claimed × Db → Step
unfolding claim_of deferral hold_now notice
answered c s cand a noticed (reply, db) =
    let held = hold_now s cand reply.binding a.tier.budget db in
    let (raised, told) = notice c s cand a reply.binding noticed held in
    if reply.ok?
    then record {
      claim = some (claim_of cand a.stage);
      deferred = none;
      noticed = noticed;
      db = db;
    }
    else if is_empty reply.binding
    then record { claim = none; deferred = none; noticed = noticed; db = db }
    else record {
      claim = none;
      deferred = some (deferral s cand reply.binding);
      noticed = if raised then reply.binding ∷ noticed else noticed;
      db = told;
    }

unfoldable pub step : Config → Sight → Candidate → List Text → Prepared → Db → Result Step
unfolding deferral hold_now attempt_claim answered
step c s cand noticed unchecked_models db = ok (record {
  claim = none;
  deferred = some (deferral s cand condition_models_unchecked);
  noticed = noticed;
  db = db;
})
step c s cand noticed (early why budget) db = ok (record {
  claim = none;
  deferred = some (deferral s cand why);
  noticed = noticed;
  db = hold_now s cand why budget db;
})
step c s cand noticed (asking a) db =
    elim (attempt_claim (s.faults cand.run_id) cand.run_id (s.reads.now cand.run_id) a.tier.budget
      a.facts s.history a.reservation db) [
        | err e ↦ err e
        | ok reply ↦ ok (answered c s cand a noticed reply)
      ]

abbrev pub with_one {ℓ} : {A : Type ℓ} → Option A → List A → List A
with_one none xs = xs
with_one (some x) xs = x ∷ xs

-- The walk. One that fails keeps what it has claimed.
unfoldable pub walk : Config → Sight → List Candidate → List Text → Db → Walked
unfolding step prepare
walk c s [] noticed db = record { claims = []; deferrals = []; failed = none; db = db }
walk c s (cand ∷ cands) noticed db = elim (step c s cand noticed (prepare c s cand) db) [
  | err e ↦ record { claims = []; deferrals = []; failed = some e; db = db }
  | ok st ↦
      let rest = walk c s cands st.noticed st.db in
      record {
        claims = with_one st.claim rest.claims;
        deferrals = with_one st.deferred rest.deferrals;
        failed = rest.failed;
        db = rest.db;
      }
]

-- admitClaims, over what Candidates listed
unfoldable pub admit_claims : Config → Sight → List Candidate → Db → Walked
unfolding walk
admit_claims c s cands db = walk c s cands [] db
