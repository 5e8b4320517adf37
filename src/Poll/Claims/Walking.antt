-- ===== src/Poll/Claims/Walking.antt =====
-- A relation on states that holds across single holds, notices and claims holds across the walk.
use mathlib.Core.Path.{subst}
use forge_wingman.Prelude.{◌≡◌, inl, inr, List, [], ◌∷◌, not, ◌+◌, All, Option-cases, Bool-cases}
use forge_wingman.Text.{Text, is_empty, contains}
use forge_wingman.Time.{Time}
use forge_wingman.Dispatcher.Budget.{BudgetConfig, Reservation}
use forge_wingman.Dispatcher.Budget.Standing.{ceiling_start, still_binds}
use forge_wingman.Store.Ledger.{reserved_totals}
use forge_wingman.Dispatcher.Settled.{SettledHistory, sums}
use forge_wingman.Dispatcher.Holds.{hold_reason, hold_text}
use forge_wingman.Store.Holds.{held_reasons}
use forge_wingman.Store.Db.{Db, Notice, Result, ok, err, Result-cases, ok-injective, err-ne-ok}
use forge_wingman.Store.Queue.Claim.{Claimed, try_claim, attempt_claim}
use forge_wingman.Store.Effects.Fails.{attempt_claim-ok}
use forge_wingman.Store.Holds.{record_hold}
use forge_wingman.Store.Sweep.{raise}
use forge_wingman.Poll.{Candidate, Config, Estimate}
use forge_wingman.Poll.Tier.{claim_stage}
use forge_wingman.Poll.Claims.Preparing.{prepare_cases}
use forge_wingman.Poll.Deferrals.{
  hold, notice_deferral, notice_binding, deferral_notice, deferral_choices, poll_interval,
}
use forge_wingman.Poll.Claims.{
  Sight, Asked, Prepared, unchecked_models, early, asking, prepare, Step, answered, step, walk,
  hold_now, notice, link_of, asked_for,
}

-- Such a relation, with what it needs of a run that is asked for.
pub record Lifted : Type 1 where
  pub R : Db → Db → Type 0
  pub Asks : Text → Asked → Type 0
  pub same : (db : Db) → R db db
  pub and_then : (db mid after : Db) → R db mid → R mid after → R db after
  pub holds : (id reason day : Text) (at : Time) (db : Db) → R db (record_hold id reason day at db)
  pub raises : (n : Text × Notice) (db : Db) → R db (raise n db)
  pub claims :
      (id : Text) (at : Time) (a : Asked) (history : Result SettledHistory) (db : Db)
      (reply : Claimed × Db)
      → Asks id a
      → try_claim id at a.tier.budget a.facts history a.reservation db ≡ ok reply
      → R db reply.1

module _ (l : Lifted) where
  open l use {R, Asks, same, and_then, holds, raises, claims}

  hold_lift :
      (cand : Candidate) (binding : Text) (budget : BudgetConfig) (day : Text) (at : Time) (db : Db)
      → R db (hold cand binding budget day at db)
  unfolding hold
  hold_lift cand binding budget day at db = elim (Option-cases (hold_reason binding budget)) [
    | inl unnamed ↦ rw (unnamed, hold) (same db)
    | inr (reason, found) ↦
        elim (Bool-cases (contains (held_reasons cand.held day) (hold_text reason))) [
          | inl old ↦ rw (found, old, hold) (same db)
          | inr new ↦ rw (found, new, hold) (holds cand.run_id (hold_text reason) day at db)
        ]
  ]

  binding_lift :
      (cfg : BudgetConfig) (model : Text) (estimate : Reservation) (ceiling link detail : Text)
      (history : Result SettledHistory) (start at : Time) (db : Db)
      → R db (notice_binding cfg model estimate ceiling link detail history start at db).1
  unfolding notice_binding
  binding_lift cfg model estimate ceiling link detail (err e) start at db = same db
  binding_lift cfg model estimate ceiling link detail (ok h) start at db =
      let binds =
        still_binds cfg model (reserved_totals db.ledger) (sums h cfg model (at + poll_interval))
          estimate ceiling in
      elim (Bool-cases (not binds)) [
        | inl lifted ↦ rw (lifted, notice_binding) (same db)
        | inr stands ↦
            rw (stands, notice_binding) (raises (deferral_notice ceiling start link detail at) db)
      ]

  deferral_lift :
      (cfg : BudgetConfig) (model : Text) (estimate : Reservation) (ceiling link detail : Text)
      (history : Result SettledHistory) (at : Time) (db : Db)
      → R db (notice_deferral cfg model estimate ceiling link detail history at db).1
  unfolding notice_deferral
  deferral_lift cfg model estimate ceiling link detail history at db =
      elim (Option-cases (ceiling_start cfg ceiling at)) [
        | inl unnamed ↦ rw (unnamed, notice_deferral) (same db)
        | inr (start, found) ↦ elim (Bool-cases (is_empty link)) [
          | inl bare ↦ rw (found, bare, notice_deferral) (same db)
          | inr linked ↦
              rw (found, linked, notice_deferral)
                (binding_lift cfg model estimate ceiling link detail history start at db)
        ]
      ]

  notice_lift :
      (c : Config) (s : Sight) (cand : Candidate) (a : Asked) (why : Text) (noticed : List Text)
      (db : Db)
      → R db (notice c s cand a why noticed db).1
  unfolding notice
  notice_lift c s cand a why noticed db = elim (Bool-cases (contains noticed why)) [
    | inl old ↦ rw (old, notice) (same db)
    | inr new ↦
        rw (new, notice)
          (deferral_lift a.tier.budget a.facts.model a.reservation why (link_of s.links cand.run_id)
            (deferral_choices a.tier.budget why a.tier.plan c.last_resort_plans) s.history
            (s.reads.now cand.run_id) db)
  ]

  answered_lift :
      (c : Config) (s : Sight) (cand : Candidate) (a : Asked) (noticed : List Text)
      (reply : Claimed) (db : Db)
      → R db (answered c s cand a noticed (reply, db)).db
  unfolding answered hold_now
  answered_lift c s cand a noticed reply db = elim (Bool-cases reply.ok?) [
    | inl yes_claimed ↦ rw (yes_claimed, answered) (same db)
    | inr not_claimed ↦ elim (Bool-cases (is_empty reply.binding)) [
      | inl gone ↦ rw (not_claimed, gone, answered) (same db)
      | inr bound ↦
          rw (not_claimed, bound, answered)
            (and_then db _ _ (hold_lift cand reply.binding a.tier.budget _ _ db)
              (notice_lift c s cand a reply.binding noticed _))
    ]
  ]

  abbrev AsksFor : Candidate → Prepared → Type 0
  AsksFor cand unchecked_models = Unit
  AsksFor cand (early why budget) = Unit
  AsksFor cand (asking a) = Asks cand.run_id a

  pub step_lift :
      (c : Config) (s : Sight) (cand : Candidate) (noticed : List Text) (p : Prepared) (db : Db)
      (st : Step)
      → AsksFor cand p
      → step c s cand noticed p db ≡ ok st
      → R db st.db
  unfolding step hold_now
  step_lift c s cand noticed unchecked_models db st asks h =
      subst (λ t. R db t.db) (ok-injective _ st h) (same db)
  step_lift c s cand noticed (early why budget) db st asks h =
      subst (λ t. R db t.db) (ok-injective _ st h) (hold_lift cand why budget _ _ db)
  step_lift c s cand noticed (asking a) db st asks h =
      elim (Result-cases (
        attempt_claim (s.faults cand.run_id) cand.run_id (s.reads.now cand.run_id) a.tier.budget
          a.facts s.history a.reservation db)) [
            | inl (e, failed) ↦ absurd (err-ne-ok e st (rw (failed, step) at h))
            | inr (reply, replied) ↦
                let answer =
                  ok-injective (answered c s cand a noticed reply) st (rw (replied, step) at h) in
                subst (λ t. R db t.db) answer
                  (and_then db reply.1 _
                    (claims cand.run_id (s.reads.now cand.run_id) a s.history db reply asks (
                      attempt_claim-ok (s.faults cand.run_id) cand.run_id (s.reads.now cand.run_id)
                        a.tier.budget a.facts s.history a.reservation db reply replied))
                    (answered_lift c s cand a noticed reply.0 reply.1))
          ]

  -- The relation holds across the walk, where each candidate may be asked for as it is.
  pub walk_lift :
      (c : Config) (s : Sight) (cands : List Candidate) (noticed : List Text) (db : Db)
      → All
          (λ cand.
            (est : Estimate)
            → Asks cand.run_id (asked_for c s cand (claim_stage cand c.two_stage) est))
          cands
      → R db (walk c s cands noticed db).db
  unfolding walk
  walk_lift c s [] noticed db asks = same db
  walk_lift c s (cand ∷ cands) noticed db asks =
      elim (Result-cases (step c s cand noticed (prepare c s cand) db)) [
        | inl (e, failed) ↦ rw (failed, walk) (same db)
        | inr (st, stepped) ↦
            let one =
              step_lift c s cand noticed (prepare c s cand) db st
                (prepare_cases (AsksFor cand) c s cand tt (λ why budget. tt) asks.0) stepped in
            rw (stepped, walk)
              (and_then db st.db _ one (walk_lift c s cands st.noticed st.db asks.1))
      ]
