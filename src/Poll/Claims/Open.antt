-- ===== src/Poll/Claims/Open.antt =====
-- What the walk claims, and what closes it.
use forge_wingman.Prelude.{
  ◌≡◌, refl, sym, ap, ◌∙◌, inl, inr, true, false, not, ◌&&◌, Option, none, some, List, [], ◌∷◌, All,
  Bool-cases, length,
}
use mathlib.Core.Path.{subst}
use mathlib.Core.Option.{some-injective, none-ne-some}
use forge_wingman.Text.{Text, is_empty}
use forge_wingman.Dispatcher.{is_build}
use forge_wingman.Dispatcher.Admit.Admissible.{admit_iff}
use forge_wingman.Store.Ledger.{in_flight}
use forge_wingman.Store.Db.{Db, err-ne-ok, ok, Result-cases, ok-injective}
use forge_wingman.Store.Effects.Claim.{
  try_claim-made, reports_claim, claimed_db, claimed_row_present, claim_row_state,
}
use forge_wingman.Poll.{Candidate, Config, Estimate, Claim}
use forge_wingman.Poll.Tier.{claim_stage}
use forge_wingman.Poll.Facts.{breaker_tripped, paused_holds, facts_for}
use forge_wingman.Poll.Claims.{
  Sight, Asked, Prepared, asking, prepare, asked_for, claim_of, Step, answered, step, walk,
  admit_claims, with_one,
}
use forge_wingman.Poll.Claims.Preparing.{prepare_cases}
use forge_wingman.Store.Queue.Claim.{Claimed, try_claim, attempt_claim, admit_input, claim_row}
use forge_wingman.Store.Effects.Fails.{attempt_claim-ok}
use forge_wingman.Poll.Claims.Kept.{HeldByRun, walk_kept}

-- A claim of the walk: nothing the poll knew closed the queue or the run's repository to it, and the run is
-- claimed in the state given.
pub record Allowed (s : Sight) (db : Db) (cl : Claim) : Type 0 where
  pub breaker_untripped : breaker_tripped s.reads ≡ false
  pub unpaused : paused_holds s.reads.paused cl.repo && not (is_build cl.stage) ≡ false
  pub held : HeldByRun db cl.run_id

made_claim :
    (s : Sight) (c : Config) (cand : Candidate) (est : Estimate) (db : Db) (reply : Claimed × Db)
    → let a = asked_for c s cand (claim_stage cand c.two_stage) est in
      try_claim cand.run_id
          (s.reads.now cand.run_id)
          a.tier.budget
          a.facts
          s.history
          a.reservation
          db
        ≡ ok reply
      → reply.0.ok? ≡ true
      → Allowed s reply.1 (claim_of cand a.stage)
unfolding asked_for facts_for admit_input claim_of
made_claim s c cand est db reply h won =
    let a = asked_for c s cand (claim_stage cand c.two_stage) est in
    let at = s.reads.now cand.run_id in
    let made =
      try_claim-made cand.run_id at a.tier.budget a.facts s.history a.reservation db
        (ap reports_claim h ∙ won) in
    let open_queue = (admit_iff _).0 made.admits in
    let same : claimed_db cand.run_id made.row at a.facts a.reservation db ≡ reply.1 =
      ap (λ (r : Claimed × Db). r.1) (ok-injective _ reply (sym made.result ∙ h)) in
    record {
      breaker_untripped = open_queue.no_breaker;
      unpaused = open_queue.not_paused;
      held =
          subst (λ d. HeldByRun d cand.run_id) same
            (
              claim_row made.row at a.facts a.reservation
                  (length (in_flight db.ledger.reservations)),
              claimed_row_present cand.run_id made.row at a.facts a.reservation db,
              claim_row_state made.row at a.facts a.reservation
                  (length (in_flight db.ledger.reservations)),
            );
    }

-- What a prepared candidate adds to the claims is allowed.
abbrev AllowedFrom : Config → Sight → Candidate → List Text → Db → Prepared → Type 0
AllowedFrom c s cand noticed db p =
    (st : Step) (cl : Claim)
    → step c s cand noticed p db ≡ ok st
    → st.claim ≡ some cl
    → Allowed s st.db cl

answered-Allowed :
    (c : Config) (s : Sight) (cand : Candidate) (a : Asked) (noticed : List Text)
    (reply : Claimed × Db) (cl : Claim)
    → (reply.0.ok? ≡ true → Allowed s reply.1 (claim_of cand a.stage))
    → (answered c s cand a noticed reply).claim ≡ some cl
    → Allowed s (answered c s cand a noticed reply).db cl
unfolding answered
answered-Allowed c s cand a noticed (reply, db) cl allowed h = elim (Bool-cases reply.ok?) [
  | inl won ↦
      let same : claim_of cand a.stage ≡ cl = some-injective _ cl (rw (won, answered) at h) in
      rw (won, answered) (subst (Allowed s db) same (allowed won))
  | inr lost ↦ elim (Bool-cases (is_empty reply.binding)) [
    | inl gone ↦ absurd (none-ne-some cl (rw (lost, gone, answered) at h))
    | inr bound ↦ absurd (none-ne-some cl (rw (lost, bound, answered) at h))
  ]
]

held_back :
    (s : Sight) (st st' : Step) (cl : Claim)
    → st.claim ≡ none
    → ok st ≡ ok st'
    → st'.claim ≡ some cl
    → Allowed s st'.db cl
held_back s st st' cl n h e =
    absurd (none-ne-some cl (sym n ∙ ap (λ (t : Step). t.claim) (ok-injective st st' h) ∙ e))

asked-Allowed :
    (c : Config) (s : Sight) (cand : Candidate) (noticed : List Text) (db : Db) (est : Estimate)
    → AllowedFrom c s cand noticed db
        (asking (asked_for c s cand (claim_stage cand c.two_stage) est))
unfolding step
asked-Allowed c s cand noticed db est st cl h e =
    let a = asked_for c s cand (claim_stage cand c.two_stage) est in
    elim (Result-cases (
      attempt_claim (s.faults cand.run_id) cand.run_id (s.reads.now cand.run_id) a.tier.budget
        a.facts s.history a.reservation db)) [
          | inl (why, failed) ↦ absurd (err-ne-ok why st (rw (failed, step) at h))
          | inr (reply, replied) ↦
              let same =
                ok-injective (answered c s cand a noticed reply) st (rw (replied, step) at h) in
              subst (λ (t : Step). Allowed s t.db cl) same
                (answered-Allowed c s cand a noticed reply cl
                  (made_claim s c cand est db reply (
                    attempt_claim-ok (s.faults cand.run_id) cand.run_id (s.reads.now cand.run_id)
                      a.tier.budget a.facts s.history a.reservation db reply replied))
                  (ap (λ (t : Step). t.claim) same ∙ e))
        ]

step-Allowed :
    (c : Config) (s : Sight) (cand : Candidate) (noticed : List Text) (db : Db)
    → AllowedFrom c s cand noticed db (prepare c s cand)
unfolding step
step-Allowed c s cand noticed db =
    prepare_cases (AllowedFrom c s cand noticed db) c s cand
      (λ st cl h e. held_back s _ st cl refl h e)
      (λ why budget st cl h e. held_back s _ st cl refl h e) (asked-Allowed c s cand noticed db)

with_one-Allowed :
    (s : Sight) (db : Db) (o : Option Claim) (cls : List Claim)
    → ((cl : Claim) → o ≡ some cl → Allowed s db cl)
    → All (Allowed s db) cls
    → All (Allowed s db) (with_one o cls)
with_one-Allowed s db none cls one rest = rest
with_one-Allowed s db (some cl) cls one rest = (one cl refl, rest)

walk-Allowed :
    (c : Config) (s : Sight) (cands : List Candidate) (noticed : List Text) (db : Db)
    → All (Allowed s (walk c s cands noticed db).db) (walk c s cands noticed db).claims
unfolding walk
walk-Allowed c s [] noticed db = tt
walk-Allowed c s (cand ∷ cands) noticed db =
    elim (Result-cases (step c s cand noticed (prepare c s cand) db)) [
      | inl (e, failed) ↦ rw (failed, walk) tt
      | inr (st, stepped) ↦
          let rest = walk c s cands st.noticed st.db in
          rw (stepped, walk)
            (with_one-Allowed s rest.db st.claim rest.claims
              (λ cl e.
                let a = step-Allowed c s cand noticed db st cl stepped e in
                record {
                  breaker_untripped = a.breaker_untripped;
                  unpaused = a.unpaused;
                  held = walk_kept cl.run_id c s cands st.noticed st.db a.held;
                })
              (walk-Allowed c s cands st.noticed st.db))
    ]

-- Each claim that the walk over the queue reports, whether or not the walk then fails, was made while the
-- breaker was read and untripped; a claim that builds no recorded plan was made on a repository that is of no
-- paused project, which does not hold back a build; and its run is claimed when the walk ends.
pub admit_claims-Allowed :
    (c : Config) (s : Sight) (cands : List Candidate) (db : Db)
    → All (Allowed s (admit_claims c s cands db).db) (admit_claims c s cands db).claims
unfolding admit_claims
admit_claims-Allowed c s cands db = walk-Allowed c s cands [] db
