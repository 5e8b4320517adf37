-- ===== src/Poll/Claims/Kept.antt =====
-- A run that is claimed stays claimed across the walk.
use forge_wingman.Prelude.{
  ◌≡◌, refl, sym, ap, ◌∙◌, inl, inr, Bool, true, false, not, some, List, [], ◌∷◌, All, Option-cases,
  Bool-cases,
}
use mathlib.Core.Path.{subst}
use mathlib.Core.Option.{some-injective}
use forge_wingman.Text.{Text, is_empty, text_eq, text_eq_iff}
use forge_wingman.Time.{Time}
use forge_wingman.Dispatcher.Budget.{BudgetConfig, Reservation}
use forge_wingman.Dispatcher.Settled.{SettledHistory, sums}
use forge_wingman.Dispatcher.Admit.{Facts, admit, held_before_budget}
use forge_wingman.Store.Row.{Row, claimed, is_candidate, has_ended}
use forge_wingman.Store.Db.{Db, Notice, Result, ok, err, ok-injective, put_run, ◌>>=◌}
use forge_wingman.Store.Holds.{record_hold, held_row}
use forge_wingman.Store.Effects.Claim.{not_candidate}
use forge_wingman.Store.Accounting.Waits.{raise_runs}
use forge_wingman.Store.Sweep.{raise}
use forge_wingman.Poll.{Candidate, Config, Estimate}
use forge_wingman.Poll.Claims.{Sight, walk}
use forge_wingman.Poll.Claims.Walking.{Lifted, walk_lift}
use forge_wingman.Store.Queue.Claim.{
  Claimed, try_claim, claim_waiting, admit_input, nothing_settled, withhold, decide_claim,
}

-- The run's row is claimed.
abbrev pub HeldByRun : Db → Text → Type 0
HeldByRun db id = (row : Row) × (db.runs id ≡ some row) × (row.state ≡ claimed)

pub put_run_other :
    (id j : Text) (row : Row) (db : Db)
    → text_eq id j ≡ false
    → (put_run id row db).runs j ≡ db.runs j
unfolding put_run
put_run_other id j row db n = rw n refl

-- The state that an attempt to claim leaves, where it commits, differs in the one row.
abbrev SameElsewhere : Text → Db → Result (Claimed × Db) → Type 0
SameElsewhere j db (ok (c, after)) = after.runs j ≡ db.runs j
SameElsewhere j db (err e) = Unit

decide_claim_other :
    (id j : Text) (row : Row) (at : Time) (facts : Facts) (res : Reservation) (v : Bool × Text)
    (db : Db)
    → text_eq id j ≡ false
    → (decide_claim id row at facts res v db).1.runs j ≡ db.runs j
unfolding decide_claim withhold put_run
decide_claim_other id j row at facts res (false, why) db n = rw n refl
decide_claim_other id j row at facts res (true, why) db n = rw n refl

waiting_other :
    (id j : Text) (row : Row) (at : Time) (cfg : BudgetConfig) (facts : Facts)
    (history : Result SettledHistory) (res : Reservation) (db : Db)
    → text_eq id j ≡ false
    → SameElsewhere j db (claim_waiting id row at cfg facts history res db)
unfolding claim_waiting withhold put_run
waiting_other id j row at cfg facts history res db n =
    elim (Bool-cases (
      not (
        is_empty (held_before_budget (admit_input row db.ledger cfg facts res nothing_settled))))) [
          | inl held ↦ rw (held, n) refl
          | inr reached ↦ rw reached (after history)
        ]
  where
    after :
        (h : Result SettledHistory)
        → SameElsewhere j db (
            h >>= λ h. ok (
              decide_claim id row at facts res
                (admit (admit_input row db.ledger cfg facts res (sums h cfg facts.model at)))
                db))
    after (err e) = tt
    after (ok h) =
        decide_claim_other id j row at facts res
          (admit (admit_input row db.ledger cfg facts res (sums h cfg facts.model at))) db n

pub try_claim_other :
    (id j : Text) (at : Time) (cfg : BudgetConfig) (facts : Facts) (history : Result SettledHistory)
    (res : Reservation) (db : Db)
    → text_eq id j ≡ false
    → SameElsewhere j db (try_claim id at cfg facts history res db)
unfolding try_claim
try_claim_other id j at cfg facts history res db n = elim (Option-cases (db.runs id)) [
  | inl missing ↦ rw (missing, try_claim) refl
  | inr (row, present) ↦ elim (Bool-cases (is_candidate row.state)) [
    | inr other ↦ rw (present, other, try_claim) refl
    | inl c ↦ elim (Bool-cases (has_ended row)) [
      | inl ended ↦ rw (present, c, ended, try_claim) (put_run_other id j _ db n)
      | inr going ↦
          rw (present, c, going, try_claim) (waiting_other id j row at cfg facts history res db n)
    ]
  ]
]

-- A row that a write leaves claimed stays claimed.
kept_by_hold :
    (id j reason day : Text) (at : Time) (db : Db)
    → HeldByRun db j
    → HeldByRun (record_hold id reason day at db) j
unfolding record_hold held_row
kept_by_hold id j reason day at db (row, present, c) = elim (Option-cases (db.runs id)) [
  | inl missing ↦ rw (missing, record_hold) (row, present, c)
  | inr (old, found) ↦ elim (Bool-cases (text_eq id j)) [
    | inr n ↦ rw (found, record_hold) (row, put_run_other id j _ db n ∙ present, c)
    | inl same ↦
        let e : id ≡ j = (text_eq_iff id j).0 same in
        let old_row : old ≡ row = some-injective old row (sym found ∙ ap db.runs e ∙ present) in
        rw (found, record_hold)
          (held_row reason day at old, rw same refl, ap (λ (r : Row). r.state) old_row ∙ c)
  ]
]

kept_by_claim :
    (id j : Text) (at : Time) (cfg : BudgetConfig) (facts : Facts) (history : Result SettledHistory)
    (res : Reservation) (db : Db) (reply : Claimed × Db)
    → try_claim id at cfg facts history res db ≡ ok reply
    → HeldByRun db j
    → HeldByRun reply.1 j
kept_by_claim id j at cfg facts history res db reply h (row, present, c) =
    elim (Bool-cases (text_eq id j)) [
      | inr n ↦ (
        row,
        subst (SameElsewhere j db) h (try_claim_other id j at cfg facts history res db n) ∙ present,
        c,
      )
      | inl same ↦
          let e : id ≡ j = (text_eq_iff id j).0 same in
          let nothing =
            not_candidate id row at cfg facts history res db (ap db.runs e ∙ present) c in
          subst (λ d. HeldByRun d j)
            (ap (λ (r : Claimed × Db). r.1) (ok-injective _ reply (sym nothing ∙ h)))
            (row, present, c)
    ]

kept_by_raise : (j : Text) (n : Text × Notice) (db : Db) → HeldByRun db j → HeldByRun (raise n db) j
kept_by_raise j n db (row, present, c) = (row, ap (λ runs. runs j) (raise_runs n db) ∙ present, c)

-- A claimed run stays claimed across the walk.
abbrev kept_lift : Text → Lifted
kept_lift j = record {
  R = λ db after. HeldByRun db j → HeldByRun after j;
  Asks = λ id a. Unit;
  same = λ db h. h;
  and_then = λ db mid after f g h. g (f h);
  holds = λ id reason day at db. kept_by_hold id j reason day at db;
  raises = λ n db. kept_by_raise j n db;
  claims = λ id at a history db reply asks h.
      kept_by_claim id j at a.tier.budget a.facts history a.reservation db reply h;
}

free_to_ask :
    (c : Config) (s : Sight) (cands : List Candidate) → All (λ cand. Estimate → Unit {0}) cands
free_to_ask c s [] = tt
free_to_ask c s (cand ∷ cands) = ((λ est. tt), free_to_ask c s cands)

pub walk_kept :
    (j : Text) (c : Config) (s : Sight) (cands : List Candidate) (noticed : List Text) (db : Db)
    → HeldByRun db j
    → HeldByRun (walk c s cands noticed db).db j
walk_kept j c s cands noticed db =
    walk_lift (kept_lift j) c s cands noticed db (free_to_ask c s cands)
