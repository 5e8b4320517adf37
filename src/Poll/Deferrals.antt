-- ===== src/Poll/Deferrals.antt =====
-- What a deferral leaves behind: the hold on the run's row (recordHold of internal/dispatcher/holds.go) and
-- the notice of a ceiling that still binds at the next poll (internal/dispatcher/notice.go).
use forge_wingman.Prelude.{
  ◌+◌, ◌*◌, Bool, true, false, not, none, some, List, [], ◌∷◌, ◌++◌, if◌then◌else◌, contains_func,
  map,
}
use forge_wingman.Text.{Text, codes, text_eq, is_empty, contains}
use forge_wingman.Text.Escape.{path_escape, join, unix_text}
use forge_wingman.Time.{Time, minute}
use forge_wingman.Dispatcher.Budget.{
  Window, BudgetConfig, Reservation, ceiling_cash, ceiling_runner_minutes,
}
use forge_wingman.Dispatcher.Budget.Standing.{is_provider_ceiling, still_binds, ceiling_start}
use forge_wingman.Dispatcher.Settled.{SettledHistory, sums}
use forge_wingman.Dispatcher.Holds.{hold_reason, hold_text}
use forge_wingman.Store.Db.{Db, Notice, pending, Result, ok, err}
use forge_wingman.Store.Ledger.{reserved_totals}
use forge_wingman.Store.Sweep.{raise}
use forge_wingman.Store.Holds.{held_reasons, record_hold}
use forge_wingman.Poll.{Candidate}

-- recordHold: a reason that the candidate's row records for the day is not written again.
unfoldable pub hold : Candidate → Text → BudgetConfig → Text → Time → Db → Db
unfolding hold_reason hold_text held_reasons contains record_hold
hold cand binding budget day at db = elim (hold_reason binding budget) [
  | none ↦ db
  | some reason ↦
      if contains (held_reasons cand.held day) (hold_text reason)
      then db
      else record_hold cand.run_id (hold_text reason) day at db
]

cap_named : List Window → Text → Bool
unfolding text_eq
cap_named ws ceiling = contains_func (λ w. text_eq w.name ceiling) ws

-- ceilingName
unfoldable pub ceiling_name : BudgetConfig → Text → Text
unfolding text_eq cap_named
ceiling_name cfg ceiling =
    if text_eq ceiling ceiling_cash
    then codes "its cash ceiling"
    else if text_eq ceiling ceiling_runner_minutes
    then codes "its runner-minutes ceiling"
    else if cap_named cfg.provider_windows ceiling
    then codes "its " ++ ceiling ++ codes " window"
    else if cap_named (map (λ c. c.1) cfg.model_caps) ceiling
    then codes "its cap on " ++ ceiling
    else []

-- The free models, each once.
distinct : List Text → List Text → List Text
unfolding contains
distinct found [] = found
distinct found (m ∷ ms) = distinct (if contains found m then found else found ++ m ∷ []) ms

distinct_all : List Text → List (List Text) → List Text
unfolding distinct
distinct_all found [] = found
distinct_all found (ms ∷ rest) = distinct_all (distinct found ms) rest

free_choice : List Text → Text
unfolding join
free_choice [] = []
free_choice (m ∷ ms) =
    codes ", or name free build and review models on a ticket: "
    ++ join (codes ", ") (m ∷ ms)
    ++ codes " (a private repository also needs the plan's private opt-in)"

-- deferralChoices
unfoldable pub deferral_choices : BudgetConfig → Text → Text → List (List Text) → Text
unfolding ceiling_name is_provider_ceiling distinct_all free_choice
deferral_choices cfg ceiling plan free_tiers =
    let held = ceiling_name cfg ceiling in
    let detail = codes "plan " ++ plan ++ codes ": wait for " ++ held ++ codes " to reset" in
    if is_empty held
    then []
    else if not (is_provider_ceiling cfg ceiling)
    then detail
    else detail ++ free_choice (distinct_all [] free_tiers)

-- PollInterval
abbrev pub poll_interval : Time
poll_interval = 15 * minute

pub deferral_notice : Text → Time → Text → Text → Time → Text × Notice
unfolding path_escape unix_text
deferral_notice ceiling start link detail at = (
  codes "deferral-" ++ path_escape ceiling ++ codes "-" ++ unix_text start,
  record {
    class = codes "deferral:" ++ ceiling;
    detail = detail;
    link = link;
    state = pending;
    raised_at = at;
  },
)

-- Spend and what noticeDeferral makes of it, for a ceiling whose window started at `start`.
unfoldable pub notice_binding :
    BudgetConfig
    → Text
    → Reservation
    → Text
    → Text
    → Text
    → Result SettledHistory
    → Time
    → Time
    → Db
    → Bool × Db
unfolding reserved_totals sums still_binds raise deferral_notice
notice_binding cfg model estimate ceiling link detail (err e) start at db = (false, db)
notice_binding cfg model estimate ceiling link detail (ok h) start at db =
    if not (
      still_binds cfg model (reserved_totals db.ledger) (sums h cfg model (at + poll_interval))
        estimate ceiling)
    then (false, db)
    else (true, raise (deferral_notice ceiling start link detail at) db)

-- noticeDeferral, with what the poll's loader of the settled history returns
unfoldable pub notice_deferral :
    BudgetConfig
    → Text
    → Reservation
    → Text
    → Text
    → Text
    → Result SettledHistory
    → Time
    → Db
    → Bool × Db
unfolding ceiling_start notice_binding
notice_deferral cfg model estimate ceiling link detail history at db =
    elim (ceiling_start cfg ceiling at) [
      | none ↦ (false, db)
      | some start ↦
          if is_empty link
          then (false, db)
          else notice_binding cfg model estimate ceiling link detail history start at db
    ]
