-- ===== src/Store/Decisions/Provisional.antt =====
-- internal/store/decision.go: the decisions that auto-pilot took, the owner's replies to them, and the
-- supersede of a run whose owner chose another option.
use forge_wingman.Prelude.{
  ℕ, zero, suc, ◌+◌, ◌-◌, ◌*◌, ◌^◌, Bool, true, false, not, ◌&&◌, ◌||◌, ◌==◌, Option, none, some,
  List, [], ◌∷◌, ltb, leb, if◌then◌else◌, get_elem?, set, contains_func,
}
use forge_wingman.Text.{Text, codes, text_eq}
use forge_wingman.Text.Split.{starts_with}
use forge_wingman.Time.{Time, is_zero}
use forge_wingman.Store.Row.{
  Row, RunState, DecisionEntry, queued, is_waiting, is_recorded, is_abandoned,
}
use forge_wingman.Store.Db.{
  Db, Error, reply_unusable, not_ended, stale_reply, waiting_on_decision, in_flight_still,
  dispatchable, Result, ok, err, ◌>>=◌,
}
use forge_wingman.Store.Queue.Requeue.{plain, RequeueResult, Decide, requeue, requeue_state}
use forge_wingman.Store.Decisions.{
  last_index, last_unanswered, is_blank, with_entry, entry_at, update_row,
}

-- The newest posted decision, when auto-pilot took it and the owner has not confirmed it.
unfoldable pub unconfirmed_posted : List DecisionEntry → Option ℕ
unfolding last_index
unconfirmed_posted es = elim (last_index (λ e. not (is_zero e.posted_at)) es) [
  | none ↦ none
  | some i ↦ elim (get_elem? es i) [
    | none ↦ none
    | some e ↦ if not e.provisional || not (is_zero e.confirmed_at) then none else some i
  ]
]

reply_index : Row → Option ℕ
unfolding last_unanswered unconfirmed_posted is_waiting
reply_index row =
    if not (is_waiting row.state)
    then unconfirmed_posted row.decisions
    else if is_recorded row.outcome
    then none
    else last_unanswered row.decisions

unfoldable pub replied_row : Text → Text → Time → Row → Option Row
unfolding reply_index with_entry is_waiting text_eq
replied_row session text at row = elim (entry_at (reply_index row) row) [
  | none ↦ none
  | some ie ↦
      let row' = with_entry row ie.0 (record ie.1 { reply = text; replied_at = at }) in
      if not (text_eq ie.1.session_id session)
      then none
      else if not (is_waiting row.state)
      then some (record row' { provisional_replied = true })
      else some row'
]

unfoldable pub reply : Text → Text → Text → Time → Db → Bool × Db
unfolding is_blank update_row replied_row
reply run_id session text at db =
    if is_blank text then (false, db) else update_row run_id (replied_row session text at) db

-- slices.IndexFunc
index_func : (DecisionEntry → Bool) → List DecisionEntry → Option ℕ
index_func p [] = none
index_func p (e ∷ es) =
    let rest : Option ℕ = elim (index_func p es) [ none ↦ none | some i ↦ some (i + 1) ] in
    if p e then some 0 else rest

-- firstUnpostedProvisional
unfoldable pub first_unposted : List DecisionEntry → Option ℕ
unfolding index_func
first_unposted es = index_func (λ e. e.provisional && is_zero e.posted_at) es

unfoldable pub posted_provisional_row : Text → Time → Row → Option Row
unfolding first_unposted with_entry
posted_provisional_row session at row = elim (entry_at (first_unposted row.decisions) row) [
  | none ↦ none
  | some ie ↦
      let row' = with_entry row ie.0 (record ie.1 { session_id = session; posted_at = at }) in
      if is_recorded (first_unposted row'.decisions)
      then some row'
      else some (record row' { provisional_unposted = false })
]

unfoldable pub posted_provisional : Text → Text → Time → Db → Db
unfolding update_row posted_provisional_row
posted_provisional run_id session at db =
    (update_row run_id (posted_provisional_row session at) db).1

abbrev unhandled : DecisionEntry → Bool
unhandled e = e.provisional && is_zero e.confirmed_at && not (is_zero e.replied_at)

unfoldable pub replied_provisional : List DecisionEntry → Option ℕ
unfolding last_index
replied_provisional es = last_index unhandled es

-- index - 1, none below 1
abbrev before_index : ℕ → Option ℕ
before_index zero = none
before_index (suc i) = some i

unfoldable pub confirmed_row : ℕ → Time → Time → Row → Option Row
unfolding replied_provisional with_entry
confirmed_row index replied_at at row = elim (entry_at (before_index index) row) [
  | none ↦ none
  | some ie ↦
      let row' = with_entry row ie.0 (record ie.1 { confirmed_at = at }) in
      if not ie.1.provisional
        || not (is_zero ie.1.confirmed_at)
        || not (ie.1.replied_at == replied_at)
      then none
      else if is_recorded (replied_provisional row'.decisions)
      then some row'
      else some (record row' { provisional_replied = false })
]

unfoldable pub confirm_provisional : Text → ℕ → Time → Time → Db → Db
unfolding update_row confirmed_row
confirm_provisional run_id index replied_at at db =
    (update_row run_id (confirmed_row index replied_at at) db).1

unfoldable pub cleared_row : Time → Row → Option Row
unfolding replied_provisional
cleared_row replied_at row = elim (entry_at (replied_provisional row.decisions) row) [
  | none ↦ none
  | some ie ↦
      if not (ie.1.replied_at == replied_at)
      then none
      else some (record row { provisional_replied = false })
]

unfoldable pub clear_provisional_reply : Text → Time → Db → Db
unfolding update_row cleared_row
clear_provisional_reply run_id replied_at db = (update_row run_id (cleared_row replied_at) db).1

-- supersedeUpdates
unfoldable pub supersede_updates : Row → ℕ → Bool → Row → Row
supersede_updates old pr by_retry row = record row {
  superseded_attempt = some old.attempt;
  superseded_pr = pr;
  superseded_by_retry = ltb 0 pr && by_retry;
  prior_settled_cost = old.settled_cost;
  prior_settled_minutes = old.settled_minutes;
}

-- What follows the first `sep`, if it occurs.
after : Text → Text → Option Text
after sep [] = none
after sep (c ∷ s) = if starts_with sep (c ∷ s) then some (drop_prefix sep (c ∷ s)) else after sep s
  where
    drop_prefix : Text → Text → Text
    drop_prefix [] s = s
    drop_prefix (p ∷ ps) [] = []
    drop_prefix (p ∷ ps) (c ∷ s) = drop_prefix ps s

decimal : ℕ → Text → Option ℕ
decimal n [] = some n
decimal n (c ∷ s) = if leb b'0' c && leb c b'9' then decimal (10 * n + (c - b'0')) s else none

-- strconv.Atoi, with zero for an error and for a negative number
unfoldable pub atoi_or_zero : Text → ℕ
unfolding decimal
atoi_or_zero [] = 0
atoi_or_zero (c ∷ s) = elim (digits_of c s) [ none ↦ 0 | some n ↦ if ltb n (2 ^ 63) then n else 0 ]
  where
    digits_of : ℕ → Text → Option ℕ
    digits_of c [] = decimal 0 (c ∷ [])
    digits_of c (d ∷ s) = if c == b'+' then decimal 0 (d ∷ s) else decimal 0 (c ∷ d ∷ s)

-- pullNumber
unfoldable pub pull_number : Text → ℕ
unfolding after atoi_or_zero
pull_number url = elim (after (codes "/pull/") url) [ none ↦ 0 | some num ↦ atoi_or_zero num ]

reword : Error → Error
reword in_flight_still = not_ended
reword dispatchable = not_ended
reword waiting_on_decision = reply_unusable
reword e = e

ended_or : Row → Result RunState
unfolding requeue_state reword
ended_or row = elim (requeue_state row) [ ok s ↦ ok s | err e ↦ err (reword e) ]

rejected_entry : ℕ → Time → Row → Result (ℕ × DecisionEntry)
rejected_entry index replied_at row = elim (entry_at (before_index index) row) [
  | none ↦ err reply_unusable
  | some ie ↦
      if not ie.1.provisional
      then err reply_unusable
      else if not (ie.1.replied_at == replied_at)
      then err stale_reply
      else ok ie
]

superseded_row : Row → ℕ → DecisionEntry → Text → Row → Row
unfolding supersede_updates pull_number
superseded_row old i e choice row =
    let decisions = set old.decisions i (record e { answer = choice; provisional = false }) in
    let row' = record (supersede_updates old (pull_number old.pr_url) false row) {
      decisions = decisions;
    } in
    if contains_func unhandled decisions then row' else record row' { provisional_replied = false }

unfoldable pub decide_supersede : ℕ → Time → Text → Decide
unfolding ended_or rejected_entry superseded_row is_abandoned
decide_supersede index replied_at choice row =
    if is_abandoned row.state then err reply_unusable else do
      checked ← ended_or row
      ie ← rejected_entry index replied_at row
      ok (queued, superseded_row row ie.0 ie.1 choice)

-- Supersede, whose caller takes `stale_reply` for a success that changed nothing
unfoldable pub supersede : Text → ℕ → Time → Text → Time → Db → Result (RequeueResult × Db)
unfolding requeue decide_supersede
supersede run_id index replied_at choice at db =
    requeue run_id at plain (decide_supersede index replied_at choice) db
