-- ===== src/Examples/Waits.antt =====
-- The theorem on a run that waits on its owner, once with a reply and once past the deadline.
use mathlib.Core.Option.{none-ne-some}
use forge_wingman.GoMap.{lookup}
use forge_wingman.Store.Accounting.Operations.{Balanced}
use forge_wingman.Store.Trace.Cap.{booked}
use forge_wingman.Poll.Decide.Books.{post_decisions-Balanced}
use forge_wingman.Text.{Text, codes, text_eq}
use forge_wingman.Prelude.{◌+◌, ◌*◌, ◌≤◌, none, refl, inl, inr, true, false, some, [], ◌∷◌}
use forge_wingman.Time.{Time, minute}
use forge_wingman.Runner.{Decision}
use forge_wingman.Store.Row.{Row, DecisionEntry, waiting}
use forge_wingman.Store.Db.{Db}
use forge_wingman.Store.Queue.Enqueue.{new_row}
use forge_wingman.Store.Trace.{initial}
use forge_wingman.Poll.Decide.{
  Desk, WaitingRun, match, deadline, decision_timeout, Listings, post_decisions,
}
use forge_wingman.Poll.Decide.Resolved.{IsDue}
use forge_wingman.Examples.{fw_1, now, ticket_run}

abbrev colours : Decision
colours = record {
  question = codes "Which colour?";
  context = [];
  options =
      (record { label = codes "Red"; value = codes "red"; cost = codes "none" })
      ∷ (record { label = codes "Blue"; value = codes "blue"; cost = codes "none" })
      ∷ [];
}

abbrev entry : Text → Time → DecisionEntry
entry reply replied_at = record {
  decision = colours;
  session_id = codes "session";
  asked_at = now;
  posted_at = now;
  answer = [];
  reply = reply;
  replied_at = replied_at;
  provisional = false;
  confirmed_at = 0;
}

abbrev waiting_row : Text → Time → Row
waiting_row reply replied_at = record (new_row (ticket_run fw_1)) {
  state = waiting;
  decisions = entry reply replied_at ∷ [];
  run_url = codes "url";
}

abbrev waiting_db : Text → Time → Db
waiting_db reply replied_at = record initial { runs = λ id. some (waiting_row reply replied_at) }

abbrev waits : Text → Time → WaitingRun
waits reply replied_at = record {
  run_id = fw_1;
  decision = colours;
  asked_at = now;
  posted_at = now;
  reply = reply;
  replied_at = replied_at;
  run_url = codes "url";
  index = 1;
}

abbrev desk : Desk
desk = record {
  session = λ id. some (codes "session");
  elicits = λ session d. true;
  elicits_taken = λ session d taken. true;
  same = text_eq;
  timeout = 0;
  raises = λ id. true;
  writes = λ id. true;
}

replied : IsDue desk (waits (codes "blue") (now + 5)) (now + 10)
unfolding match text_eq
replied = inl (refl, (_, refl))

silent : IsDue desk (waits [] 0) (now + 25 * 60 * minute)
unfolding deadline decision_timeout
silent = inr (refl, refl)

waiting-Balanced : Balanced (waiting_db [] 0)
unfolding lookup
waiting-Balanced = record {
  booked = λ k e h. absurd (none-ne-some e h);
  single = λ j k d e h i p. absurd (none-ne-some d h);
}

abbrev finds_fw_1 : Listings
finds_fw_1 = record {
  waiting = λ db. some (fw_1 ∷ []);
  unposted = λ db. some [];
  replied = λ db. none;
}

post_decisions-Balanced_example :
    Balanced (post_decisions desk finds_fw_1 (now + 25 * 60 * minute) (waiting_db [] 0)).1
    × (booked (post_decisions desk finds_fw_1 (now + 25 * 60 * minute) (waiting_db [] 0)).1
        ≤ booked (waiting_db [] 0))
post_decisions-Balanced_example =
    post_decisions-Balanced desk finds_fw_1 (now + 25 * 60 * minute) (waiting_db [] 0)
      waiting-Balanced
