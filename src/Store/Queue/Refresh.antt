-- ===== src/Store/Queue/Refresh.antt =====
-- RefreshQueuedTicket: what a poll writes on a queued run whose ticket changed.
use forge_wingman.Prelude.{
  Bool, true, false, not, ◌&&◌, ◌||◌, ◌==◌, none, some, List, [], ◌∷◌, ◌++◌, ltb, if◌then◌else◌,
}
use forge_wingman.Text.{Text, codes, text_eq, texts_eq}
use forge_wingman.Store.Row.{Row, is_queued}
use forge_wingman.Store.Db.{Db, put_run}
use forge_wingman.Store.Queue.Enqueue.{Queued}

-- a <= b, of Go's order of strings
text_leb : Text → Text → Bool
text_leb [] t = true
text_leb (a ∷ s) [] = false
text_leb (a ∷ s) (b ∷ t) = ltb a b || (a == b && text_leb s t)

insert_text : Text → List Text → List Text
unfolding text_leb
insert_text s [] = s ∷ []
insert_text s (t ∷ ts) =
    let rest = insert_text s ts in if text_leb s t then s ∷ (t ∷ ts) else t ∷ rest

-- slices.Sorted
sorted_texts : List Text → List Text
unfolding insert_text
sorted_texts [] = []
sorted_texts (s ∷ ss) = insert_text s (sorted_texts ss)

-- sameMembers
unfoldable pub same_members : List Text → List Text → Bool
unfolding sorted_texts texts_eq
same_members a b = texts_eq (sorted_texts a) (sorted_texts b)

abbrev bool_eq : Bool → Bool → Bool
bool_eq true b = b
bool_eq false b = not b

abbrev pub no_files : List Text → Bool
no_files [] = true
no_files (f ∷ fs) = false

abbrev named : Text → Bool → List Text
named field same = if same then [] else field ∷ []

-- The names of the fields that the ticket changes, in the order of the checks.
unfoldable pub changed_fields : Queued → Row → List Text
unfolding text_eq same_members
changed_fields run row =
    named (codes "ticket_title") (text_eq row.ticket_title run.title)
    ++ named (codes "ticket_body") (text_eq row.ticket_body run.body)
    ++ named (codes "size") (text_eq row.size run.size)
    ++ named (codes "sized_by") (text_eq row.sized_by run.sized_by)
    ++ named (codes "front_end") (bool_eq row.front_end run.front_end)
    ++ named (codes "blocked_by") (same_members row.blocked_by run.blocked_by)
    ++ named (codes "blocks") (same_members row.blocks run.blocks)

-- A list of the same members is not written, whatever its order.
unfoldable pub refreshed_row : Queued → Row → Row
unfolding same_members
refreshed_row run row = record row {
  ticket_title = run.title;
  ticket_body = run.body;
  size = run.size;
  sized_by = run.sized_by;
  front_end = run.front_end;
  blocked_by =
      if same_members row.blocked_by run.blocked_by then row.blocked_by else run.blocked_by;
  blocks = if same_members row.blocks run.blocks then row.blocks else run.blocks;
}

-- A row that is already equal is not written.
unfoldable pub write : Queued → Db → List Text → Row → List Text × Db
unfolding refreshed_row put_run
write run db [] row = ([], db)
write run db (f ∷ fs) row = (f ∷ fs, put_run run.run_id (refreshed_row run row) db)

-- RefreshQueuedTicket, with the names of the fields it changed
unfoldable pub refresh_queued_ticket : Queued → Db → List Text × Db
unfolding changed_fields write is_queued
refresh_queued_ticket run db = elim (db.runs run.run_id) [
  | none ↦ ([], db)
  | some row ↦
      if not (is_queued row.state) || not (no_files row.plan_files)
      then ([], db)
      else write run db (changed_fields run row) row
]
