-- ===== src/Store/Effects/Settle.antt =====
-- What a second settle of an attempt does, and a late one.
use forge_wingman.Prelude.{
  ℕ, ◌≡◌, ◌≢◌, refl, sym, ap, ◌∙◌, inl, inr, Option, none, some, arith, Bool-cases,
}
use forge_wingman.Text.{Text}
use forge_wingman.GoMap.{lookup, delete, delete-none, lookup-delete_self, lookup-delete_other}
use forge_wingman.Dispatcher.{Stage, is_plan}
use forge_wingman.Dispatcher.Concurrency.{FloatOps}
use forge_wingman.Store.Keys.{reservation_key}
use forge_wingman.Store.Keys.Distinct.{IsRunId, reservation_key-injective}
use forge_wingman.Store.Row.{Row}
use forge_wingman.Store.Ledger.{Entry, delete_key}
use forge_wingman.Store.Db.{Db, Result, ok, err, or_err, not_found, ◌>>=◌, put_run, put_ledger}
use forge_wingman.Store.Queue.Settle.{
  RecentDurations, settle, settle_key, settle_entry, recommended_ledger,
}
use forge_wingman.Store.Trace.{left}

-- A settle that finds no reservation changes nothing.
unbooked_settle :
    (ops : FloatOps) (recent : RecentDurations) (id : Text) (attempt : Option ℕ) (stage : Stage)
    (db : Db)
    → lookup (settle_key id attempt stage) db.ledger.reservations ≡ none
    → settle ops recent id attempt stage db ≡ ok db
unfolding settle settle_entry
unbooked_settle ops recent id attempt stage db h = rw (h, settle) refl

-- Where it commits, what is left of the reservations is what the delete of its key leaves.
abbrev LeavesOut : Text → Db → Result Db → Type 0
LeavesOut k db (ok db') = db'.ledger.reservations ≡ delete k db.ledger.reservations
LeavesOut k db (err e) = Unit

planned-LeavesOut :
    (k : Text) (db : Db) (o : Option Row) (f : Row → Db)
    → ((row : Row) → (f row).ledger.reservations ≡ delete k db.ledger.reservations)
    → LeavesOut k db (or_err o not_found >>= λ row. ok (f row))
planned-LeavesOut k db none f h = tt
planned-LeavesOut k db (some row) f h = h row

settle_entry-LeavesOut :
    (ops : FloatOps) (recent : RecentDurations) (id k : Text) (found : Option Entry) (db : Db)
    → lookup k db.ledger.reservations ≡ found
    → LeavesOut k db (settle_entry ops recent id k found db)
unfolding settle_entry put_run put_ledger delete_key recommended_ledger
settle_entry-LeavesOut ops recent id k none db h = sym (delete-none k db.ledger.reservations h)
settle_entry-LeavesOut ops recent id k (some e) db h = elim (Bool-cases (is_plan e.stage)) [
  | inl p ↦ rw (p, settle_entry) (planned-LeavesOut k db (db.runs id) _ (λ row. refl))
  | inr b ↦ rw (b, settle_entry) refl
]

settle-LeavesOut :
    (ops : FloatOps) (recent : RecentDurations) (id : Text) (attempt : Option ℕ) (stage : Stage)
    (db : Db)
    → LeavesOut (settle_key id attempt stage) db (settle ops recent id attempt stage db)
unfolding settle
settle-LeavesOut ops recent id attempt stage db =
    settle_entry-LeavesOut ops recent id (settle_key id attempt stage) _ db refl

committed-LeavesOut :
    (k : Text) (db db' : Db) (r : Result Db)
    → r ≡ ok db'
    → LeavesOut k db r
    → db'.ledger.reservations ≡ delete k db.ledger.reservations
committed-LeavesOut k db db' (ok d) h l =
    ap (λ r. (left (λ d. d) db r).ledger.reservations) (sym h) ∙ l
committed-LeavesOut k db db' (err e) h l = ground arith

-- A record job that runs again settles nothing more: a second settle of the same attempt and stage, with
-- whatever phase times it reads, changes nothing.
pub settle-once :
    (ops : FloatOps) (recent recent' : RecentDurations) (id : Text) (attempt : Option ℕ)
    (stage : Stage) (db db' : Db)
    → settle ops recent id attempt stage db ≡ ok db'
    → settle ops recent' id attempt stage db' ≡ ok db'
settle-once ops recent recent' id attempt stage db db' h =
    let k = settle_key id attempt stage in
    let gone =
      committed-LeavesOut k db db' (settle ops recent id attempt stage db) h
        (settle-LeavesOut ops recent id attempt stage db) in
    unbooked_settle ops recent' id attempt stage db'
      (ap (lookup k) gone ∙ lookup-delete_self k db.ledger.reservations)

-- A late job never reaches another attempt: a settle that commits leaves every reservation of another
-- run, of another attempt or of the other stage as it was. The runs have ticket ids.
pub settle-elsewhere :
    (ops : FloatOps) (recent : RecentDurations) (id : Text) (attempt : ℕ) (stage : Stage)
    (db db' : Db) (run : Text) (a : ℕ) (s : Stage)
    → IsRunId id
    → IsRunId run
    → ¬ ((id ≡ run) × (attempt ≡ a) × (is_plan stage ≡ is_plan s))
    → settle ops recent id (some attempt) stage db ≡ ok db'
    → lookup (reservation_key run a s) db'.ledger.reservations
      ≡ lookup (reservation_key run a s) db.ledger.reservations
unfolding settle_key
settle-elsewhere ops recent id attempt stage db db' run a s is_id is_run other h =
    let k = reservation_key id attempt stage in
    let gone =
      committed-LeavesOut k db db' (settle ops recent id (some attempt) stage db) h
        (settle-LeavesOut ops recent id (some attempt) stage db) in
    let apart : reservation_key id attempt stage ≢ reservation_key run a s =
      λ p. other (reservation_key-injective id run attempt a stage s is_id is_run p) in
    ap (lookup (reservation_key run a s)) gone
    ∙ lookup-delete_other k (reservation_key run a s) db.ledger.reservations apart
