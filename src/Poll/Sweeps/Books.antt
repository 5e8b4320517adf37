-- ===== src/Poll/Sweeps/Books.antt =====
-- The sweep is single transactions, one after another, and keeps the books with the poll ahead of it.
use mathlib.Core.Path.{subst}
use forge_wingman.Prelude.{ℕ, ◌≤◌, ◌≡◌, refl, sym, Option, none, some, List, [], ◌∷◌}
use forge_wingman.Text.{Text}
use forge_wingman.Time.{Time}
use forge_wingman.Dispatcher.Admit.{or_default}
use forge_wingman.Dispatcher.Concurrency.{FloatOps}
use forge_wingman.Store.Db.{Db}
use forge_wingman.Store.Sweep.{
  AbandonWindows, Abandoned, abandon, expired_keys, release_each, release_if_settled,
  release_settled_reservations,
}
use forge_wingman.Store.Accounting.Operations.{Balanced}
use forge_wingman.Store.Trace.{Op, op_claim, apply, op_abandon, op_release_settled}
use forge_wingman.Store.Trace.Cap.{booked}
use forge_wingman.Store.Trace.Cap.Bound.{IsCapped}
use forge_wingman.Store.Trace.Traced.{
  Traced, Traced-refl, Traced-trans, one_step, Traced-kept, any_numbers,
}
use forge_wingman.Poll.{Config}
use forge_wingman.Poll.Whole.{World, Polled, poll}
use forge_wingman.Poll.Whole.Booked.{FindsTickets, poll-Phased}
use forge_wingman.Poll.Whole.Kept.{Phased-kept}
use forge_wingman.Poll.Sweeps.{
  Swept, swept_first, abandon_windows, stale_claims, abandon_each, sweep, sweep_abandoned,
  polled_db, poll_and_sweep,
}

swept_first_db : (found : Option Abandoned) (s : Swept) → (swept_first found s).db ≡ s.db
swept_first_db none s = refl
swept_first_db (some a) s = refl

-- The transactions of the sweep.
abbrev OfSweep : Op → Type 0
OfSweep (op_abandon id now w) = Unit
OfSweep (op_release_settled key now w) = Unit
OfSweep o = ⊥

of_sweep : (b : ℕ) (o : Op) → OfSweep o → IsCapped b o
of_sweep b (op_claim id at cfg facts history res) h = absurd h
of_sweep b o h = tt

module _ (ops : FloatOps) (now : Time) (w : AbandonWindows) where
  abandon_each-Traced :
      (ids : List Text) (db : Db) → Traced ops OfSweep db (abandon_each ids now w db).db
  unfolding abandon_each apply
  abandon_each-Traced [] db = Traced-refl ops OfSweep db
  abandon_each-Traced (id ∷ ids) db =
      let found = abandon id now w db in
      subst (Traced ops OfSweep db) (sym (swept_first_db found.0 (abandon_each ids now w found.1)))
        (Traced-trans ops OfSweep db found.1 _ (one_step ops OfSweep (op_abandon id now w) db tt tt)
          (abandon_each-Traced ids found.1))

  release_each-Traced :
      (keys : List Text) (db : Db) → Traced ops OfSweep db (release_each keys now w db)
  unfolding release_each apply
  release_each-Traced [] db = Traced-refl ops OfSweep db
  release_each-Traced (k ∷ keys) db =
      let after = (release_if_settled k now w db).1 in
      Traced-trans ops OfSweep db after _
        (one_step ops OfSweep (op_release_settled k now w) db tt tt)
        (release_each-Traced keys after)

sweep_abandoned-Traced :
    (ops : FloatOps) (ids : List Text) (now : Time) (db : Db)
    → Traced ops OfSweep db (sweep_abandoned ids now db).1
unfolding sweep_abandoned sweep release_settled_reservations
sweep_abandoned-Traced ops ids now db =
    let swept =
      (abandon_each (stale_claims ids now abandon_windows db) now abandon_windows db).db in
    Traced-trans ops OfSweep db swept _
      (abandon_each-Traced ops now abandon_windows (stale_claims ids now abandon_windows db) db)
      (release_each-Traced ops now abandon_windows
        (expired_keys swept.ledger.reservations now abandon_windows) swept)

polled_db-kept :
    (c : Config) (w : World) (db : Db) (o : Option Polled)
    → FindsTickets w
    → poll c w db ≡ o
    → Balanced db × (booked db ≤ (or_default c.limits).platform_cap)
    → Balanced (polled_db db o) × (booked (polled_db db o) ≤ (or_default c.limits).platform_cap)
polled_db-kept c w db none finds h kept = kept
polled_db-kept c w db (some p) finds h kept =
    Phased-kept any_numbers c w db p (poll-Phased any_numbers c w db p finds h) kept

-- A poll and the sweep after it, whatever of the poll fails and whatever it reads, leave the books balanced
-- and no more stages booked than the configured platform cap, if both held before and the ids that the
-- query for candidates finds are tickets' ids.
pub poll_and_sweep-Balanced :
    (c : Config) (w : World) (claimed_ids : Db → List Text) (now : Time) (db : Db)
    → FindsTickets w
    → Balanced db
    → booked db ≤ (or_default c.limits).platform_cap
    → Balanced (poll_and_sweep c w claimed_ids now db).1.1
      × (booked (poll_and_sweep c w claimed_ids now db).1.1 ≤ (or_default c.limits).platform_cap)
unfolding poll_and_sweep
poll_and_sweep-Balanced c w claimed_ids now db finds bal below =
    let cap = (or_default c.limits).platform_cap in
    let mid = polled_db db (poll c w db) in
    Traced-kept any_numbers OfSweep cap (of_sweep cap) mid _
      (sweep_abandoned-Traced any_numbers (claimed_ids mid) now mid)
      (polled_db-kept c w db (poll c w db) finds refl (bal, below))
