-- ===== src/Examples/Cancels.antt =====
-- The theorem on the owner's cancel at work on a run whose PR waits.
use forge_wingman.Prelude.{◌≡◌, refl}
use forge_wingman.Text.{Text, codes, text_eq}
use forge_wingman.Store.Db.{Db, ok, err, run_cancelled}
use forge_wingman.Store.Inbox.{record_cancel}
use forge_wingman.Store.Effects.Cancel.{Cancelled, Marked, record_cancel-once}
use forge_wingman.Store.Retry.{retry_with_note}
use forge_wingman.Store.Trace.{left, run}
use forge_wingman.Examples.{fw_1, now}
use forge_wingman.Examples.Requeues.{request}
use forge_wingman.Examples.Sweeps.{unsettled, much_later}

abbrev owner : Text
owner = codes "owner@example.com"

abbrev cancelled_1 : Db
cancelled_1 = left (λ d. d) unsettled (record_cancel fw_1 owner now unsettled)

cancel_recorded : record_cancel fw_1 owner now unsettled ≡ ok cancelled_1
unfolding record_cancel text_eq run
cancel_recorded = refl

cancelled_1-Marked : Marked fw_1 cancelled_1
unfolding record_cancel text_eq run
cancelled_1-Marked = record { row = _; present = refl; unmerged = refl; marked = refl }

record_cancel-once_example :
    Cancelled fw_1 owner now unsettled cancelled_1
    × Marked fw_1 cancelled_1
    × (record_cancel fw_1 owner much_later cancelled_1 ≡ err run_cancelled)
    × (left (λ r. r.1) cancelled_1 (retry_with_note fw_1 request much_later cancelled_1)
        ≡ cancelled_1)
record_cancel-once_example =
    record_cancel-once fw_1 owner owner now much_later much_later request unsettled cancelled_1
      cancelled_1 refl cancel_recorded cancelled_1-Marked
