-- ===== src/Examples/Deliveries.antt =====
-- The theorems on notices at work on one notice that a poll claims and posts.
use forge_wingman.Prelude.{true, none, some, [], ◌∷◌, ◌⊎◌, inl, refl, ◌*◌, arith, In}
use forge_wingman.Text.{codes, text_eq}
use forge_wingman.Time.{Time, second}
use forge_wingman.Store.Db.{Notice, pending, posted, update}
use forge_wingman.Store.Notices.{
  Notices, Found, Answers, is_pending, is_stale, claim, ids, Delivery, post_notices,
}
use forge_wingman.Store.Notices.Once.{claim-once}
use forge_wingman.Store.Notices.Delivered.{IsPosted, post_notices-IsPosted}
use forge_wingman.Examples.{fw_1}

abbrev raised : Notice
raised = record {
  class = codes "abandoned";
  detail = [];
  link = [];
  state = pending;
  raised_at = 0;
}

abbrev outbox : Notices
outbox = update (λ id. none) fw_1 (some raised)

abbrev found_1 : Found
found_1 = (fw_1, raised) ∷ []

abbrev poll_1 : Time
poll_1 = 1000 * second

abbrev outbox_1 : Notices
outbox_1 = (claim poll_1 found_1 [] outbox).1

no_pending : Answers is_pending (claim poll_1 found_1 [] outbox).1 []
no_pending = (tt, omega arith)

no_stale : Answers (is_stale 900) (claim poll_1 found_1 [] outbox).1 []
no_stale = (tt, omega arith)

fw_1_taken : In fw_1 (ids (claim poll_1 found_1 [] outbox).0)
unfolding claim
fw_1_taken = inl refl

claim-once_example :
    ¬ In fw_1 (ids (claim (1900 * second) [] [] (claim poll_1 found_1 [] outbox).1).0)
claim-once_example =
    claim-once poll_1 (1900 * second) 900 found_1 [] [] [] outbox fw_1 (omega arith) no_pending
      no_stale fw_1_taken

abbrev delivery : Delivery
delivery = record { poster = some (λ n. true); writes = λ id. true }

marked : IsPosted (post_notices delivery poll_1 found_1 [] outbox).1 fw_1
unfolding post_notices text_eq
marked = (record raised { state = posted }, refl, refl)

post_notices-IsPosted_example :
    IsPosted outbox fw_1 ⊎ In fw_1 (post_notices delivery poll_1 found_1 [] outbox).0
post_notices-IsPosted_example = post_notices-IsPosted delivery poll_1 found_1 [] outbox fw_1 marked
