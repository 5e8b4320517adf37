-- ===== src/Store/Db.antt =====
-- The documents that the queue's transactions read and write, and the errors they report. A
-- transaction that returns an error writes nothing.
use mathlib.Core.Path.{subst}
use forge_wingman.Prelude.{
  ℕ, ◌≡◌, ◌≢◌, ◌⊎◌, inl, inr, refl, sym, ap, Option, none, some, if◌then◌else◌,
}
use forge_wingman.Text.{Text, text_eq}
use forge_wingman.Time.{Time}
use forge_wingman.Store.Row.{Row}
use forge_wingman.Store.Ledger.{Ledger}

pub data Error : Type 0 where
  not_found already_queued dispatchable waiting_on_decision in_flight_still : Error
  abandoned_run retries_exhausted unrequeueable history_unread no_options : Error
  note_invalid actor_missing attempt_moved run_merged run_cancelled run_no_changes : Error
  retry_applied reply_unusable not_ended stale_reply run_not_waiting : Error
  -- Firestore does not answer or refuses a write.
  store_failed : Error

pub data Result {ℓ} (A : Type ℓ) : Type ℓ where
  ok : A → Result A
  err : Error → Result A

infixl 5 ◌>>=◌
abbrev pub ◌>>=◌ {ℓ κ} : {A : Type ℓ} {B : Type κ} → Result A → (A → Result B) → Result B
ok a >>= f = f a
err e >>= f = err e

-- Get, where a missing document is an error.
abbrev pub or_err {ℓ} : {A : Type ℓ} → Option A → Error → Result A
or_err none e = err e
or_err (some a) e = ok a

abbrev or_value {ℓ} : {A : Type ℓ} → A → Result A → A
or_value b (ok a) = a
or_value b (err e) = b

pub ok-injective {ℓ} : {A : Type ℓ} (a b : A) → ok a ≡ ok b → a ≡ b
ok-injective a b h = ap (or_value a) h

abbrev Committed {ℓ} : {A : Type ℓ} → Result A → Type 0
Committed (ok a) = Unit
Committed (err e) = ⊥

pub err-ne-ok {ℓ} : {A : Type ℓ} (e : Error) (a : A) → err e ≢ ok a
err-ne-ok e a h = subst Committed (sym h) tt

pub Result-cases {ℓ} :
    {A : Type ℓ} (r : Result A) → ((e : Error) × (r ≡ err e)) ⊎ ((a : A) × (r ≡ ok a))
Result-cases (err e) = inl (e, refl)
Result-cases (ok a) = inr (a, refl)

-- The refusal of a ticket.
pub record Rejection : Type 0 where
  pub reason : Text
  pub detail : Text
  pub at : Time

pub data NoticeState : Type 0 where
  pending posted : NoticeState
  claimed_notice : Time → NoticeState

pub record Notice : Type 0 where
  pub class : Text
  pub detail : Text
  pub link : Text
  pub state : NoticeState
  pub raised_at : Time

-- An ended attempt as `runs/<run>/attempts/<n>` keeps it.
pub record Archived : Type 0 where
  pub row : Row
  pub superseded_by_attempt : ℕ
  pub archived_at : Time

pub record Db : Type 0 where
  pub runs : Text → Option Row
  pub ledger : Ledger
  pub rejections : Text → Option Rejection
  pub notices : Text → Option Notice
  pub archive : Text → ℕ → Option Archived

abbrev pub update {ℓ} : {A : Type ℓ} → (Text → A) → Text → A → Text → A
update f k a j = if text_eq k j then a else f j

-- Update of a run's row.
unfoldable pub put_run : Text → Row → Db → Db
put_run id row db = record db { runs = update db.runs id (some row) }

unfoldable pub put_ledger : Ledger → Db → Db
put_ledger ledger db = record db { ledger = ledger }
