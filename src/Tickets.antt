-- ===== src/Tickets.antt =====
-- internal/dispatcher/ticket.go: a delegated issue becomes a queued run, or is refused. The repositories it
-- may name are those of a poll's configuration.
pub mod Signals
pub mod Sizer
pub mod Models
pub mod Built
pub mod Admission
use forge_wingman.Prelude.{
  ℕ, ◌-◌, ◌&&◌, ◌||◌, Bool, true, false, not, Option, none, some, List, [], ◌∷◌, ◌++◌, leb, ◌==◌,
  if◌then◌else◌, map, contains_func,
}
use forge_wingman.Text.{Text, codes, is_empty, text_eq, equal_fold}
use forge_wingman.Text.Split.{cut_prefix, split}
use forge_wingman.Time.{Time}
use forge_wingman.Int64.{Int64}
use forge_wingman.Runner.{ModelLabels}
use forge_wingman.Runner.Ticket.{Ticket, TicketFault, validate}
use forge_wingman.Store.Db.{Rejection}
use forge_wingman.Store.Queue.Enqueue.{Queued}
use forge_wingman.Tickets.Sizer.{signal_size, sized_by_signals}

-- What admission and the walk read of an issue.
pub record Issue : Type 0 where
  pub id : Text
  pub url : Text
  pub title : Text
  pub body : Text
  pub priority : Int64
  pub labels : List Text
  pub blocked_by : List Text
  pub blocks : List Text
  pub blocked_by_open : List Text

pub data Refusal : Type 0 where
  size_unknown above_ceiling no_repository not_allowlisted ticket_invalid : Refusal
  model_malformed review_is_build model_unconfigured model_not_opted_in : Refusal

-- A refusal as the queue records it.
unfoldable pub refusal_text : Refusal → Text
refusal_text size_unknown = codes "size-unknown"
refusal_text above_ceiling = codes "size-above-ceiling"
refusal_text no_repository = codes "no-repository"
refusal_text not_allowlisted = codes "repository-not-allowlisted"
refusal_text ticket_invalid = codes "ticket-invalid"
refusal_text model_malformed = codes "model-malformed"
refusal_text review_is_build = codes "review-model-is-build-model"
refusal_text model_unconfigured = codes "model-provider-unconfigured"
refusal_text model_not_opted_in = codes "model-per-token-not-opted-in"

-- What a check reads, or the refusal that it draws with the detail.
pub data Checked (A : Type 0) : Type 0 where
  passed : A → Checked A
  refused : Refusal → Text → Checked A

-- labelValue
unfoldable pub label_value : List Text → Text → Option Text
unfolding cut_prefix
label_value [] prefix = none
label_value (label ∷ labels) prefix =
    let rest = label_value labels prefix in
    elim (cut_prefix prefix label) [
      | none ↦ rest
      | some value ↦ if is_empty value then rest else some value
    ]

-- The first repository of the allowlist that the label folds to.
unfoldable pub listed_as : List Text → Text → Option Text
unfolding equal_fold
listed_as [] label = none
listed_as (repo ∷ repos) label =
    let rest = listed_as repos label in if equal_fold repo label then some repo else rest

-- repository
unfoldable pub repository : List Text → List Text → Checked Text
unfolding label_value listed_as
repository labels allow = elim (label_value labels (codes "repo:")) [
  | none ↦ refused no_repository (codes "no repo: label")
  | some label ↦ elim (listed_as allow label) [
    | none ↦ refused not_allowlisted (label ++ codes " is not an allowlisted repository")
    | some repo ↦ passed repo
  ]
]

-- unicode.ToUpper on ASCII
abbrev upper_code : ℕ → ℕ
upper_code c = if leb b'a' c && leb c b'z' then c - 32 else c

is_size : Text → Bool
unfolding text_eq
is_size s = text_eq s (codes "S") || text_eq s (codes "M") || text_eq s (codes "L")

by_signals : Text × Text → Checked (Text × Text)
unfolding text_eq
by_signals (size, why) =
    if text_eq size (codes "XL")
    then refused above_ceiling (codes "sized " ++ size ++ codes " by its signals, above L: " ++ why)
    else passed (size, sized_by_signals)

by_label : Text → Checked (Text × Text)
unfolding is_size text_eq
by_label label =
    let s = map upper_code label in
    if is_size s
    then passed (s, codes "linear-label")
    else if text_eq s (codes "XL")
    then refused above_ceiling (codes "size " ++ s ++ codes " is above L")
    else refused size_unknown (codes "size " ++ label ++ codes " is not S, M or L")

-- ticketSize: the size and what sized it
unfoldable pub ticket_size : Issue → Checked (Text × Text)
unfolding label_value by_signals by_label signal_size
ticket_size issue = elim (label_value issue.labels (codes "size:")) [
  | none ↦ by_signals (signal_size issue.title issue.body)
  | some label ↦ by_label label
]

named_or_none : Option Text → Text
named_or_none none = []
named_or_none (some value) = value

listed_models : Option Text → List Text
unfolding split
listed_models none = []
listed_models (some list) = split b',' list

-- Overrides
unfoldable pub overrides : Issue → ModelLabels
unfolding label_value named_or_none listed_models
overrides issue = record {
  build = named_or_none (label_value issue.labels (codes "model:"));
  review = named_or_none (label_value issue.labels (codes "review-model:"));
  plan = listed_models (label_value issue.labels (codes "plan-model:"));
}

-- PriorityRank
unfoldable pub priority_rank : Int64 → Option ℕ
priority_rank p = if p == 0 then some 5 else if leb p 4 then some p else none

-- The words of an invalid ticket's refusal, which quote its texts.
pub record Wording : Type 0 where
  pub fault : Ticket → TicketFault → Text
  pub rank : Int64 → Text

unfoldable pub ticket_for : Issue → Text × Text → Ticket
unfolding equal_fold
ticket_for issue (size, sized_by) = record {
  id = issue.id;
  title = issue.title;
  size = size;
  sized_by = sized_by;
  body = issue.body;
  plan_files = [];
  decisions = [];
  front_end = contains_func (λ l. equal_fold l (codes "area:fe")) issue.labels;
  note = [];
}

abbrev no_models : ModelLabels
no_models = record { build = []; review = []; plan = [] }

unfoldable pub queued_for : Issue → Ticket → Text → ℕ → Time → Queued
queued_for issue t repo rank at = record {
  run_id = issue.id;
  title = t.title;
  body = t.body;
  size = t.size;
  sized_by = t.sized_by;
  front_end = t.front_end;
  repo = repo;
  private = false;
  priority = rank;
  blocked_by = issue.blocked_by;
  blocks = issue.blocks;
  models = no_models;
  at = at;
}

infixl 5 ◌then_check◌
abbrev pub ◌then_check◌ : {A B : Type 0} → Checked A → (A → Checked B) → Checked B
(passed a) then_check f = f a
(refused why detail) then_check f = refused why detail

unfoldable pub ranked : Wording → Int64 → Checked ℕ
unfolding priority_rank
ranked w p = elim (priority_rank p) [
  | none ↦ refused ticket_invalid (w.rank p)
  | some rank ↦ passed rank
]

unfoldable pub validated : Wording → Ticket → Checked Ticket
unfolding validate
validated w t = elim (validate t) [
  | none ↦ passed t
  | some fault ↦ refused ticket_invalid (w.fault t fault)
]

-- build
unfoldable pub build : Wording → List Text → Issue → Time → Checked Queued
unfolding repository ticket_size ranked validated ticket_for queued_for
build w allow issue at = repository issue.labels allow then_check λ repo.
    ticket_size issue then_check λ sized. ranked w issue.priority then_check λ rank.
    validated w (ticket_for issue sized) then_check λ t. passed (queued_for issue t repo rank at)

-- rejection
unfoldable pub rejection : Refusal → Text → Time → Rejection
unfolding refusal_text
rejection reason detail at = record { reason = refusal_text reason; detail = detail; at = at }
