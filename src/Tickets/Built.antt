-- ===== src/Tickets/Built.antt =====
-- What an issue that becomes a queued run has.
use mathlib.Core.Option.{none-ne-some, some-injective}
use mathlib.Core.Path.{subst}
use mathlib.Core.Bool.{false≢true}
use forge_wingman.Prelude.{
  ℕ, ◌≤◌, ◌≡◌, ◌≢◌, refl, sym, ap, ◌∙◌, inl, inr, Bool, true, false, ◌&&◌, none, some, List, [],
  ◌∷◌, In, arith, Option-cases, Bool-cases, ◌==◌,
}
use forge_wingman.Text.{Text, codes, equal_fold, contains, contains_iff}
use forge_wingman.Time.{Time}
use forge_wingman.Int64.{Int64}
use forge_wingman.Runner.Ticket.{
  Ticket, id_rest, is_ticket_id, is_alphanumeric, ticket_sizes, validate,
}
use forge_wingman.Store.Keys.Distinct.{IsRunId}
use forge_wingman.Store.Queue.Enqueue.{Queued}
use forge_wingman.Tickets.{
  Issue, Checked, passed, refused, Refusal, label_value, listed_as, repository, ticket_size,
  priority_rank, Wording, ticket_for, queued_for, ranked, validated, ◌then_check◌, build,
}

id_rest-IsRunId : (b : Bool) (s : Text) → id_rest b s ≡ true → IsRunId s
unfolding id_rest
id_rest-IsRunId b [] h = tt
id_rest-IsRunId b (c ∷ s) h = elim (Bool-cases (is_alphanumeric c)) [
  | inl word ↦ (ground arith, id_rest-IsRunId true s (rw (word, id_rest) at h))
  | inr mark ↦ elim (Bool-cases (b && c == b'-')) [
    | inl hyphen ↦ (ground arith, id_rest-IsRunId false s (rw (mark, hyphen, id_rest) at h))
    | inr other ↦ absurd (false≢true (rw (mark, other, id_rest) at h))
  ]
]

validate_size :
    (t : Ticket)
    → validate t ≡ none
    → (is_ticket_id t.id ≡ true) × (contains ticket_sizes t.size ≡ true)
unfolding validate
validate_size t h = ground arith

abbrev or_unit : {A : Type 0} → A → Checked A → A
or_unit a (passed b) = b
or_unit a (refused why detail) = a

pub passed-injective : {A : Type 0} (a b : A) → passed a ≡ passed b → a ≡ b
passed-injective a b h = ap (or_unit a) h

abbrev Passes : {A : Type 0} → Checked A → Type 0
Passes (passed a) = Unit
Passes (refused why detail) = ⊥

pub refused-ne-passed :
    {A : Type 0} (why : Refusal) (detail : Text) (a : A) → refused why detail ≢ passed a
refused-ne-passed why detail a h = subst Passes (sym h) tt

then_check-passed :
    {A B : Type 0} (c : Checked A) (f : A → Checked B) (b : B)
    → c then_check f ≡ passed b
    → (a : A) × (c ≡ passed a) × (f a ≡ passed b)
then_check-passed (passed a) f b h = (a, refl, h)
then_check-passed (refused why detail) f b h = absurd (refused-ne-passed why detail b h)

listed_as-In :
    (allow : List Text) (label repo : Text)
    → listed_as allow label ≡ some repo
    → In repo allow × (equal_fold repo label ≡ true)
unfolding listed_as
listed_as-In [] label repo h = absurd (none-ne-some repo h)
listed_as-In (r ∷ rs) label repo h = elim (Bool-cases (equal_fold r label)) [
  | inl folds ↦
      let e = some-injective r repo (rw (folds, listed_as) at h) in
      (inl (sym e), ap (λ (t : Text). equal_fold t label) (sym e) ∙ folds)
  | inr other ↦
      let (among, folds) = listed_as-In rs label repo (rw (other, listed_as) at h) in
      (inr among, folds)
]

repository-listed :
    (labels allow : List Text) (repo : Text)
    → repository labels allow ≡ passed repo
    → (label : Text) × (label_value labels (codes "repo:") ≡ some label)
      × In repo allow
      × (equal_fold repo label ≡ true)
unfolding repository
repository-listed labels allow repo h = elim (Option-cases (label_value labels (codes "repo:"))) [
  | inl unnamed ↦ absurd (refused-ne-passed _ _ repo (rw (unnamed, repository) at h))
  | inr (label, named) ↦ elim (Option-cases (listed_as allow label)) [
    | inl unlisted ↦ absurd (refused-ne-passed _ _ repo (rw (named, unlisted, repository) at h))
    | inr (r, found) ↦
        let e = passed-injective r repo (rw (named, found, repository) at h) in
        let (among, folds) = listed_as-In allow label repo (found ∙ ap some e) in
        (label, named, among, folds)
  ]
]

priority_rank_bounds :
    (p : Int64) (rank : ℕ) → priority_rank p ≡ some rank → (1 ≤ rank) × (rank ≤ 5)
unfolding priority_rank
priority_rank_bounds p rank h = ground arith

ranked_bounds :
    (w : Wording) (p : Int64) (rank : ℕ) → ranked w p ≡ passed rank → (1 ≤ rank) × (rank ≤ 5)
unfolding ranked
ranked_bounds w p rank h = elim (Option-cases (priority_rank p)) [
  | inl outside ↦ absurd (refused-ne-passed _ _ rank (rw (outside, ranked) at h))
  | inr (r, ranks) ↦
      priority_rank_bounds p rank
        (ranks ∙ ap some (passed-injective r rank (rw (ranks, ranked) at h)))
]

validated-none :
    (w : Wording) (t u : Ticket) → validated w t ≡ passed u → (validate t ≡ none) × (t ≡ u)
unfolding validated
validated-none w t u h = elim (Option-cases (validate t)) [
  | inl fine ↦ (fine, passed-injective t u (rw (fine, validated) at h))
  | inr (fault, broken) ↦ absurd (refused-ne-passed _ _ u (rw (broken, validated) at h))
]

-- What the dispatcher holds an issue to that it makes a run of.
pub record IsBuilt (allow : List Text) (issue : Issue) (q : Queued) : Type 0 where
  pub same_id : q.run_id ≡ issue.id
  pub is_id : IsRunId q.run_id
  pub named :
      (label : Text) × (label_value issue.labels (codes "repo:") ≡ some label)
      × (equal_fold q.repo label ≡ true)
  pub listed : In q.repo allow
  pub is_size : In q.size ticket_sizes
  pub is_rank : (1 ≤ q.priority) × (q.priority ≤ 5)

IsBuilt-queued_for :
    (allow : List Text) (issue : Issue) (t : Ticket) (repo : Text) (rank : ℕ) (at : Time)
    → t.id ≡ issue.id
    → validate t ≡ none
    → (label : Text) × (label_value issue.labels (codes "repo:") ≡ some label)
      × In repo allow
      × (equal_fold repo label ≡ true)
    → (1 ≤ rank) × (rank ≤ 5)
    → IsBuilt allow issue (queued_for issue t repo rank at)
unfolding queued_for is_ticket_id
IsBuilt-queued_for allow issue t repo rank at same fine (label, names, among, folds) bounds =
    record {
      same_id = refl;
      is_id = subst IsRunId same (id_rest-IsRunId false t.id (validate_size t fine).0);
      named = (label, names, folds);
      listed = among;
      is_size = (contains_iff ticket_sizes t.size).0 (validate_size t fine).1;
      is_rank = bounds;
    }

-- A delegated issue becomes a queued run only if the run is of a repository of the allowlist, spelled as
-- there, that the first repo: label with a value names but for its case; and then its id holds no `#`,
-- its size is S, M or L, and its rank is 1 to 5.
pub build-IsBuilt :
    (w : Wording) (allow : List Text) (issue : Issue) (at : Time) (q : Queued)
    → build w allow issue at ≡ passed q
    → IsBuilt allow issue q
unfolding build ticket_for
build-IsBuilt w allow issue at q h =
    let (repo, found, h1) = then_check-passed (repository issue.labels allow) _ q h in
    let (sized, size_found, h2) = then_check-passed (ticket_size issue) _ q h1 in
    let (rank, ranks, h3) = then_check-passed (ranked w issue.priority) _ q h2 in
    let (t, valid, h4) = then_check-passed (validated w (ticket_for issue sized)) _ q h3 in
    let (fine, same) = validated-none w (ticket_for issue sized) t valid in
    subst (IsBuilt allow issue) (passed-injective (queued_for issue t repo rank at) q h4) (
      IsBuilt-queued_for allow issue t repo rank at (ap (λ (u : Ticket). u.id) (sym same))
        (ap validate (sym same) ∙ fine) (repository-listed issue.labels allow repo found)
        (ranked_bounds w issue.priority rank ranks))
