-- ===== src/Store/Notices.antt =====
-- internal/store/breaker.go with the delivery of internal/dispatcher/notice.go: the breaker that holds
-- every dispatch, and the notices that polls claim, post and mark. The results of the claim's two
-- queries, the poster and which of its writes fail are arguments.
pub mod Once
pub mod Delivered
use forge_wingman.Prelude.{
  ℕ, Bool, true, false, Option, none, some, List, [], ◌∷◌, ◌++◌, ◌≡◌, ◌*◌, In, map, if◌then◌else◌,
  length, ◌≤◌, All,
}
use forge_wingman.Text.{Text}
use forge_wingman.Time.{Time, Duration, back, second, is_before}
use forge_wingman.Store.Db.{Notice, NoticeState, pending, posted, claimed_notice, update}

-- The dispatch/breaker document.
pub record Tripping : Type 0 where
  pub run_id : Text
  pub class : Text
  pub tripped_at : Time

-- Trip: Create, which leaves a document that is there.
unfoldable pub trip : Text → Text → Time → Option Tripping → Option Tripping
trip run_id class at none = some (record { run_id = run_id; class = class; tripped_at = at })
trip run_id class at (some first) = some first

unfoldable pub tripped : Option Tripping → Bool
tripped none = false
tripped (some first) = true

unfoldable pub reset : Option Tripping → Option Tripping
reset breaker = none

abbrev pub Notices : Type 0
Notices = Text → Option Notice

unfoldable pub is_pending : Notice → Bool
is_pending notice = elim notice.state [
  | pending ↦ true
  | posted ↦ false
  | claimed_notice at ↦ false
]

-- The query of the claimed before a time: only a claimed notice has the field it compares.
unfoldable pub is_stale : Time → Notice → Bool
is_stale before notice = elim notice.state [
  | pending ↦ false
  | posted ↦ false
  | claimed_notice at ↦ is_before at before
]

abbrev pub Found : Type 0
Found = List (Text × Notice)

abbrev pub ids : Found → List Text
ids [] = []
ids ((id, notice) ∷ found) = id ∷ ids found

-- What a query returns of the documents that its test holds of.
abbrev pub Answers : (Notice → Bool) → Notices → Found → Type 0
Answers test notices found =
    All (λ f. (notices f.0 ≡ some f.1) × (test f.1 ≡ true)) found × (length found ≤ 20)

-- Update fails on a document that is missing: nothing is written.
unfoldable pub mark : Text → NoticeState → Notices → Notices
mark id state notices = elim (notices id) [
  | none ↦ notices
  | some notice ↦ update notices id (some (record notice { state = state }))
]

unfoldable pub claim_each : Time → Found → Notices → Notices
unfolding mark
claim_each at [] notices = notices
claim_each at ((id, notice) ∷ found) notices =
    claim_each at found (mark id (claimed_notice at) notices)

-- Claim, with what its two queries found.
unfoldable pub claim : Time → Found → Found → Notices → Found × Notices
unfolding claim_each
claim at pending_found stale_found notices =
    (pending_found ++ stale_found, claim_each at (pending_found ++ stale_found) notices)

-- Update fails on a document that is missing: nothing is written.
-- Posted and Unclaim, which delete the time of the claim with the state.
abbrev pub mark_posted : Text → Notices → Notices
mark_posted id = mark id posted

abbrev pub unclaim : Text → Notices → Notices
unclaim id = mark id pending

-- How the poll's calls fare: the poster, where it opens, by the notice, and the write that ends a claim,
-- by its id.
pub record Delivery : Type 0 where
  pub poster : Option (Notice → Bool)
  pub writes : Text → Bool

unfoldable pub unclaim_each : (Text → Bool) → Found → Notices → Notices
unfolding mark
unclaim_each writes [] notices = notices
unclaim_each writes ((id, notice) ∷ found) notices =
    unclaim_each writes found (if writes id then unclaim id notices else notices)

-- A failed post is unclaimed, one that succeeds is marked posted.
unfoldable pub delivered : Bool → Bool → Text → Notices → Notices
unfolding mark
delivered true true id notices = mark_posted id notices
delivered false true id notices = unclaim id notices
delivered sent false id notices = notices

-- The loop over the claimed ones, with the ids of those posted.
unfoldable pub post_each : (Notice → Bool) → (Text → Bool) → Found → Notices → List Text × Notices
unfolding delivered
post_each posts writes [] notices = ([], notices)
post_each posts writes ((id, notice) ∷ found) notices =
    let rest = post_each posts writes found (delivered (posts notice) (writes id) id notices) in
    (if posts notice then id ∷ rest.0 else rest.0, rest.1)

abbrev pub notice_lease : Duration
notice_lease = 900 * second

-- postNotices, where its claim commits
unfoldable pub post_notices : Delivery → Time → Found → Found → Notices → List Text × Notices
unfolding claim post_each unclaim_each
post_notices delivery at pending_found stale_found notices =
    let claimed = claim at pending_found stale_found notices in
    elim delivery.poster [
      | none ↦ ([], unclaim_each delivery.writes claimed.0 claimed.1)
      | some posts ↦ post_each posts delivery.writes claimed.0 claimed.1
    ]
