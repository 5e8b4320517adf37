-- ===== src/Store/Notices/Delivered.antt =====
-- Only a post marks a notice posted.
use mathlib.Core.Bool.{false≢true}
use forge_wingman.Prelude.{
  Bool, true, false, some, List, [], ◌∷◌, ◌++◌, ◌≡◌, ◌≢◌, ◌⊎◌, inl, inr, refl, sym, ap, ◌∙◌, In,
  arith, Option-cases, Bool-cases, if◌then◌else◌,
}
use forge_wingman.Text.{Text, text_eq, text_eq_iff}
use forge_wingman.Time.{Time}
use forge_wingman.Store.Db.{Notice, NoticeState, pending, posted, claimed_notice}
use forge_wingman.Store.Notices.{
  Notices, Found, mark, unclaim, claim, claim_each, unclaim_each, delivered, post_each,
  post_notices, Delivery,
}
use forge_wingman.Store.Notices.Once.{mark_other, mark-IsIn}

-- The notice is marked posted.
abbrev pub IsPosted : Notices → Text → Type 0
IsPosted notices id = (n : Notice) × (notices id ≡ some n) × (n.state ≡ posted)

restated-IsPosted :
    (state : NoticeState) (notices : Notices) (id j : Text)
    → IsPosted (mark j state notices) id
    → IsPosted notices id ⊎ ((j ≡ id) × (state ≡ posted))
restated-IsPosted state notices id j (n, present, s) = elim (Bool-cases (text_eq j id)) [
  | inl same ↦
      let e : j ≡ id = (text_eq_iff j id).0 same in
      inr (e, sym (mark-IsIn j state notices n (ap (mark j state notices) e ∙ present)) ∙ s)
  | inr differ ↦ inl (n, sym (mark_other j id state notices differ) ∙ present, s)
]

other_state :
    (state : NoticeState) (notices : Notices) (id j : Text)
    → state ≢ posted
    → IsPosted (mark j state notices) id
    → IsPosted notices id
other_state state notices id j differ p = elim (restated-IsPosted state notices id j p) [
  | inl before ↦ before
  | inr (e, s) ↦ absurd (differ s)
]

claimed-ne-posted : (at : Time) → claimed_notice at ≢ posted
claimed-ne-posted at p = ground arith

pending-ne-posted : pending ≢ posted
pending-ne-posted p = ground arith

claim_each-IsPosted :
    (at : Time) (found : Found) (notices : Notices) (id : Text)
    → IsPosted (claim_each at found notices) id
    → IsPosted notices id
unfolding claim_each
claim_each-IsPosted at [] notices id p = p
claim_each-IsPosted at ((j, n) ∷ found) notices id p =
    other_state (claimed_notice at) notices id j (claimed-ne-posted at)
      (claim_each-IsPosted at found (mark j (claimed_notice at) notices) id p)

unclaimed_if :
    (writes : Bool) (notices : Notices) (id j : Text)
    → IsPosted (if writes then unclaim j notices else notices) id
    → IsPosted notices id
unclaimed_if true notices id j p = other_state pending notices id j pending-ne-posted p
unclaimed_if false notices id j p = p

unclaim_each-IsPosted :
    (writes : Text → Bool) (found : Found) (notices : Notices) (id : Text)
    → IsPosted (unclaim_each writes found notices) id
    → IsPosted notices id
unfolding unclaim_each
unclaim_each-IsPosted writes [] notices id p = p
unclaim_each-IsPosted writes ((j, n) ∷ found) notices id p =
    unclaimed_if (writes j) notices id j
      (unclaim_each-IsPosted writes found (if writes j then unclaim j notices else notices) id p)

delivered-IsPosted :
    (sent writes : Bool) (notices : Notices) (id j : Text)
    → IsPosted (delivered sent writes j notices) id
    → IsPosted notices id ⊎ ((j ≡ id) × (sent ≡ true))
unfolding delivered
delivered-IsPosted true true notices id j p = elim (restated-IsPosted posted notices id j p) [
  | inl before ↦ inl before
  | inr (e, s) ↦ inr (e, refl)
]
delivered-IsPosted false true notices id j p =
    inl (other_state pending notices id j pending-ne-posted p)
delivered-IsPosted true false notices id j p = inl p
delivered-IsPosted false false notices id j p = inl p

rest-In :
    (sent : Bool) (id j : Text) (rest : List Text)
    → In id rest
    → In id (if sent then j ∷ rest else rest)
rest-In true id j rest m = inr m
rest-In false id j rest m = m

head-In :
    (sent : Bool) (id j : Text) (rest : List Text)
    → j ≡ id
    → sent ≡ true
    → In id (if sent then j ∷ rest else rest)
head-In true id j rest e s = inl (sym e)
head-In false id j rest e s = absurd (false≢true s)

post_each-IsPosted :
    (posts : Notice → Bool) (writes : Text → Bool) (found : Found) (notices : Notices) (id : Text)
    → IsPosted (post_each posts writes found notices).1 id
    → IsPosted notices id ⊎ In id (post_each posts writes found notices).0
unfolding post_each
post_each-IsPosted posts writes [] notices id p = inl p
post_each-IsPosted posts writes ((j, n) ∷ found) notices id p =
    let next = delivered (posts n) (writes j) j notices in
    let rest = (post_each posts writes found next).0 in
    elim (post_each-IsPosted posts writes found next id p) [
      | inl before ↦ elim (delivered-IsPosted (posts n) (writes j) notices id j before) [
        | inl already ↦ inl already
        | inr (e, sent) ↦ inr (head-In (posts n) id j rest e sent)
      ]
      | inr later ↦ inr (rest-In (posts n) id j rest later)
    ]

-- A poll marks no notice posted that it did not post: one that is marked after the poll was marked before it, or
-- is among those the poll posted, whichever of its writes fail and whether or not the poster opens.
pub post_notices-IsPosted :
    (delivery : Delivery) (at : Time) (pending_found stale_found : Found) (notices : Notices)
    (id : Text)
    → IsPosted (post_notices delivery at pending_found stale_found notices).1 id
    → IsPosted notices id ⊎ In id (post_notices delivery at pending_found stale_found notices).0
unfolding post_notices claim
post_notices-IsPosted delivery at pending_found stale_found notices id p =
    let found = pending_found ++ stale_found in
    let claimed = claim_each at found notices in
    elim (Option-cases delivery.poster) [
      | inl closed ↦ inl (
          claim_each-IsPosted at found notices id (
            unclaim_each-IsPosted delivery.writes found claimed id
              (rw (closed, post_notices) at p)))
      | inr (posts, opened) ↦
          rw (opened, post_notices)
            (elim (post_each-IsPosted posts delivery.writes found claimed id
              (rw (opened, post_notices) at p)) [
                | inl before ↦ inl (claim_each-IsPosted at found notices id before)
                | inr sent ↦ inr sent
              ])
    ]
