-- ===== src/Store/Notices/Once.antt =====
-- A claimed notice is left to the poll that claimed it.
use mathlib.Core.Path.{subst}
use mathlib.Core.Bool.{false≢true}
use mathlib.Core.Option.{some-injective, none-ne-some}
use forge_wingman.Prelude.{
  Bool, true, false, Option, none, some, [], ◌∷◌, ◌++◌, ◌≡◌, ◌≤◌, ◌⊎◌, inl, inr, refl, sym, ap, ◌∙◌,
  In, All, arith, Option-cases, Bool-cases,
}
use forge_wingman.Text.{Text, text_eq, text_eq_iff, text_eq_self}
use forge_wingman.Time.{Time}
use forge_wingman.Store.Db.{Notice, NoticeState, claimed_notice}
use forge_wingman.Store.Notices.{
  Notices, Found, ids, Answers, is_pending, is_stale, mark, claim, claim_each,
}

-- The document, if there is one, is in the state.
abbrev pub IsIn : NoticeState → Notices → Text → Type 0
IsIn state notices id = (n : Notice) → notices id ≡ some n → n.state ≡ state

abbrev restated : NoticeState → Option Notice → Option Notice
restated state none = none
restated state (some notice) = some (record notice { state = state })

restated_state :
    (state : NoticeState) (o : Option Notice) (n : Notice)
    → restated state o ≡ some n
    → n.state ≡ state
restated_state state none n h = absurd (none-ne-some n h)
restated_state state (some old) n h =
    sym (ap (λ m. m.state) (some-injective (record old { state = state }) n h))

mark_self :
    (id : Text) (state : NoticeState) (notices : Notices)
    → mark id state notices id ≡ restated state (notices id)
unfolding mark
mark_self id state notices = elim (Option-cases (notices id)) [
  | inl missing ↦ rw (missing, mark) missing
  | inr (old, present) ↦ rw (present, mark, text_eq_self id) refl
]

pub mark_other :
    (id j : Text) (state : NoticeState) (notices : Notices)
    → text_eq id j ≡ false
    → mark id state notices j ≡ notices j
unfolding mark
mark_other id j state notices differ = elim (Option-cases (notices id)) [
  | inl missing ↦ rw (missing, mark) refl
  | inr (old, present) ↦ rw (present, mark, differ) refl
]

pub mark-IsIn :
    (id : Text) (state : NoticeState) (notices : Notices) → IsIn state (mark id state notices) id
mark-IsIn id state notices n at =
    restated_state state (notices id) n (sym (mark_self id state notices) ∙ at)

mark_kept :
    (id j : Text) (state : NoticeState) (notices : Notices)
    → IsIn state notices id
    → IsIn state (mark j state notices) id
mark_kept id j state notices h n at = elim (Bool-cases (text_eq j id)) [
  | inl same ↦
      let e : j ≡ id = (text_eq_iff j id).0 same in
      subst (IsIn state (mark j state notices)) e (mark-IsIn j state notices) n at
  | inr differ ↦ h n (sym (mark_other j id state notices differ) ∙ at)
]

each_kept :
    (id : Text) (at : Time) (found : Found) (notices : Notices)
    → IsIn (claimed_notice at) notices id
    → IsIn (claimed_notice at) (claim_each at found notices) id
unfolding claim_each
each_kept id at [] notices h = h
each_kept id at ((j, n) ∷ found) notices h =
    each_kept id at found (mark j (claimed_notice at) notices)
      (mark_kept id j (claimed_notice at) notices h)

claim_each-IsIn :
    (id : Text) (at : Time) (found : Found) (notices : Notices)
    → In id (ids found)
    → IsIn (claimed_notice at) (claim_each at found notices) id
unfolding claim_each
claim_each-IsIn id at [] notices m = absurd m
claim_each-IsIn id at ((j, n) ∷ found) notices (inl e) =
    each_kept id at found (mark j (claimed_notice at) notices) (
      subst (IsIn (claimed_notice at) (mark j (claimed_notice at) notices)) (sym e)
        (mark-IsIn j (claimed_notice at) notices))
claim_each-IsIn id at ((j, n) ∷ found) notices (inr m) =
    claim_each-IsIn id at found (mark j (claimed_notice at) notices) m

found_test :
    (id : Text) (test : Notice → Bool) (notices : Notices) (found : Found)
    → All (λ f. (notices f.0 ≡ some f.1) × (test f.1 ≡ true)) found
    → In id (ids found)
    → (n : Notice) × (notices id ≡ some n) × (test n ≡ true)
found_test id test notices [] all m = absurd m
found_test id test notices ((j, n) ∷ found) (first, rest) (inl e) =
    (n, ap notices e ∙ first.0, first.1)
found_test id test notices ((j, n) ∷ found) (first, rest) (inr m) =
    found_test id test notices found rest m

claimed_unfound :
    (at before : Time) (n : Notice)
    → before ≤ at
    → n.state ≡ claimed_notice at
    → (is_pending n ≡ false) × (is_stale before n ≡ false)
unfolding is_pending is_stale
claimed_unfound at before n h s = (rw s refl, rw s (ground arith))

not_found :
    (id : Text) (at : Time) (test : Notice → Bool) (found : Found) (notices : Notices)
    → IsIn (claimed_notice at) notices id
    → All (λ f. (notices f.0 ≡ some f.1) × (test f.1 ≡ true)) found
    → ((n : Notice) → n.state ≡ claimed_notice at → test n ≡ false)
    → In id (ids found)
    → ⊥
not_found id at test found notices claimed all unfound m =
    let (n, present, holds) = found_test id test notices found all m in
    false≢true (sym (unfound n (claimed n present)) ∙ holds)

In-ids : (id : Text) (xs ys : Found) → In id (ids (xs ++ ys)) → In id (ids xs) ⊎ In id (ids ys)
In-ids id [] ys m = inr m
In-ids id ((j, n) ∷ xs) ys (inl e) = inl (inl e)
In-ids id ((j, n) ∷ xs) ys (inr m) = elim (In-ids id xs ys m) [
  | inl a ↦ inl (inr a)
  | inr b ↦ inr b
]

-- A poll never takes a notice that another claimed within the lease: whatever the queries of a later
-- claim find, as long as they find only documents that meet them, is not what the claim at `at` took.
pub claim-once :
    (at later before : Time) (pending_1 stale_1 pending_2 stale_2 : Found) (notices : Notices)
    (id : Text)
    → before ≤ at
    → Answers is_pending (claim at pending_1 stale_1 notices).1 pending_2
    → Answers (is_stale before) (claim at pending_1 stale_1 notices).1 stale_2
    → In id (ids (claim at pending_1 stale_1 notices).0)
    → ¬ In id (ids (claim later pending_2 stale_2 (claim at pending_1 stale_1 notices).1).0)
unfolding claim
claim-once at later before pending_1 stale_1 pending_2 stale_2 notices id lease a b first second =
    let after = claim_each-IsIn id at (pending_1 ++ stale_1) notices first in
    let next = claim_each at (pending_1 ++ stale_1) notices in
    elim (In-ids id pending_2 stale_2 second) [
      | inl p ↦
          not_found id at is_pending pending_2 next after a.0
            (λ n s. (claimed_unfound at before n lease s).0) p
      | inr p ↦
          not_found id at (is_stale before) stale_2 next after b.0
            (λ n s. (claimed_unfound at before n lease s).1) p
    ]
