-- ===== src/Store/Keys/Distinct.antt =====
-- Keys of different claims differ, and a key names its run, for run ids that hold no `#`.
use mathlib.Core.List.{append_assoc, append-nil}
use forge_wingman.Prelude.{
  ℕ, ◌≡◌, refl, sym, ap, ◌∙◌, Bool, true, false, [], ◌∷◌, ◌++◌, arith, if◌then◌else◌,
}
use forge_wingman.Text.{Text, codes, text_eq}
use forge_wingman.Text.Split.{
  before, cut_suffix, Lacks, before-append, before_none, cut_suffix-append, Lacks-split, Lacks-end,
}
use forge_wingman.Text.Decimal.{itoa, itoa-injective, itoa-Lacks}
use forge_wingman.Dispatcher.{Stage, single, plan, build, is_plan}
use forge_wingman.Store.Keys.{reservation_key, legacy_reservation_key, reservation_run_id}

-- A ticket id, which is the run's, holds letters, digits and dashes only.
abbrev pub IsRunId : Text → Type 0
IsRunId = Lacks b'#'

abbrev tail_of : Stage → Text
tail_of stage = if is_plan stage then codes "#plan" else []

key-shape :
    (run : Text) (attempt : ℕ) (stage : Stage)
    → reservation_key run attempt stage ≡ run ++ (b'#' ∷ (b'a' ∷ (itoa attempt ++ tail_of stage)))
unfolding reservation_key is_plan
key-shape run attempt plan = simp append_assoc
key-shape run attempt single = rw append-nil
key-shape run attempt build = rw append-nil

tails_differ : (a b : ℕ) (t : Text) → itoa a ≡ itoa b ++ (b'#' ∷ t) → ⊥
tails_differ a b t e =
    Lacks-end b'#' (itoa a) (itoa b) t (itoa-Lacks b'#' a (omega arith))
      (itoa-Lacks b'#' b (omega arith)) e

same_attempt :
    (a b : ℕ) (s t : Bool)
    → itoa a ++ (if s then codes "#plan" else []) ≡ itoa b ++ (if t then codes "#plan" else [])
    → (a ≡ b) × (s ≡ t)
same_attempt a b true true e = (
  itoa-injective a b
      (Lacks-split b'#' (itoa a) (itoa b) (codes "plan") (codes "plan")
        (itoa-Lacks b'#' a (omega arith)) (itoa-Lacks b'#' b (omega arith)) e).0,
  refl,
)
same_attempt a b false false e =
    (itoa-injective a b (sym (append-nil (itoa a)) ∙ e ∙ append-nil (itoa b)), refl)
same_attempt a b true false e =
    absurd (tails_differ b a (codes "plan") (sym (e ∙ append-nil (itoa b))))
same_attempt a b false true e =
    absurd (tails_differ a b (codes "plan") (sym (append-nil (itoa a)) ∙ e))

-- Two claims of runs with ticket ids book under one key only if they are of the same run and attempt,
-- and both or neither is a plan stage's.
pub reservation_key-injective :
    (run run' : Text) (a a' : ℕ) (s s' : Stage)
    → IsRunId run
    → IsRunId run'
    → reservation_key run a s ≡ reservation_key run' a' s'
    → (run ≡ run') × (a ≡ a') × (is_plan s ≡ is_plan s')
reservation_key-injective run run' a a' s s' n n' e =
    let (runs, rest) =
      Lacks-split b'#' run run' (b'a' ∷ (itoa a ++ tail_of s)) (b'a' ∷ (itoa a' ++ tail_of s')) n n'
        (sym (key-shape run a s) ∙ e ∙ key-shape run' a' s') in
    let (attempts, stages) = same_attempt a a' (is_plan s) (is_plan s') (cc rest) in
    (runs, attempts, stages)

run_id-append :
    (run t : Text)
    → IsRunId run
    → reservation_run_id (run ++ t) ≡ before (codes "#a") (run ++ cut_suffix (codes "#plan") t)
unfolding reservation_run_id
run_id-append run t n = ap (before (codes "#a")) (cut_suffix-append b'#' (codes "plan") run t n)

marker_kept :
    (t : Text)
    → cut_suffix (codes "#plan") (b'#' ∷ (b'a' ∷ t)) ≡ b'#' ∷ (b'a' ∷ cut_suffix (codes "#plan") t)
unfolding cut_suffix text_eq
marker_kept t = refl

suffix_cut : cut_suffix (codes "#plan") (codes "#plan") ≡ []
unfolding cut_suffix text_eq
suffix_cut = refl

nothing_cut : cut_suffix (codes "#plan") [] ≡ []
unfolding cut_suffix
nothing_cut = refl

legacy_run_id :
    (run : Text) (s : Stage) → IsRunId run → reservation_run_id (legacy_reservation_key run s) ≡ run
unfolding legacy_reservation_key is_plan
legacy_run_id run plan n =
    run_id-append run (codes "#plan") n
    ∙ rw (suffix_cut, append-nil) (before_none b'#' (codes "a") run n)
legacy_run_id run single n =
    ap reservation_run_id (sym (append-nil run))
    ∙ run_id-append run [] n
    ∙ rw (nothing_cut, append-nil) (before_none b'#' (codes "a") run n)
legacy_run_id run build n =
    ap reservation_run_id (sym (append-nil run))
    ∙ run_id-append run [] n
    ∙ rw (nothing_cut, append-nil) (before_none b'#' (codes "a") run n)

-- The run that a key belongs to is the run that it was made for, with an attempt or without.
pub reservation_run_id-key :
    (run : Text) (a : ℕ) (s : Stage)
    → IsRunId run
    → (reservation_run_id (reservation_key run a s) ≡ run)
      × (reservation_run_id (legacy_reservation_key run s) ≡ run)
reservation_run_id-key run a s n = (attempt_keyed, legacy_run_id run s n)
  where
    attempt_keyed : reservation_run_id (reservation_key run a s) ≡ run
    attempt_keyed =
        ap reservation_run_id (key-shape run a s)
        ∙ run_id-append run (b'#' ∷ (b'a' ∷ (itoa a ++ tail_of s))) n
        ∙ rw (marker_kept (itoa a ++ tail_of s)) (
            before-append b'#' (codes "a") run
              (b'#' ∷ (b'a' ∷ cut_suffix (codes "#plan") (itoa a ++ tail_of s))) n refl)
