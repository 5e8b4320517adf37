-- ===== src/Dispatcher/Admit/Admissible.antt =====
-- What `admit` lets start, in terms of the runs in flight and the limits.
use mathlib.Core.Bool.{false≢true}
use forge_wingman.Prelude.{
  contains_func-none, contains_func-find, sym, ◌∙◌, ◌<◌, ◌≡◌, ◌≢◌, ◌↔◌, refl, Bool, true, false,
  List, [], ◌∷◌, arith, max, length, contains_func, All, In, contains_func_iff, ◌&&◌, ◌||◌,
}
use forge_wingman.Text.{Text, text_eq_iff, equal_fold, contains, contains_iff, not-contains_iff}
use forge_wingman.Dispatcher.{is_plan}
use forge_wingman.Dispatcher.Budget.{decide}
use forge_wingman.Dispatcher.Admit.{
  AdmitInput, InFlight, Subject, count_size, in_flight_in_repo, write_sets_overlap, blocked,
  repo_overlap, switch, conditions, held_before_budget, admit_budget, admit, large_size,
}

-- The write sets of a run and of a candidate share a path, and neither claim is a plan's.
pub record Overlap (f : InFlight) (c : Subject) : Type 0 where
  pub same_repo : equal_fold f.repo c.repo ≡ true
  pub run_writes : is_plan f.stage ≡ false
  pub candidate_writes : is_plan c.stage ≡ false
  pub path : Text
  pub in_run : In path f.files
  pub in_candidate : In path c.files

pub record Admissible (i : AdmitInput) : Type 0 where
  pub no_breaker : i.facts.breaker_tripped ≡ false
  pub not_paused : i.facts.owner_paused ≡ false
  pub not_halted : i.facts.provider_halted ≡ false
  pub off_peak : i.facts.peak_held ≡ false
  pub below_platform : length i.in_flight < i.facts.limits.platform_cap
  pub below_n : length i.in_flight < max i.n 1
  pub below_large :
      i.candidate.size ≡ large_size → count_size large_size i.in_flight < i.facts.limits.large_cap
  pub below_repo : in_flight_in_repo i.candidate.repo i.in_flight < i.facts.limits.repo_cap
  pub apart : (f : InFlight) → In f i.in_flight → ¬ Overlap f i.candidate
  pub unblocked : i.candidate.blocked_by_open ≡ []
  pub unrelated :
      (f : InFlight)
      → In f i.in_flight
      → (¬ In f.ticket i.candidate.blocked_by) × (¬ In f.ticket i.candidate.blocks)
  pub reviewed : i.facts.open_prs_known ≡ true → i.facts.open_prs < i.facts.limits.review_wip
  pub alone : i.facts.open_prs_known ≡ false → length i.in_flight ≡ 0
  pub within_budget : (decide i.budget i.facts.model i.reserved i.settled i.reservation).0 ≡ true

not_true : (b : Bool) → ¬ (b ≡ true) → b ≡ false
not_true true n = absurd (n refl)
not_true false n = refl

-- With every name given, a `switch` falls through exactly when no case holds.
switch_none :
    (cases : List (Bool × Text))
    → All (λ c. c.1 ≢ []) cases
    → (switch cases ≡ []) ↔ All (λ c. c.0 ≡ false) cases
unfolding switch
switch_none [] named = ((λ _. tt), (λ _. refl))
switch_none ((true, name) ∷ cases) named = ((λ h. absurd (named.0 h)), (λ h. cc h.0))
switch_none ((false, name) ∷ cases) named =
    ((λ h. (refl, (switch_none cases named.1).0 h)), (λ h. (switch_none cases named.1).1 h.1))

conditions_named : (i : AdmitInput) → All (λ c. c.1 ≢ []) (conditions i)
unfolding conditions
conditions_named i = ground arith

Overlap-none :
    (f : InFlight) (c : Subject)
    → equal_fold f.repo c.repo && write_sets_overlap f c ≡ false
    → ¬ Overlap f c
unfolding write_sets_overlap
Overlap-none f c h o = false≢true (
    sym (contains_func-none (λ name. contains c.files name) f.files shared o.path o.in_run)
    ∙ (contains_iff c.files o.path).1 o.in_candidate)
  where
    shared : contains_func (λ name. contains c.files name) f.files ≡ false
    shared = ground (arith, o.same_repo, o.run_writes, o.candidate_writes)

Overlap-some :
    (f : InFlight) (c : Subject)
    → equal_fold f.repo c.repo && write_sets_overlap f c ≡ true
    → Overlap f c
unfolding write_sets_overlap
Overlap-some f c h =
    let (path, in_run, in_candidate) =
      contains_func-find (λ name. contains c.files name) f.files (ground arith) in
    record {
      same_repo = ground arith;
      run_writes = ground arith;
      candidate_writes = ground arith;
      path = path;
      in_run = in_run;
      in_candidate = (contains_iff c.files path).0 in_candidate;
    }

repo_overlap_iff :
    (c : Subject) (runs : List InFlight)
    → (repo_overlap c runs ≡ false) ↔ ((f : InFlight) → In f runs → ¬ Overlap f c)
unfolding repo_overlap
repo_overlap_iff c runs = (
  (λ h f m. Overlap-none f c (contains_func-none _ runs h f m)),
  (λ n. (contains_func_iff _ runs).1 (λ f m. not_true _ (λ e. n f m (Overlap-some f c e)))),
)

-- A blocking relation, in either direction, with a run in flight.
abbrev related : Subject → InFlight → Bool
related c r = contains c.blocked_by r.ticket || contains c.blocks r.ticket

related_iff :
    (c : Subject) (r : InFlight)
    → (related c r ≡ false) ↔ ((¬ In r.ticket c.blocked_by) × (¬ In r.ticket c.blocks))
related_iff c r = (
  (λ h. (
    (not-contains_iff c.blocked_by r.ticket).0 (ground arith),
    (not-contains_iff c.blocks r.ticket).0 (ground arith),
  )),
  (λ n.
      rw (
        (not-contains_iff c.blocked_by r.ticket).1 n.0,
        (not-contains_iff c.blocks r.ticket).1 n.1,
      )),
)

blocked-open :
    (c : Subject) (runs : List InFlight)
    → (blocked c runs ≡ false)
      ↔ ((c.blocked_by_open ≡ []) × (contains_func (related c) runs ≡ false))
unfolding blocked
blocked-open c runs = ground arith

blocked_iff :
    (c : Subject) (runs : List InFlight)
    → (blocked c runs ≡ false) ↔ (
        (c.blocked_by_open ≡ [])
        × ((f : InFlight) → In f runs → (¬ In f.ticket c.blocked_by) × (¬ In f.ticket c.blocks)))
blocked_iff c runs = (
  (λ h.
      let (closed, none_related) = (blocked-open c runs).0 h in
      (closed, λ f m. (related_iff c f).0 (contains_func-none (related c) runs none_related f m))),
  (λ n.
      (blocked-open c runs).1
        (n.0, (contains_func_iff (related c) runs).1 (λ f m. (related_iff c f).1 (n.1 f m)))),
)

admit-budget :
    (i : AdmitInput)
    → ((admit i).0 ≡ true) ↔ (
        (held_before_budget i ≡ [])
        × ((decide i.budget i.facts.model i.reserved i.settled i.reservation).0 ≡ true))
unfolding admit
admit-budget i =
    go (held_before_budget i) (decide i.budget i.facts.model i.reserved i.settled i.reservation)
  where
    go :
        (name : Text) (fits : Bool × Text)
        → ((admit_budget name fits).0 ≡ true) ↔ ((name ≡ []) × (fits.0 ≡ true))
    go [] (true, why) = ((λ h. (refl, refl)), (λ h. refl))
    go [] (false, why) = ((λ h. (refl, h)), (λ h. h.1))
    go (c ∷ name) fits = ((λ h. absurd (false≢true h)), (λ h. cc h.0))

conditions-false :
    (i : AdmitInput) → (held_before_budget i ≡ []) ↔ All (λ c. c.0 ≡ false) (conditions i)
unfolding held_before_budget
conditions-false i = switch_none (conditions i) (conditions_named i)

admit_sound : (i : AdmitInput) → (admit i).0 ≡ true → Admissible i
unfolding conditions
admit_sound i h =
    let (quiet, fits) = (admit-budget i).0 h in
    let t = (conditions-false i).0 quiet in
    record {
      no_breaker = t.0;
      not_paused = t.1.0;
      not_halted = t.1.1.0;
      off_peak = t.1.1.1.0;
      below_platform = ground (arith, t.1.1.1.1.0);
      below_n = ground (arith, t.1.1.1.1.1.0);
      below_large = λ e. ground (arith, t.1.1.1.1.1.1.0, text_eq_iff i.candidate.size large_size);
      below_repo = ground (arith, t.1.1.1.1.1.1.1.0);
      apart = (repo_overlap_iff i.candidate i.in_flight).0 t.1.1.1.1.1.1.1.1.0;
      unblocked = ((blocked_iff i.candidate i.in_flight).0 t.1.1.1.1.1.1.1.1.1.0).0;
      unrelated = ((blocked_iff i.candidate i.in_flight).0 t.1.1.1.1.1.1.1.1.1.0).1;
      reviewed = λ e. ground (arith, t.1.1.1.1.1.1.1.1.1.1.0);
      alone = λ e. ground (arith, t.1.1.1.1.1.1.1.1.1.1.0);
      within_budget = fits;
    }

admit_complete : (i : AdmitInput) → Admissible i → (admit i).0 ≡ true
unfolding conditions
admit_complete i a = (admit-budget i).1 (
  (conditions-false i).1 (
    a.no_breaker,
    (
      a.not_paused,
      (
        a.not_halted,
        (
          a.off_peak,
          (
            ground (arith, a.below_platform),
            (
              ground (arith, a.below_n),
              (
                ground (arith, a.below_large, text_eq_iff i.candidate.size large_size),
                (
                  ground (arith, a.below_repo),
                  (
                    (repo_overlap_iff i.candidate i.in_flight).1 a.apart,
                    (
                      (blocked_iff i.candidate i.in_flight).1 (a.unblocked, a.unrelated),
                      (ground (arith, a.reviewed, a.alone), tt),
                    ),
                  ),
                ),
              ),
            ),
          ),
        ),
      ),
    ),
  ),
  a.within_budget,
)

-- `admit` lets a candidate start exactly when nothing holds dispatch, the runs in flight are below
-- the platform cap, N, the cap on size-L runs and the repository's cap, no run in flight in its
-- repository writes a path it plans to write, no blocker is open and no run in flight is related to
-- it, the open PRs are below the review limit (or nothing is in flight where they are unknown), and
-- the reservation fits the budget.
pub admit_iff : (i : AdmitInput) → ((admit i).0 ≡ true) ↔ Admissible i
admit_iff i = (admit_sound i, admit_complete i)
