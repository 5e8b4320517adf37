-- ===== src/Examples/Polls.antt =====
-- The theorems about what a poll decides, on concrete facts.
use forge_wingman.Prelude.{
  ℕ, ◌+◌, ◌≡◌, ◌↔◌, ◌≤◌, ◌<◌, refl, inl, inr, arith, true, false, [], ◌∷◌, min, max,
}
use forge_wingman.Text.{codes}
use forge_wingman.GoMap.{lookup}
use forge_wingman.Dispatcher.{single, plan, build, is_plan}
use forge_wingman.Dispatcher.Budget.{Totals, Settled, decide}
use forge_wingman.Dispatcher.Budget.Ceilings.{AmountsSmall, WithinCeilings, decide_exact}
use forge_wingman.Dispatcher.Settled.{sums, snapshot, history_since}
use forge_wingman.Dispatcher.Settled.Snapshot.{sums-history_since}
use forge_wingman.Dispatcher.Admit.{AdmitInput, Subject, admit}
use forge_wingman.Dispatcher.Admit.Admissible.{Admissible, admit_iff}
use forge_wingman.Dispatcher.Concurrency.{
  Observation, Recommendation, unseen, next_concurrency, runs_at_once_max,
}
use forge_wingman.Dispatcher.Concurrency.Bounds.{
  next_concurrency_bounds, next_concurrency_rise, ratio_of,
}
use forge_wingman.Store.Keys.{reservation_key, reservation_run_id, legacy_reservation_key}
use forge_wingman.Store.Keys.Distinct.{IsRunId, reservation_key-injective, reservation_run_id-key}
use forge_wingman.Examples.{
  fw_1, fw_2, whole_numbers, budget, estimate, stable_tuning, facts, now, history,
}

abbrev reserved : Totals
reserved = record { provider_cost = 100; runner_minutes = 90 }

abbrev spent : Settled
spent = record { windows = 250 ∷ []; model_cap = 0; cash_cost = 250; cash_minutes = 11 }

abbrev candidate_1 : Subject
candidate_1 = record {
  ticket = fw_1;
  repo = codes "owner/app";
  size = codes "M";
  blocked_by = [];
  blocks = [];
  blocked_by_open = [];
  files = [];
  stage = single;
}

abbrev input : AdmitInput
input = record {
  facts = facts;
  n = 2;
  in_flight =
      (record {
        ticket = fw_2;
        repo = codes "owner/web";
        size = codes "M";
        files = [];
        stage = build;
      })
      ∷ [];
  candidate = candidate_1;
  budget = budget;
  reserved = reserved;
  settled = spent;
  reservation = estimate;
}

admitted_1 : (admit input).0 ≡ true
unfolding admit
admitted_1 = refl

admit_iff_example : ((admit input).0 ≡ true) ↔ Admissible input
admit_iff_example = admit_iff input

small : AmountsSmall budget facts.model reserved spent estimate
unfolding lookup
small = record {
  reserved = (omega arith, omega arith);
  settled = (omega arith, omega arith, omega arith);
  estimate = (omega arith, omega arith);
  windows = (omega arith, omega arith, tt);
  cap = tt;
  rates = (omega arith, omega arith, omega arith);
  bought = omega arith;
}

decide_exact_example :
    ((decide budget facts.model reserved spent estimate).0 ≡ true)
    ↔ WithinCeilings budget facts.model reserved spent estimate
decide_exact_example = decide_exact budget facts.model reserved spent estimate small

sums-history_since_example :
    sums (snapshot (history_since budget [] now) history) budget facts.model now
    ≡ sums history budget facts.model now
sums-history_since_example =
    sums-history_since budget [] now budget history facts.model (inr (inl refl))

fw_1-IsRunId : IsRunId fw_1
fw_1-IsRunId = ground arith

abbrev three : ℕ
three = 3

reservation_key-injective_example : (fw_1 ≡ fw_1) × (three ≡ three) × (is_plan plan ≡ is_plan plan)
reservation_key-injective_example =
    reservation_key-injective fw_1 fw_1 three three plan plan fw_1-IsRunId fw_1-IsRunId refl

reservation_run_id-key_example :
    (reservation_run_id (reservation_key fw_1 3 plan) ≡ fw_1)
    × (reservation_run_id (legacy_reservation_key fw_1 plan) ≡ fw_1)
reservation_run_id-key_example = reservation_run_id-key fw_1 3 plan fw_1-IsRunId

abbrev stable_seen : Observation
stable_seen = record { solo = 100; loaded = 110; rate_limited = false }

next_concurrency_bounds_example :
    (1
      ≤ (next_concurrency whole_numbers
          (record { n = 2; stable = 1 })
          stable_seen
          stable_tuning
          20).n)
    × ((next_concurrency whole_numbers
          (record { n = 2; stable = 1 })
          stable_seen
          stable_tuning
          20).n
        ≤ runs_at_once_max 20)
next_concurrency_bounds_example =
    next_concurrency_bounds whole_numbers (record { n = 2; stable = 1 }) stable_seen stable_tuning
      20 (omega arith)

rises :
    2
    < (next_concurrency whole_numbers (record { n = 2; stable = 1 }) stable_seen stable_tuning 20).n
unfolding next_concurrency
rises = omega arith

next_concurrency_rise_example :
    ((next_concurrency whole_numbers (record { n = 2; stable = 1 }) stable_seen stable_tuning 20).n
      ≡ min (max 2 1) (runs_at_once_max 20) + 1)
    × (false ≡ false)
    × (0 < 100)
    × (0 < 110)
    × (whole_numbers.above (ratio_of whole_numbers stable_seen) stable_tuning.halve_beyond ≡ false)
    × (whole_numbers.at_most (ratio_of whole_numbers stable_seen) stable_tuning.rise_within ≡ true)
    × (2 ≤ 1 + 1)
    × ((next_concurrency whole_numbers
          (record { n = 2; stable = 1 })
          stable_seen
          stable_tuning
          20).stable
        ≡ 0)
next_concurrency_rise_example =
    next_concurrency_rise whole_numbers (record { n = 2; stable = 1 }) stable_seen stable_tuning 20
      (omega arith) rises

abbrev no_recommendation : Recommendation
no_recommendation = record { n = 0; stable = 0; basis = unseen }
