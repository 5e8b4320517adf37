-- ===== src/Store/Trace/Traced.antt =====
-- What single transactions make of a state, one after another.
use mathlib.Core.Path.{subst}
use forge_wingman.Prelude.{ℕ, false, ◌≡◌, refl, sym, ap, ◌∙◌, List, [], ◌∷◌, ◌++◌, All, ◌≤◌}
use forge_wingman.Dispatcher.Concurrency.{FloatOps}
use forge_wingman.Store.Db.{Db}
use forge_wingman.Store.Accounting.Operations.{Balanced}
use forge_wingman.Store.Trace.{Op, apply, run, IsSound, AreSound}
use forge_wingman.Store.Trace.Balance.{run-Balanced}
use forge_wingman.Store.Trace.Cap.{booked}
use forge_wingman.Store.Trace.Cap.Bound.{IsCapped, run-booked}

-- `after` is what single transactions make of `db`, each of them sound and as `P` allows.
pub record Traced (ops : FloatOps) (P : Op → Type 0) (db after : Db) : Type 0 where
  pub os : List Op
  pub ran : run ops os db ≡ after
  pub sound : AreSound ops os db
  pub allowed : All P os

module _ (ops : FloatOps) (P : Op → Type 0) where
  pub Traced-refl : (db : Db) → Traced ops P db db
  unfolding run AreSound
  Traced-refl db = record { os = []; ran = refl; sound = tt; allowed = tt }

  pub one_step : (o : Op) (db : Db) → IsSound db o → P o → Traced ops P db (apply ops o db)
  unfolding run AreSound
  one_step o db s c = record { os = o ∷ []; ran = refl; sound = (s, tt); allowed = (c, tt) }

  run-append : (os ps : List Op) (db : Db) → run ops (os ++ ps) db ≡ run ops ps (run ops os db)
  unfolding run
  run-append [] ps db = refl
  run-append (o ∷ os) ps db = run-append os ps (apply ops o db)

  AreSound-append :
      (os ps : List Op) (db : Db)
      → AreSound ops os db
      → AreSound ops ps (run ops os db)
      → AreSound ops (os ++ ps) db
  unfolding run AreSound
  AreSound-append [] ps db s t = t
  AreSound-append (o ∷ os) ps db s t = (s.0, AreSound-append os ps (apply ops o db) s.1 t)

  All-append : (os ps : List Op) → All P os → All P ps → All P (os ++ ps)
  All-append [] ps s t = t
  All-append (o ∷ os) ps s t = (s.0, All-append os ps s.1 t)

  pub Traced-trans :
      (db mid after : Db) → Traced ops P db mid → Traced ops P mid after → Traced ops P db after
  Traced-trans db mid after s t = record {
    os = s.os ++ t.os;
    ran = run-append s.os t.os db ∙ ap (run ops t.os) s.ran ∙ t.ran;
    sound = AreSound-append s.os t.os db s.sound (subst (AreSound ops t.os) (sym s.ran) t.sound);
    allowed = All-append s.os t.os s.allowed t.allowed;
  }

  pub Traced-Balanced : (db after : Db) → Traced ops P db after → Balanced db → Balanced after
  Traced-Balanced db after t bal = subst Balanced t.ran (run-Balanced ops t.os db bal t.sound)

  All-weaken : (Q : Op → Type 0) → ((o : Op) → P o → Q o) → (os : List Op) → All P os → All Q os
  All-weaken Q weaker [] ps = tt
  All-weaken Q weaker (o ∷ os) ps = (weaker o ps.0, All-weaken Q weaker os ps.1)

  pub Traced-weaken :
      (Q : Op → Type 0)
      → ((o : Op) → P o → Q o)
      → (db after : Db) → Traced ops P db after
      → Traced ops Q db after
  Traced-weaken Q weaker db after t = record {
    os = t.os;
    ran = t.ran;
    sound = t.sound;
    allowed = All-weaken Q weaker t.os t.allowed;
  }

  -- Where every claim allowed is capped, the books and the bound are kept.
  pub Traced-kept :
      (b : ℕ)
      → ((o : Op) → P o → IsCapped b o)
      → (db after : Db) → Traced ops P db after
      → Balanced db × (booked db ≤ b)
      → Balanced after × (booked after ≤ b)
  Traced-kept b capped db after t (bal, h) = (
    Traced-Balanced db after t bal,
    subst (λ d. booked d ≤ b) t.ran
        (run-booked ops t.os db b (All-weaken (IsCapped b) capped t.os t.allowed) h),
  )

-- Numbers for a trace whose conclusion is about the books alone.
abbrev pub any_numbers : FloatOps
any_numbers = record {
  of_int = λ n. n;
  divide = λ a b. a;
  above = λ a b. false;
  at_most = λ a b. false;
}
