-- ===== src/Poll/Whole/Kept.antt =====
-- The phases of a poll keep the books and the platform cap.
use forge_wingman.Prelude.{ℕ, ◌≤◌, List}
use forge_wingman.Dispatcher.Admit.{or_default}
use forge_wingman.Dispatcher.Concurrency.{FloatOps}
use forge_wingman.Store.Db.{Db}
use forge_wingman.Store.Trace.{Op, op_claim}
use forge_wingman.Store.Trace.Cap.{booked}
use forge_wingman.Store.Trace.Cap.Bound.{IsCapped}
use forge_wingman.Store.Accounting.Operations.{Balanced}
use forge_wingman.Store.Trace.Traced.{Traced-kept}
use forge_wingman.Tickets.Admission.Steps.{OfAdmission}
use forge_wingman.Poll.Dispatch.{Outside}
use forge_wingman.Poll.{Config, Claim, listed}
use forge_wingman.Poll.Claims.Refines.{OfWalk}
use forge_wingman.Poll.Requeues.Kept.{OfRequeue}
use forge_wingman.Poll.Dispatch.Traced.{OfDispatch}
use forge_wingman.Poll.Whole.{World, Polled}
use forge_wingman.Poll.Whole.Booked.{Phased, stopped_early, unlisted, whole}

of_admission : (b : ℕ) (o : Op) → OfAdmission o → IsCapped b o
of_admission b (op_claim id at cfg facts history res) h = absurd h
of_admission b o h = tt

of_requeue : (b : ℕ) (o : Op) → OfRequeue o → IsCapped b o
of_requeue b (op_claim id at cfg facts history res) h = absurd h
of_requeue b o h = tt

of_walk : (b : ℕ) (o : Op) → OfWalk b o → IsCapped b o
of_walk b (op_claim id at cfg facts history res) h = h
of_walk b o h = tt

of_dispatch :
    (b : ℕ) (out : Outside) (cls : List Claim) (o : Op) → OfDispatch out cls o → IsCapped b o
of_dispatch b out cls (op_claim id at cfg facts history res) h = absurd h
of_dispatch b out cls o h = tt

-- The phases keep the books and the bound.
pub Phased-kept :
    (ops : FloatOps) (c : Config) (w : World) (db : Db) (p : Polled)
    → Phased ops c w db p
    → Balanced db × (booked db ≤ (or_default c.limits).platform_cap)
    → Balanced p.db × (booked p.db ≤ (or_default c.limits).platform_cap)
Phased-kept ops c w db p (stopped_early e listed r same t) h =
    let cap = (or_default c.limits).platform_cap in
    Traced-kept ops OfAdmission cap (of_admission cap) db p.db t h
Phased-kept ops c w db p (unlisted l r k t) h =
    let cap = (or_default c.limits).platform_cap in
    Traced-kept ops OfRequeue cap (of_requeue cap) db p.db t h
Phased-kept ops c w db p (whole requeued walked sent listed parts a r s d) h =
    let cap = (or_default c.limits).platform_cap in
    Traced-kept ops (OfDispatch w.outside walked.claims) cap
      (of_dispatch cap w.outside walked.claims) walked.db p.db d
      (Traced-kept ops (OfWalk cap) cap (of_walk cap) requeued walked.db s (
        Traced-kept ops OfRequeue cap (of_requeue cap) p.admitted.db requeued r
          (Traced-kept ops OfAdmission cap (of_admission cap) db p.admitted.db a h)))
