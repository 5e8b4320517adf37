-- ===== src/Poll/Claims/Refines.antt =====
-- The walk does nothing to the queue but single transactions, one after another.
use mathlib.Core.Path.{subst}
use forge_wingman.Prelude.{ℕ, ◌≤◌, ◌≡◌, ap, List, [], ◌∷◌, arith, All}
use forge_wingman.Text.{Text}
use forge_wingman.Time.{Time}
use forge_wingman.Dispatcher.Settled.{SettledHistory}
use forge_wingman.Dispatcher.Admit.{or_default}
use forge_wingman.Dispatcher.Concurrency.{FloatOps}
use forge_wingman.Store.Keys.Distinct.{IsRunId}
use forge_wingman.Store.Db.{Db, Notice, Result, ok}
use forge_wingman.Store.Queue.Claim.{Claimed, try_claim}
use forge_wingman.Store.Holds.{record_hold}
use forge_wingman.Store.Sweep.{raise}
use forge_wingman.Store.Trace.{Op, op_claim, op_hold, op_raise, apply}
use forge_wingman.Store.Trace.Traced.{Traced, Traced-refl, Traced-trans, one_step}
use forge_wingman.Store.Trace.{left}
use forge_wingman.Poll.{Candidate, Config, Estimate}
use forge_wingman.Poll.Tier.{claim_stage}
use forge_wingman.Poll.Claims.Walking.{Lifted, walk_lift}
use forge_wingman.Poll.Claims.{Sight, Asked, asked_for, admit_claims}

-- The transactions of the walk: claims asked for under a platform cap of at most `b`, holds and notices.
abbrev pub OfWalk : ℕ → Op → Type 0
OfWalk b (op_claim id at cfg facts history res) = facts.limits.platform_cap ≤ b
OfWalk b (op_hold id reason day at) = Unit
OfWalk b (op_raise notice) = Unit
OfWalk b o = ⊥

claim-Traced :
    (ops : FloatOps) (b : ℕ) (id : Text) (at : Time) (a : Asked) (history : Result SettledHistory)
    (db : Db) (reply : Claimed × Db)
    → IsRunId id × (a.facts.limits.platform_cap ≤ b)
    → try_claim id at a.tier.budget a.facts history a.reservation db ≡ ok reply
    → Traced ops (OfWalk b) db reply.1
unfolding apply
claim-Traced ops b id at a history db reply (is_id, cap) h =
    subst (Traced ops (OfWalk b) db) (ap (left (λ r. r.1) db) h) (
      one_step ops (OfWalk b) (op_claim id at a.tier.budget a.facts history a.reservation) db is_id
        cap)

hold-Traced :
    (ops : FloatOps) (b : ℕ) (id reason day : Text) (at : Time) (db : Db)
    → Traced ops (OfWalk b) db (record_hold id reason day at db)
unfolding apply
hold-Traced ops b id reason day at db = one_step ops (OfWalk b) (op_hold id reason day at) db tt tt

raise-Traced :
    (ops : FloatOps) (b : ℕ) (n : Text × Notice) (db : Db) → Traced ops (OfWalk b) db (raise n db)
unfolding apply
raise-Traced ops b n db = one_step ops (OfWalk b) (op_raise n) db tt tt

abbrev traced_lift : FloatOps → ℕ → Lifted
traced_lift ops b = record {
  R = Traced ops (OfWalk b);
  Asks = λ id a. IsRunId id × (a.facts.limits.platform_cap ≤ b);
  same = Traced-refl ops (OfWalk b);
  and_then = Traced-trans ops (OfWalk b);
  holds = hold-Traced ops b;
  raises = raise-Traced ops b;
  claims = claim-Traced ops b;
}

askable :
    (b : ℕ) (c : Config) (s : Sight)
    → (or_default c.limits).platform_cap ≤ b
    → (cands : List Candidate) → All (λ cand. IsRunId cand.run_id) cands
    → All
        (λ cand.
          (est : Estimate)
          → IsRunId cand.run_id
            × ((asked_for c s cand (claim_stage cand c.two_stage) est).facts.limits.platform_cap
                ≤ b))
        cands
unfolding asked_for
askable b c s cap [] ids = tt
askable b c s cap (cand ∷ cands) ids = ((λ est. (ids.0, cap)), askable b c s cap cands ids.1)

-- Whatever the reads and the candidates, if these have ticket ids, what the walk over the queue makes of
-- the store is what single transactions make of it, one after another, whether or not the walk fails:
-- claims asked for under the configured platform cap, holds and notices.
pub admit_claims-Traced :
    (ops : FloatOps) (c : Config) (s : Sight) (cands : List Candidate) (db : Db)
    → All (λ cand. IsRunId cand.run_id) cands
    → Traced ops (OfWalk (or_default c.limits).platform_cap) db (admit_claims c s cands db).db
unfolding admit_claims asked_for
admit_claims-Traced ops c s cands db ids =
    walk_lift (traced_lift ops (or_default c.limits).platform_cap) c s cands [] db
      (askable (or_default c.limits).platform_cap c s (omega arith) cands ids)
