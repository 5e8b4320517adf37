-- ===== src/Store/Ledger/Booking.antt =====
-- What the ledger's reads of a run's keys find, and what dropping them leaves.
use mathlib.Core.Bool.{false≢true}
use forge_wingman.Prelude.{
  ℕ, ◌≡◌, ◌≢◌, refl, ◌⊎◌, inl, inr, none, some, List, [], ◌∷◌, ◌++◌, arith, In,
}
use forge_wingman.Text.{Text, text_eq_iff}
use forge_wingman.GoMap.{GoMap, lookup, delete, lookup-delete, assign, lookup-assign}
use forge_wingman.Dispatcher.{Stage, single, plan, build, is_plan}
use forge_wingman.Store.Keys.{reservation_key, legacy_reservation_key, reservation_run_id}
use forge_wingman.Store.Keys.Distinct.{IsRunId, reservation_run_id-key, reservation_key-injective}
use forge_wingman.Store.Ledger.{
  Entry, held, or_keys, reserved_keys, first_entry, reservation, delete_all,
}

-- A lookup after a delete finds what was there before, under another key.
pub lookup-delete-some :
    (k j : Text) (e : Entry) (m : GoMap Entry)
    → lookup j (delete k m) ≡ some e
    → (lookup j m ≡ some e) × (k ≢ j)
lookup-delete-some k j e m h = ground (arith, lookup-delete k j m, text_eq_iff k j)

pub lookup-delete_all-some :
    (ks : List Text) (j : Text) (e : Entry) (m : GoMap Entry)
    → lookup j (delete_all ks m) ≡ some e
    → (lookup j m ≡ some e) × (¬ In j ks)
unfolding delete_all
lookup-delete_all-some [] j e m h = (h, λ n. n)
lookup-delete_all-some (k ∷ ks) j e m h =
    ground (arith, lookup-delete_all-some ks j e (delete k m) h, lookup-delete-some k j e m)

module _ (m : GoMap Entry) (b p lb lp : Text) where
  abbrev found : List Text
  found = or_keys (held m b ++ held m p) (held m lb ++ held m lp)

  found-In : (k : Text) (e : Entry) → (k ≡ b) ⊎ (k ≡ p) → lookup k m ≡ some e → In k found
  unfolding held or_keys
  found-In k e c h = ground arith

  first-some :
      (k : Text) (e : Entry)
      → first_entry m found ≡ some (k, e)
      → (lookup k m ≡ some e) × In k (b ∷ p ∷ lb ∷ lp ∷ [])
  unfolding held or_keys first_entry
  first-some k e h = ground arith

  first-none : first_entry m found ≡ none → (lookup b m ≡ none) × (lookup p m ≡ none)
  unfolding held or_keys first_entry
  first-none h = ground arith

module _ (m : GoMap Entry) (b p lb lp : Text) (e : Entry) (d : b ≢ p) where
  first-assign :
      lookup b m ≡ none
      → (first_entry (assign b e m) (found (assign b e m) b p lb lp) ≡ some (b, e))
        × (first_entry (assign p e m) (found (assign p e m) b p lb lp) ≡ some (p, e))
  unfolding held or_keys first_entry
  first-assign h = ground (
    arith,
    lookup-assign b b e m,
    lookup-assign b p e m,
    lookup-assign p b e m,
    lookup-assign p p e m,
    text_eq_iff b b,
    text_eq_iff b p,
    text_eq_iff p b,
    text_eq_iff p p,
  )

key-cases :
    (run : Text) (a : ℕ) (s : Stage)
    → (reservation_key run a s ≡ reservation_key run a build)
      ⊎ (reservation_key run a s ≡ reservation_key run a plan)
unfolding reservation_key is_plan
key-cases run a plan = inr refl
key-cases run a single = inl refl
key-cases run a build = inl refl

-- A key of the run that the map holds is one that a drop deletes.
pub reserved_keys-In :
    (m : GoMap Entry) (run : Text) (a : ℕ) (s : Stage) (e : Entry)
    → lookup (reservation_key run a s) m ≡ some e
    → In (reservation_key run a s) (reserved_keys m run a)
unfolding reserved_keys
reserved_keys-In m run a s e h =
    found-In m (reservation_key run a build) (reservation_key run a plan)
      (legacy_reservation_key run build) (legacy_reservation_key run plan) (reservation_key run a s)
      e (key-cases run a s) h

-- The entry that `reservation` reports is in the map, under a key of the run.
pub reservation-some :
    (m : GoMap Entry) (run : Text) (a : ℕ) (k : Text) (e : Entry)
    → IsRunId run
    → reservation m run a ≡ some (k, e)
    → (lookup k m ≡ some e) × (reservation_run_id k ≡ run)
unfolding reservation reserved_keys
reservation-some m run a k e id h =
    let (present, among) =
      first-some m (reservation_key run a build) (reservation_key run a plan)
        (legacy_reservation_key run build) (legacy_reservation_key run plan) k e h in
    (present, named among)
  where
    named :
        In k (
          reservation_key run a build
          ∷ reservation_key run a plan
          ∷ legacy_reservation_key run build
          ∷ legacy_reservation_key run plan
          ∷ [])
        → reservation_run_id k ≡ run
    named (inl p) = rw p (reservation_run_id-key run a build id).0
    named (inr (inl p)) = rw p (reservation_run_id-key run a plan id).0
    named (inr (inr (inl p))) = rw p (reservation_run_id-key run a build id).1
    named (inr (inr (inr (inl p)))) = rw p (reservation_run_id-key run a plan id).1
    named (inr (inr (inr (inr p)))) = absurd p

-- Where `reservation` reports none, the map holds no key of the run at that attempt.
pub reservation_none :
    (m : GoMap Entry) (run : Text) (a : ℕ) (s : Stage)
    → reservation m run a ≡ none
    → lookup (reservation_key run a s) m ≡ none
unfolding reservation reserved_keys
reservation_none m run a s h =
    let (no_build, no_plan) =
      first-none m (reservation_key run a build) (reservation_key run a plan)
        (legacy_reservation_key run build) (legacy_reservation_key run plan) h in
    elim (key-cases run a s) [ inl p ↦ rw p no_build | inr p ↦ rw p no_plan ]

stages_differ : is_plan build ≢ is_plan plan
unfolding is_plan
stages_differ p = false≢true p

build≢plan :
    (run : Text) (a : ℕ) → IsRunId run → reservation_key run a build ≢ reservation_key run a plan
build≢plan run a id p = stages_differ (reservation_key-injective run run a a build plan id id p).2

-- The reservation that a claim books is the one that `reservation` reports.
pub reservation-assign :
    (m : GoMap Entry) (run : Text) (a : ℕ) (s : Stage) (e : Entry)
    → IsRunId run
    → lookup (reservation_key run a build) m ≡ none
    → reservation (assign (reservation_key run a s) e m) run a ≡ some (reservation_key run a s, e)
unfolding reservation reserved_keys
reservation-assign m run a s e id h =
    let (at_build, at_plan) =
      first-assign m (reservation_key run a build) (reservation_key run a plan)
        (legacy_reservation_key run build) (legacy_reservation_key run plan) e (build≢plan run a id)
        h in
    elim (key-cases run a s) [ inl p ↦ rw p at_build | inr p ↦ rw p at_plan ]
