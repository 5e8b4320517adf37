-- ===== src/Store/Accounting.antt =====
-- The ledger's books: every reservation is of a run that is claimed, at its current attempt, and no
-- run holds two. The frame lemmas that the operations of the queue share.
pub mod Operations
pub mod Claims
pub mod Waits
use mathlib.Core.Option.{none-ne-some, some-injective}
use forge_wingman.Prelude.{
  ℕ, ◌≡◌, ◌≢◌, refl, sym, ap, ◌∙◌, ◌⊎◌, inl, inr, Option, none, some, arith, if◌then◌else◌,
}
use forge_wingman.Text.{Text, text_eq, text_eq_iff, text_eq_self}
use forge_wingman.GoMap.{GoMap, lookup, assign, delete, lookup-assign}
use forge_wingman.Dispatcher.{Stage}
use forge_wingman.Store.Keys.{reservation_key, reservation_run_id}
use forge_wingman.Store.Keys.Distinct.{IsRunId, reservation_run_id-key}
use forge_wingman.Store.Row.{Row, RunState, claimed}
use forge_wingman.Store.Ledger.{Entry, Ledger, reserved_keys, delete_all, reservation}
use forge_wingman.Store.Ledger.Booking.{
  lookup-delete-some, lookup-delete_all-some, reserved_keys-In, reservation-some, reservation_none,
}
use forge_wingman.Store.Db.{Db, update}

-- The entry is the reservation of a claimed run at the attempt that its row records.
pub record Booked (runs : Text → Option Row) (k : Text) (e : Entry) : Type 0 where
  pub run : Text
  pub row : Row
  pub is_id : IsRunId run
  pub present : runs run ≡ some row
  pub in_state : row.state ≡ claimed
  pub at_attempt : e.attempt ≡ row.attempt
  pub keyed : k ≡ reservation_key run row.attempt e.stage

pub record IsAccounted (runs : Text → Option Row) (m : GoMap Entry) : Type 0 where
  pub booked : (k : Text) (e : Entry) → lookup k m ≡ some e → Booked runs k e
  pub single :
      (j k : Text) (d e : Entry)
      → lookup j m ≡ some d
      → lookup k m ≡ some e
      → reservation_run_id j ≡ reservation_run_id k
      → j ≡ k

-- No reservation is the run's.
abbrev pub IsFree : GoMap Entry → Text → Type 0
IsFree m run = (k : Text) (e : Entry) → lookup k m ≡ some e → reservation_run_id k ≢ run

-- The run of a booked key is the one that the key names.
pub Booked-run :
    (runs : Text → Option Row) (k : Text) (e : Entry) (b : Booked runs k e)
    → reservation_run_id k ≡ b.run
Booked-run runs k e b = rw b.keyed (reservation_run_id-key b.run b.row.attempt e.stage b.is_id).0

pub update-other :
    (runs : Text → Option Row) (id j : Text) (r : Option Row) → j ≢ id → update runs id r j ≡ runs j
update-other runs id j r n = ground (arith, text_eq_iff id j)

update-same : (runs : Text → Option Row) (id : Text) (r : Option Row) → update runs id r id ≡ r
update-same runs id r = ground (arith, text_eq_self id)

text_cases : (s t : Text) → (s ≡ t) ⊎ (s ≢ t)
text_cases s t = ground (arith, text_eq_iff s t)

same_row :
    (runs : Text → Option Row) (id run : Text) (row row' : Row)
    → run ≡ id
    → runs id ≡ some row
    → runs run ≡ some row'
    → row ≡ row'
same_row runs id run row row' p h i = some-injective row row' (sym h ∙ rw p at i)

-- The key of a booked run, from its row.
own_key :
    (runs : Text → Option Row) (id : Text) (row : Row) (k : Text) (e : Entry)
    → Booked runs k e
    → runs id ≡ some row
    → reservation_run_id k ≡ id
    → k ≡ reservation_key id row.attempt e.stage
own_key runs id row k e b h named =
    let p : b.run ≡ id = sym (Booked-run runs k e b) ∙ named in
    let q : row ≡ b.row = same_row runs id b.run row b.row p h b.present in
    let key = b.keyed in
    let attempts : row.attempt ≡ b.row.attempt = ap (λ r. r.attempt) q in rw (p, ← attempts) at key

-- A row that is not claimed holds no reservation.
pub idle-IsFree :
    (runs : Text → Option Row) (m : GoMap Entry) (id : Text)
    → IsAccounted runs m
    → ((row : Row) → runs id ≡ some row → row.state ≢ claimed)
    → IsFree m id
idle-IsFree runs m id acc idle k e h named =
    let b = acc.booked k e h in
    idle b.row (rw (sym named ∙ Booked-run runs k e b) b.present) b.in_state

-- The row of a run without a reservation may change in any way.
pub free-IsAccounted :
    (runs : Text → Option Row) (m : GoMap Entry) (id : Text) (r : Option Row)
    → IsAccounted runs m
    → IsFree m id
    → IsAccounted (update runs id r) m
free-IsAccounted runs m id r acc free = record {
  booked = λ k e h.
      let b = acc.booked k e h in
      record {
        run = b.run;
        row = b.row;
        is_id = b.is_id;
        present =
            update-other runs id b.run r (λ p. free k e h (Booked-run runs k e b ∙ p)) ∙ b.present;
        in_state = b.in_state;
        at_attempt = b.at_attempt;
        keyed = b.keyed;
      };
  single = acc.single;
}

-- A row that keeps its state and its attempt keeps its reservation.
pub kept-IsAccounted :
    (runs : Text → Option Row) (m : GoMap Entry) (id : Text) (row row' : Row)
    → IsAccounted runs m
    → runs id ≡ some row
    → row'.state ≡ row.state
    → row'.attempt ≡ row.attempt
    → IsAccounted (update runs id (some row')) m
kept-IsAccounted runs m id row row' acc at same_state same_attempt = record {
  booked = λ k e h. kept k e (acc.booked k e h);
  single = acc.single;
}
  where
    kept : (k : Text) (e : Entry) → Booked runs k e → Booked (update runs id (some row')) k e
    kept k e b = elim (text_cases b.run id) [
      | inl p ↦
          let same : row ≡ b.row = same_row runs id b.run row b.row p at b.present in
          let is_id = b.is_id in
          record {
            run = id;
            row = row';
            is_id = rw p at is_id;
            present = update-same runs id (some row');
            in_state = same_state ∙ ap (λ r. r.state) same ∙ b.in_state;
            at_attempt = b.at_attempt ∙ sym (same_attempt ∙ ap (λ r. r.attempt) same);
            keyed = rw same_attempt (own_key runs id row k e b at (Booked-run runs k e b ∙ p));
          }
      | inr n ↦ record {
        run = b.run;
        row = b.row;
        is_id = b.is_id;
        present = update-other runs id b.run (some row') n ∙ b.present;
        in_state = b.in_state;
        at_attempt = b.at_attempt;
        keyed = b.keyed;
      }
    ]

-- Fewer reservations are as well accounted for.
pub fewer-IsAccounted :
    (runs : Text → Option Row) (m n : GoMap Entry)
    → IsAccounted runs m
    → ((k : Text) (e : Entry) → lookup k n ≡ some e → lookup k m ≡ some e)
    → IsAccounted runs n
fewer-IsAccounted runs m n acc sub = record {
  booked = λ k e h. acc.booked k e (sub k e h);
  single = λ j k d e h i. acc.single j k d e (sub j d h) (sub k e i);
}

-- A claim books the reservation of a run that held none.
pub claimed-IsAccounted :
    (runs : Text → Option Row) (m : GoMap Entry) (id : Text) (row : Row) (e : Entry)
    → IsAccounted runs m
    → IsFree m id
    → IsRunId id
    → row.state ≡ claimed
    → e.attempt ≡ row.attempt
    → IsAccounted (update runs id (some row)) (assign (reservation_key id row.attempt e.stage) e m)
claimed-IsAccounted runs m id row e acc free is_id in_state at_attempt = record {
  booked = λ k d h. elim (assigned k d h) [
    | inl (p, q) ↦ record {
      run = id;
      row = row;
      is_id = is_id;
      present = update-same runs id (some row);
      in_state = in_state;
      at_attempt = ap (λ x. x.attempt) q ∙ at_attempt;
      keyed = p ∙ ap (λ x. reservation_key id row.attempt x.stage) (sym q);
    }
    | inr old ↦ (free-IsAccounted runs m id (some row) acc free).booked k d old
  ];
  single = λ j k d f h i named. elim (assigned j d h) [
    | inl (p, q) ↦ elim (assigned k f i) [
      | inl (p', q') ↦ p ∙ sym p'
      | inr old' ↦ absurd (free k f old' (sym named ∙ ap reservation_run_id p ∙ key_run))
    ]
    | inr old ↦ elim (assigned k f i) [
      | inl (p', q') ↦ absurd (free j d old (named ∙ ap reservation_run_id p' ∙ key_run))
      | inr old' ↦ acc.single j k d f old old' named
    ]
  ];
}
  where
    key_run : reservation_run_id (reservation_key id row.attempt e.stage) ≡ id
    key_run = (reservation_run_id-key id row.attempt e.stage is_id).0

    assigned :
        (k : Text) (d : Entry)
        → lookup k (assign (reservation_key id row.attempt e.stage) e m) ≡ some d
        → ((k ≡ reservation_key id row.attempt e.stage) × (d ≡ e)) ⊎ (lookup k m ≡ some d)
    assigned k d h = ground (
      arith,
      lookup-assign (reservation_key id row.attempt e.stage) k e m,
      text_eq_iff (reservation_key id row.attempt e.stage) k,
    )

-- A drop of the attempt's reservations leaves the run none.
pub drop-IsFree :
    (runs : Text → Option Row) (m : GoMap Entry) (id : Text) (row : Row)
    → IsAccounted runs m
    → runs id ≡ some row
    → IsFree (delete_all (reserved_keys m id row.attempt) m) id
drop-IsFree runs m id row acc at k e h named =
    let (old, out) = lookup-delete_all-some (reserved_keys m id row.attempt) k e m h in
    let key = own_key runs id row k e (acc.booked k e old) at named in
    out (rw key (reserved_keys-In m id row.attempt e.stage e (rw key at old)))

-- So does the delete of one reservation of the run.
pub deleted-IsFree :
    (runs : Text → Option Row) (m : GoMap Entry) (id k : Text) (e : Entry)
    → IsAccounted runs m
    → lookup k m ≡ some e
    → reservation_run_id k ≡ id
    → IsFree (delete k m) id
deleted-IsFree runs m id k e acc present run j d at named =
    let (old, other) = lookup-delete-some k j d m at in
    other (acc.single k j e d present old (run ∙ sym named))

pub delete-IsFree :
    (runs : Text → Option Row) (m : GoMap Entry) (id k : Text) (a : ℕ) (e : Entry)
    → IsAccounted runs m
    → IsRunId id
    → reservation m id a ≡ some (k, e)
    → IsFree (delete k m) id
delete-IsFree runs m id k a e acc is_id h =
    let (present, run) = reservation-some m id a k e is_id h in
    deleted-IsFree runs m id k e acc present run

-- Where it reports none, the run holds none.
pub none-IsFree :
    (runs : Text → Option Row) (m : GoMap Entry) (id : Text) (row : Row)
    → IsAccounted runs m
    → runs id ≡ some row
    → reservation m id row.attempt ≡ none
    → IsFree m id
none-IsFree runs m id row acc at h k e old named =
    let key = own_key runs id row k e (acc.booked k e old) at named in
    none-ne-some e (sym (reservation_none m id row.attempt e.stage h) ∙ rw key at old)
