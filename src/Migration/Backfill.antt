-- ===== src/Migration/Backfill.antt =====
-- alembic/versions/0002_durable_payout_and_ledger_guards.py: the attempts that the upgrade adds for
-- the settlements in flight, and the journals that it takes as posted.
use netaro_settlement_router.Prelude.{
  nat_eq, Bool-cases, inl, inr, ◌≤◌, ℕ, ◌≡◌, ◌≢◌, refl, sym, ap, ◌∙◌, Bool, true, false, none, some,
  List, [], ◌∷◌, ◌++◌, map, Memᴰ, ◌==◌, ==_iff, arith, exists, select, mem_of_mem-select,
  mem-select,
}
use mathlib.Core.List.{append_assoc, append-nil}
use netaro_settlement_router.Table.{lookup, Distinct}
use netaro_settlement_router.Models.{
  Settlement, SettlementStatus, payout_in_progress, JournalTransaction, PayoutAttempt, AttemptState,
  submitting, reconciling, settlement_id_of, attempt_id_of, in_flight,
}
use netaro_settlement_router.Database.{Database, ok, Session, pure, reads, writes, ◌>>=◌, ◌>>◌}
use netaro_settlement_router.Service.{insert_attempt, is_due}

-- CASE status WHEN 'PAYOUT_IN_PROGRESS' THEN 'SUBMITTING' ELSE 'RECONCILING' END
abbrev backfill_state : SettlementStatus → AttemptState
backfill_state payout_in_progress = submitting
backfill_state _ = reconciling

abbrev pub backfilled : ℕ → Settlement → PayoutAttempt
backfilled now s = record {
  settlement_id = s.id;
  operation_id = s.provider_operation_id;
  state = backfill_state s.status;
  attempt_token = 1;
  lease_expires_at = now;
  last_outcome = none;
}

-- ON CONFLICT (settlement_id) DO NOTHING
abbrev insert_unless : Bool → PayoutAttempt → Session (Unit {0})
insert_unless true attempt = pure tt
insert_unless false attempt = insert_attempt attempt

backfill_rows : ℕ → List Settlement → Session (Unit {0})
backfill_rows now [] = pure tt
backfill_rows now (s ∷ rows) = do
  present ← reads (λ db. ok (exists (λ a. a.settlement_id == s.id) db.attempts))
  insert_unless present (backfilled now s)
  backfill_rows now rows

abbrev pub as_posted : JournalTransaction → JournalTransaction
as_posted j = record j { is_posted = true }

abbrev under_way : Settlement → Bool
under_way s = in_flight s.status

-- The rows that `upgrade` writes; it has just created the table of attempts.
unfoldable pub upgrade : ℕ → Session (Unit {0})
unfolding backfill_rows
upgrade now = do
  rows ← reads (λ db. ok (select under_way db.settlements))
  backfill_rows now rows
  writes (λ d. record d { journals = map as_posted d.journals })

exists-append_none {ℓ} :
    {A : Type ℓ} (p : A → Bool) (xs : List A) (x : A)
    → exists p xs ≡ false
    → p x ≡ false
    → exists p (xs ++ x ∷ []) ≡ false
exists-append_none p [] x h k = rw k refl
exists-append_none p (y ∷ ys) x h k = ground (arith, exists-append_none p ys x)

-- No attempt has the settlement or the operation.
abbrev IsFree : List PayoutAttempt → Settlement → Type 0
IsFree attempts s =
    (exists (λ a. a.settlement_id == s.id) attempts ≡ false)
    × (exists (λ a. a.operation_id == s.provider_operation_id) attempts ≡ false)

differ : {i j : ℕ} → j ≢ i → (i == j) ≡ false
differ {i} {j} h = ground (arith, ==_iff i j)

insert_free :
    (now : ℕ) (s : Settlement) (db : Database)
    → IsFree db.attempts s
    → insert_attempt (backfilled now s) db
      ≡ (ok tt, record db { attempts = db.attempts ++ backfilled now s ∷ [] })
unfolding insert_attempt ◌>>=◌
insert_free now s db h = ground arith

backfill_rows-ok :
    (now : ℕ) (rows : List Settlement) (db : Database)
    → Distinct settlement_id_of rows
    → ((s : Settlement) → Memᴰ s rows → s.provider_operation_id ≡ s.id)
    → ((s : Settlement) → Memᴰ s rows → IsFree db.attempts s)
    → backfill_rows now rows db
      ≡ (ok tt, record db { attempts = db.attempts ++ map (backfilled now) rows })
unfolding backfill_rows ◌>>=◌
backfill_rows-ok now [] db apart op free = rw append-nil refl
backfill_rows-ok now (s ∷ rows) db apart op free =
    let (free_id, free_op) = free s (Memᴰ.head refl) in
    let after : Database = record db { attempts = db.attempts ++ backfilled now s ∷ [] } in
    rw (free_id, insert_free now s db (free_id, free_op))
      (backfill_rows-ok now rows after apart.1 (λ q m. op q (Memᴰ.tail m))
          (λ q m.
            let (fi, fo) = free q (Memᴰ.tail m) in
            (
              exists-append_none (λ (a : PayoutAttempt). a.settlement_id == q.id) db.attempts
                  (backfilled now s) fi (differ (apart.0 q m)),
              exists-append_none (λ (a : PayoutAttempt). a.operation_id == q.provider_operation_id)
                  db.attempts (backfilled now s) fo
                  (differ
                    (λ p. apart.0 q m (sym (op q (Memᴰ.tail m)) ∙ p ∙ op s (Memᴰ.head refl)))),
            ))
        ∙ rw append_assoc refl)

Distinct-select :
    (p : Settlement → Bool) (rows : List Settlement)
    → Distinct settlement_id_of rows
    → Distinct settlement_id_of (select p rows)
Distinct-select p [] d = tt
Distinct-select p (s ∷ rows) d = elim (Bool-cases (p s)) [
  | inl passes ↦
      rw passes ((λ q m. d.0 q (mem_of_mem-select p rows m).0), Distinct-select p rows d.1)
  | inr fails ↦ rw fails (Distinct-select p rows d.1)
]

lookup-backfilled :
    (now : ℕ) (rows : List Settlement) {s : Settlement}
    → Distinct settlement_id_of rows
    → Memᴰ s rows
    → lookup attempt_id_of s.id (map (backfilled now) rows) ≡ some (backfilled now s)
lookup-backfilled now [] d m = elim m [ ]
lookup-backfilled now (r ∷ rows) {s} d (Memᴰ.head e) =
    rw ((==_iff r.id s.id).1 (ap settlement_id_of (sym e)))
      (ap (λ (q : Settlement). some (backfilled now q)) (sym e))
lookup-backfilled now (r ∷ rows) {s} d (Memᴰ.tail m) =
    rw (differ {i = r.id} {j = s.id} (d.0 s m)) (lookup-backfilled now rows d.1 m)

is_due-backfilled :
    (now later : ℕ) (s : Settlement)
    → in_flight s.status ≡ true
    → now ≤ later
    → is_due (λ i. false) later (s, backfilled now s) ≡ true
is_due-backfilled now later s h k = ground arith

-- The upgrade goes through and leaves the settlements and their order. Each settlement in flight then
-- has its attempt, under its own id as operation, which the batch of a worker takes as due at any
-- later time at which its row is not locked.
pub upgrade-due :
    (now later : ℕ) (db : Database) (s : Settlement)
    → db.attempts ≡ []
    → Distinct settlement_id_of db.settlements
    → ((q : Settlement) → Memᴰ q db.settlements → q.provider_operation_id ≡ q.id)
    → Memᴰ s db.settlements
    → in_flight s.status ≡ true
    → now ≤ later
    → ((upgrade now db).0 ≡ ok tt)
      × ((upgrade now db).1.settlements ≡ db.settlements)
      × (lookup attempt_id_of s.id (upgrade now db).1.attempts ≡ some (backfilled now s))
      × ((backfilled now s).operation_id ≡ s.id)
      × (is_due (λ i. false) later (s, backfilled now s) ≡ true)
unfolding upgrade ◌>>=◌
upgrade-due now later db s none_yet apart op m flies at =
    let rows : List Settlement = select under_way db.settlements in
    let run =
      backfill_rows-ok now rows db (Distinct-select under_way db.settlements apart)
        (λ q n. op q (mem_of_mem-select under_way db.settlements n).0)
        (λ q n. rw none_yet (refl, refl)) in
    rw (run, none_yet)
      (
        refl,
        refl,
        lookup-backfilled now rows (Distinct-select under_way db.settlements apart)
            (mem-select under_way db.settlements m flies),
        op s m,
        is_due-backfilled now later s flies at,
      )
