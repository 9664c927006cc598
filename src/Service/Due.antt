-- ===== src/Service/Due.antt =====
-- app/service.py: the rows that `_claim_due_batch` selects.
pub mod Complete
use mathlib.Core.List.Memᴰ
use netaro_settlement_router.Prelude.{
  nat_eq, ℕ, zero, suc, ◌≤◌, ◌≡◌, ◌↔◌, false, sym, ap, ◌∙◌, inl, inr, ◌⊎◌, Bool, true, some, List,
  [], ◌∷◌, Memᴰ, arith, Bool-cases, Option-cases, take, length, mem_of_mem-select,
}
use netaro_settlement_router.Table.{lookup}
use netaro_settlement_router.Models.{
  Settlement, PayoutAttempt, attempt_id_of, payout_in_progress, pending_reconciliation, submitting,
  reconciling,
}
use netaro_settlement_router.Database.{Database}
use netaro_settlement_router.Service.{joined, is_due, comes_first, insert_due, order_due, due_rows}

abbrev pub Row : Type 0
Row = Settlement × PayoutAttempt

mem_of_take : (n : ℕ) {r : Row} (rows : List Row) → Memᴰ r (take n rows) → Memᴰ r rows
mem_of_take zero rows m = elim m [ ]
mem_of_take (suc n) [] m = m
mem_of_take (suc n) (q ∷ rows) m = elim (Memᴰ.cases_cons m) [
  | inl p ↦ Memᴰ.head p
  | inr later ↦ Memᴰ.tail (mem_of_take n rows later)
]

length-take-le : (n : ℕ) (rows : List Row) → length (take n rows) ≤ n
length-take-le zero rows = omega arith
length-take-le (suc n) [] = omega arith
length-take-le (suc n) (q ∷ rows) = omega (arith, length-take-le n rows)

mem_of_insert_due :
    (q : Row) {r : Row} (rows : List Row) → Memᴰ r (insert_due q rows) → (r ≡ q) ⊎ Memᴰ r rows
unfolding insert_due
mem_of_insert_due q [] m = Memᴰ.cases_cons m
mem_of_insert_due q (t ∷ rows) m = elim (Bool-cases (comes_first q t)) [
  | inl before ↦ Memᴰ.cases_cons (rw before at m)
  | inr after ↦ elim (Memᴰ.cases_cons (rw after at m)) [
    | inl p ↦ inr (Memᴰ.head p)
    | inr later ↦ elim (mem_of_insert_due q rows later) [
      | inl p ↦ inl p
      | inr old ↦ inr (Memᴰ.tail old)
    ]
  ]
]

mem_of_order_due : {r : Row} (rows : List Row) → Memᴰ r (order_due rows) → Memᴰ r rows
unfolding order_due
mem_of_order_due [] m = m
mem_of_order_due (q ∷ rows) m = elim (mem_of_insert_due q (order_due rows) m) [
  | inl p ↦ Memᴰ.head p
  | inr later ↦ Memᴰ.tail (mem_of_order_due rows later)
]

mem_of_joined :
    (db : Database) (settlements : List Settlement) (r : Row)
    → Memᴰ r (joined db settlements)
    → Memᴰ r.0 settlements × (lookup attempt_id_of r.0.id db.attempts ≡ some r.1)
mem_of_joined db [] r m = elim m [ ]
mem_of_joined db (s ∷ rest) r m = elim (Option-cases (lookup attempt_id_of s.id db.attempts)) [
  | inl missing ↦
      let (old, found) = mem_of_joined db rest r (rw missing at m) in (Memᴰ.tail old, found)
  | inr (a, at_s) ↦ elim (Memᴰ.cases_cons (rw at_s at m)) [
    | inl p ↦ (
      Memᴰ.head (ap (λ (q : Row). q.0) p),
      ap (λ (q : Row). lookup attempt_id_of q.0.id db.attempts) p
          ∙ at_s
          ∙ ap (λ (q : Row). some q.1) (sym p),
    )
    | inr later ↦ let (old, found) = mem_of_joined db rest r later in (Memᴰ.tail old, found)
  ]
]

-- A settlement in flight of the table with its attempt, whose lease has run out, in one of the two
-- states that the batch takes up, and that no other transaction has locked.
pub record IsClaimable (is_locked : ℕ → Bool) (now : ℕ) (db : Database) (r : Row) : Type 0 where
  pub stored : Memᴰ r.0 db.settlements
  pub attempt : lookup attempt_id_of r.0.id db.attempts ≡ some r.1
  pub flies : (r.0.status ≡ payout_in_progress) ⊎ (r.0.status ≡ pending_reconciliation)
  pub expired : r.1.lease_expires_at ≤ now
  pub waits : (r.1.state ≡ submitting) ⊎ (r.1.state ≡ reconciling)
  pub free : is_locked r.0.id ≡ false

-- The test of the batch, in terms of the columns.
pub is_due_iff :
    (is_locked : ℕ → Bool) (now : ℕ) (s : Settlement) (a : PayoutAttempt)
    → (is_due is_locked now (s, a) ≡ true) ↔ (
        ((s.status ≡ payout_in_progress) ⊎ (s.status ≡ pending_reconciliation))
        × (a.lease_expires_at ≤ now)
        × ((a.state ≡ submitting) ⊎ (a.state ≡ reconciling))
        × (is_locked s.id ≡ false))
is_due_iff is_locked now s a = ground arith

-- A batch holds at most `limit` rows, and each is a settlement in flight of the table with its
-- attempt in the state SUBMITTING or RECONCILING, whose lease has run out, and which no other
-- transaction has locked.
pub due_rows-IsClaimable :
    (is_locked : ℕ → Bool) (now limit : ℕ) (db : Database) (r : Row)
    → Memᴰ r (due_rows is_locked now limit db)
    → (length (due_rows is_locked now limit db) ≤ limit) × IsClaimable is_locked now db r
unfolding due_rows
due_rows-IsClaimable is_locked now limit db r m =
    let (in_join, due) =
      mem_of_mem-select (is_due is_locked now) (joined db db.settlements)
        (mem_of_order_due _ (mem_of_take limit _ m)) in
    let (old, found) = mem_of_joined db db.settlements r in_join in
    let (flies, expired, waits, free) = (is_due_iff is_locked now r.0 r.1).0 due in
    (
      length-take-le limit _,
      record {
        stored = old;
        attempt = found;
        flies = flies;
        expired = expired;
        waits = waits;
        free = free;
      },
    )
