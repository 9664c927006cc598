-- ===== src/Service/Due/Complete.antt =====
-- app/service.py: which rows `_claim_due_batch` cannot miss.
use mathlib.Core.List.Memᴰ
use netaro_settlement_router.Prelude.{
  All, each, ◌⊎◌, ◌<◌, false, nat_eq, ℕ, zero, suc, ◌≡◌, ◌≤◌, refl, sym, ap, ◌∙◌, inl, inr, Bool,
  true, some, List, [], ◌∷◌, Memᴰ, arith, length, take, select, mem-select, Bool-cases,
  Option-cases,
}
use netaro_settlement_router.Table.{lookup}
use netaro_settlement_router.Models.{Settlement, PayoutAttempt, attempt_id_of}
use netaro_settlement_router.Database.{Database}
use netaro_settlement_router.Service.{joined, is_due, comes_first, insert_due, order_due, due_rows}
use netaro_settlement_router.Service.Due.{Row, IsClaimable, is_due_iff}

-- The order of the batch: by the lease, then by the settlement's id.
abbrev pub ComesNoLater : Row → Row → Type 0
ComesNoLater (s, a) (t, b) =
    (a.lease_expires_at < b.lease_expires_at)
    ⊎ ((a.lease_expires_at ≡ b.lease_expires_at) × (s.id ≤ t.id))

comes_first-ComesNoLater : (r q : Row) → comes_first r q ≡ true → ComesNoLater r q
comes_first-ComesNoLater (s, a) (t, b) h = ground arith

comes_after-ComesNoLater : (r q : Row) → comes_first r q ≡ false → ComesNoLater q r
comes_after-ComesNoLater (s, a) (t, b) h = ground arith

ComesNoLater-trans : (r q p : Row) → ComesNoLater r q → ComesNoLater q p → ComesNoLater r p
ComesNoLater-trans (s, a) (t, b) (u, c) (inl h) (inl k) = inl (omega (arith, h, k))
ComesNoLater-trans (s, a) (t, b) (u, c) (inl h) (inr (k, l)) = inl (omega (arith, h, k))
ComesNoLater-trans (s, a) (t, b) (u, c) (inr (h, g)) (inl k) = inl (omega (arith, h, k))
ComesNoLater-trans (s, a) (t, b) (u, c) (inr (h, g)) (inr (k, l)) = inr (h ∙ k, omega (arith, g, l))

abbrev IsSorted : List Row → Type 0
IsSorted [] = Unit
IsSorted (r ∷ rows) = All (ComesNoLater r) rows × IsSorted rows

All-later :
    (r q : Row) (rows : List Row)
    → ComesNoLater r q
    → All (ComesNoLater q) rows
    → All (ComesNoLater r) rows
All-later r q [] h all = tt
All-later r q (p ∷ rows) h all = (ComesNoLater-trans r q p h all.0, All-later r q rows h all.1)

insert_due-All :
    (q r : Row) (rows : List Row)
    → ComesNoLater r q
    → All (ComesNoLater r) rows
    → All (ComesNoLater r) (insert_due q rows)
unfolding insert_due
insert_due-All q r [] h all = (h, tt)
insert_due-All q r (p ∷ rows) h all = elim (Bool-cases (comes_first q p)) [
  | inl first ↦ rw first (h, all)
  | inr later ↦ rw later (all.0, insert_due-All q r rows h all.1)
]

insert_due-IsSorted : (q : Row) (rows : List Row) → IsSorted rows → IsSorted (insert_due q rows)
unfolding insert_due
insert_due-IsSorted q [] o = (tt, tt)
insert_due-IsSorted q (p ∷ rows) o = elim (Bool-cases (comes_first q p)) [
  | inl first ↦
      let h = comes_first-ComesNoLater q p first in rw first ((h, All-later q p rows h o.0), o)
  | inr later ↦ rw later (
    insert_due-All q p rows (comes_after-ComesNoLater q p later) o.0,
    insert_due-IsSorted q rows o.1,
  )
]

order_due-IsSorted : (rows : List Row) → IsSorted (order_due rows)
unfolding order_due
order_due-IsSorted [] = tt
order_due-IsSorted (q ∷ rows) = insert_due-IsSorted q (order_due rows) (order_due-IsSorted rows)

-- A row of a sorted list is among the first n, or these are n rows that come no later.
mem-take :
    (n : ℕ) (r : Row) (rows : List Row)
    → IsSorted rows
    → Memᴰ r rows
    → Memᴰ r (take n rows)
      ⊎ ((length (take n rows) ≡ n) × All (λ q. ComesNoLater q r) (take n rows))
mem-take zero r rows o m = inr (refl, tt)
mem-take (suc n) r [] o m = elim m [ ]
mem-take (suc n) r (q ∷ rows) o (Memᴰ.head same) = inl (Memᴰ.head same)
mem-take (suc n) r (q ∷ rows) o (Memᴰ.tail m) = elim (mem-take n r rows o.1 m) [
  | inl taken ↦ inl (Memᴰ.tail taken)
  | inr (full, all) ↦ inr (ap suc full, (each (ComesNoLater q) rows o.0 r m, all))
]

mem-insert_due : (q r : Row) (rows : List Row) → Memᴰ r (q ∷ rows) → Memᴰ r (insert_due q rows)
unfolding insert_due
mem-insert_due q r [] m = m
mem-insert_due q r (p ∷ rows) m = elim (Bool-cases (comes_first q p)) [
  | inl first ↦ rw first m
  | inr later ↦ rw later (elim (Memᴰ.cases_cons m) [
    | inl same ↦ Memᴰ.tail (mem-insert_due q r rows (Memᴰ.head same))
    | inr old ↦ elim (Memᴰ.cases_cons old) [
      | inl same ↦ Memᴰ.head same
      | inr rest ↦ Memᴰ.tail (mem-insert_due q r rows (Memᴰ.tail rest))
    ]
  ])
]

mem-order_due : (r : Row) (rows : List Row) → Memᴰ r rows → Memᴰ r (order_due rows)
unfolding order_due
mem-order_due r [] m = m
mem-order_due r (q ∷ rows) m = mem-insert_due q r (order_due rows) (elim (Memᴰ.cases_cons m) [
  | inl same ↦ Memᴰ.head same
  | inr old ↦ Memᴰ.tail (mem-order_due r rows old)
])

mem-joined :
    (db : Database) (settlements : List Settlement) (s : Settlement) (a : PayoutAttempt)
    → Memᴰ s settlements
    → lookup attempt_id_of s.id db.attempts ≡ some a
    → Memᴰ (s, a) (joined db settlements)
mem-joined db [] s a m found = elim m [ ]
mem-joined db (t ∷ rest) s a m found = elim (Memᴰ.cases_cons m) [
  | inl p ↦
      let at_t : lookup attempt_id_of t.id db.attempts ≡ some a =
        ap (λ (q : Settlement). lookup attempt_id_of q.id db.attempts) (sym p) ∙ found in
      rw at_t (Memᴰ.head (ap (λ (q : Settlement). (q, a)) p))
  | inr later ↦ elim (Option-cases (lookup attempt_id_of t.id db.attempts)) [
    | inl missing ↦ rw missing (mem-joined db rest s a later found)
    | inr (b, there) ↦ rw there (Memᴰ.tail (mem-joined db rest s a later found))
  ]
]

-- A claimable row is in the batch, unless the batch is full of rows that come no later: by the end
-- of the lease, then by the id.
pub claimable-due_rows :
    (is_locked : ℕ → Bool) (now limit : ℕ) (db : Database) (r : Row)
    → IsClaimable is_locked now db r
    → Memᴰ r (due_rows is_locked now limit db)
      ⊎ ((length (due_rows is_locked now limit db) ≡ limit)
          × All (λ q. ComesNoLater q r) (due_rows is_locked now limit db))
unfolding due_rows
claimable-due_rows is_locked now limit db (s, a) c =
    let rows = select (is_due is_locked now) (joined db db.settlements) in
    mem-take limit (s, a) (order_due rows) (order_due-IsSorted rows)
      (mem-order_due (s, a) rows
        (mem-select (is_due is_locked now) _ (mem-joined db db.settlements s a c.stored c.attempt)
          ((is_due_iff is_locked now s a).1 (c.flies, c.expired, c.waits, c.free))))
