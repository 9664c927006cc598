-- ===== src/Service/Soundness/Batches.antt =====
-- app/service.py: `_claim_due_batch` on a sound database.
use netaro_settlement_router.Prelude.{
  nat_eq, ℕ, ◌≡◌, refl, sym, ap, ◌∙◌, subst, inl, inr, Bool, some, List, [], ◌∷◌, Memᴰ,
  Option-cases,
}
use netaro_settlement_router.Table.{replace, lookup-mem}
use netaro_settlement_router.Table.Updates.{lookup-replace-none}
use netaro_settlement_router.Models.{PayoutAttempt, attempt_id_of}
use netaro_settlement_router.Database.{Database, Result, ok, >>=-eq-ok, lift-eq-ok, reads}
use netaro_settlement_router.Service.{
  PayoutClaim, update_attempt, reclaimed, claim_rows, claim_due_rows, claim_due_batch, due_rows,
}
use netaro_settlement_router.Service.Due.{Row, due_rows-IsClaimable}
use netaro_settlement_router.Service.Submission.{attempt_for}
use netaro_settlement_router.Service.Soundness.Defs.{IsSound, transaction-keeps}
use netaro_settlement_router.Service.Soundness.Claims.{reclaim-IsSound}

-- What the loop over a batch needs of its rows.
abbrev IsClaimable : Database → List Row → Type 0
IsClaimable db rows =
    (r : Row)
    → Memᴰ r rows
    → (b : PayoutAttempt) × (attempt_for r.1.settlement_id db.attempts ≡ some b)
      × (r.1.operation_id ≡ r.1.settlement_id)

still_there :
    (attempts : List PayoutAttempt) (new : PayoutAttempt) (k : ℕ) (b : PayoutAttempt)
    → attempt_for k attempts ≡ some b
    → (c : PayoutAttempt) × (attempt_for k (replace attempt_id_of new attempts) ≡ some c)
still_there attempts new k b found =
    elim (Option-cases (attempt_for k (replace attempt_id_of new attempts))) [
      | inl gone ↦ cc (found, lookup-replace-none attempt_id_of new attempts k gone)
      | inr (c, there) ↦ (c, there)
    ]

claim_rows-IsSound :
    (deadline : ℕ → ℕ) (rows : List Row) (db : Database)
    → IsSound db
    → IsClaimable db rows
    → (r : List PayoutClaim) (db' : Database) → claim_rows deadline rows db ≡ (ok r, db')
    → IsSound db'
unfolding claim_rows
claim_rows-IsSound deadline [] db h can r db' e =
    subst IsSound (ap (λ (q : Result (List PayoutClaim) × Database). q.1) e) h
claim_rows-IsSound deadline ((s, a) ∷ rows) db h can r db' e =
    let (u, db₁, e₁, rest) = >>=-eq-ok (update_attempt (reclaimed a (deadline s.id))) _ db e in
    let (claims, db₂, e₂, rest₂) = >>=-eq-ok (claim_rows deadline rows) _ db₁ rest in
    let written : db₁
        ≡ record db { attempts = replace attempt_id_of (reclaimed a (deadline s.id)) db.attempts } =
      sym (ap (λ (q : Result (Unit {0}) × Database). q.1) e₁) in
    let (b, found, op) = can (s, a) (Memᴰ.head refl) in
    let last : db₂ ≡ db' = ap (λ (q : Result (List PayoutClaim) × Database). q.1) rest₂ in
    subst IsSound last (
      claim_rows-IsSound deadline rows db₁
        (rw written (reclaim-IsSound h a b (deadline s.id) found op))
        (rw written (λ q m.
          let (c, found_c, op_c) = can q (Memᴰ.tail m) in
          let (d, there) =
            still_there db.attempts (reclaimed a (deadline s.id)) q.1.settlement_id c found_c in
          (d, there, op_c)))
        claims db₂ e₂)

claim_due_rows-IsSound :
    (is_locked : ℕ → Bool) (now : ℕ) (deadline : ℕ → ℕ) (limit : ℕ) (db : Database)
    → IsSound db
    → (r : List PayoutClaim) (db' : Database)
    → claim_due_rows is_locked now deadline limit db ≡ (ok r, db')
    → IsSound db'
unfolding claim_due_rows
claim_due_rows-IsSound is_locked now deadline limit db h r db' e =
    let (rows, db₁, e₁, rest) =
      >>=-eq-ok (reads (λ (d : Database). ok (due_rows is_locked now limit d))) _ db e in
    let (found, same) = lift-eq-ok _ db e₁ in
    claim_rows-IsSound deadline rows db h (subst (IsClaimable db) (ok-injective found) claimable) r
      db' (subst (λ d. claim_rows deadline rows d ≡ (ok r, db')) same rest)
  where
    ok-injective : {x y : List Row} → ok x ≡ ok y → x ≡ y
    ok-injective p = cc

    claimable : IsClaimable db (due_rows is_locked now limit db)
    claimable q m =
        let found = (due_rows-IsClaimable is_locked now limit db q m).1.attempt in
        let (row, same) = lookup-mem attempt_id_of q.0.id db.attempts q.1 found in
        (
          q.1,
          ap (λ i. attempt_for i db.attempts) same ∙ found,
          (h.submitted.attempt_rows q.1 row).0,
        )

-- `_claim_due_batch` leaves a sound database sound.
pub claim_due_batch-IsSound :
    (is_locked : ℕ → Bool) (now : ℕ) (deadline : ℕ → ℕ) (limit : ℕ) (db : Database)
    → IsSound db
    → IsSound (claim_due_batch is_locked now deadline limit db).1
unfolding claim_due_batch
claim_due_batch-IsSound is_locked now deadline limit db h =
    transaction-keeps IsSound (claim_due_rows is_locked now deadline limit) db h
      (claim_due_rows-IsSound is_locked now deadline limit db h)
