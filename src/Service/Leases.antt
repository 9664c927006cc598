-- ===== src/Service/Leases.antt =====
-- app/service.py: who can claim an attempt whose worker has stopped, after the lease.
use netaro_settlement_router.Prelude.{
  ◌⊎◌, inl, inr, nat_eq, ℕ, ◌+◌, ◌≡◌, ◌≢◌, ◌≤◌, refl, sym, ap, ◌∙◌, subst, Bool, true, false, some,
  List, [], ◌∷◌, Memᴰ, arith,
}
use netaro_settlement_router.Table.{lookup, replace, lookup-mem}
use netaro_settlement_router.Table.Updates.{lookup-replace_ne}
use netaro_settlement_router.Models.{
  submitting, reconciling, Settlement, PayoutAttempt, attempt_id_of, settlement_id_of, in_flight,
}
use netaro_settlement_router.Database.{Database, Result, ok, err, pure, continue, ◌>>=◌}
use netaro_settlement_router.Service.{
  PayoutClaim, claim_of, is_claimed, due_rows, claim_rows, claim_due_rows, claim_due_batch,
  claim_attempt, claim_locked, claim_for_reconciliation, reclaimed,
}
use netaro_settlement_router.Service.Due.{due_rows-IsClaimable}
use netaro_settlement_router.Service.Submission.{attempt_for}
use netaro_settlement_router.Service.Soundness.{transaction-keeps}

pub continue-pure :
    {A B : Type 0} (r : Result A × Database) (g : A → B) → (continue r (λ x. pure (g x))).1 ≡ r.1
continue-pure (ok a, db) g = refl
continue-pure (err e, db) g = refl

module _ (deadline : ℕ → ℕ) (i : ℕ) (a : PayoutAttempt) where
  -- The loop over a batch leaves the attempts of other settlements.
  claim_rows-leaves :
      (rows : List (Settlement × PayoutAttempt)) (db : Database)
      → ((r : Settlement × PayoutAttempt) → Memᴰ r rows → r.1.settlement_id ≢ i)
      → attempt_for i db.attempts ≡ some a
      → attempt_for i (claim_rows deadline rows db).1.attempts ≡ some a
  unfolding claim_rows ◌>>=◌
  claim_rows-leaves [] db others h = h
  claim_rows-leaves ((s, b) ∷ rows) db others h =
      let later : Database = record db {
        attempts = replace attempt_id_of (reclaimed b (deadline s.id)) db.attempts;
      } in
      subst (λ (d : Database). attempt_for i d.attempts ≡ some a)
        (sym (
          continue-pure (claim_rows deadline rows later)
            (λ claims. claim_of s (b.attempt_token + 1) ∷ claims)))
        (claim_rows-leaves rows later (λ r m. others r (Memᴰ.tail m))
          (lookup-replace_ne attempt_id_of (reclaimed b (deadline s.id)) db.attempts i
              (others (s, b) (Memᴰ.head refl))
            ∙ h))

waiting-unclaimed :
    (b : PayoutAttempt)
    → (b.state ≡ submitting) ⊎ (b.state ≡ reconciling)
    → is_claimed b.state ≡ false
waiting-unclaimed b (inl p) = rw p refl
waiting-unclaimed b (inr p) = rw p refl

module _ (is_locked : ℕ → Bool) (now limit : ℕ) (db : Database) (i : ℕ) (a : PayoutAttempt)
    (attempted : attempt_for i db.attempts ≡ some a) (is_held : is_claimed a.state ≡ true) where
  never_due :
      (r : Settlement × PayoutAttempt)
      → Memᴰ r (due_rows is_locked now limit db)
      → r.1.settlement_id ≢ i
  never_due (s, b) m same =
      let c = (due_rows-IsClaimable is_locked now limit db (s, b) m).1 in
      let found = c.attempt in
      let (_, key) = lookup-mem attempt_id_of s.id db.attempts b found in
      let row : attempt_for i db.attempts ≡ some b =
        subst (λ k. attempt_for k db.attempts ≡ some b) (sym key ∙ same) found in
      let one_row : b ≡ a = cc (sym row ∙ attempted) in
      cc (
        waiting-unclaimed b c.waits,
        ap (λ (q : PayoutAttempt). is_claimed q.state) one_row,
        is_held,
      )

  claim_due_batch-skips :
      (deadline : ℕ → ℕ)
      → attempt_for i (claim_due_batch is_locked now deadline limit db).1.attempts ≡ some a
  unfolding claim_due_batch claim_due_rows ◌>>=◌
  claim_due_batch-skips deadline =
      transaction-keeps (λ d. attempt_for i d.attempts ≡ some a)
        (claim_due_rows is_locked now deadline limit) db attempted
        (λ claims after e.
          subst (λ (q : Result (List PayoutClaim) × Database). attempt_for i q.1.attempts ≡ some a)
            e
            (claim_rows-leaves deadline i a (due_rows is_locked now limit db) db never_due
              attempted))

-- An attempt in state CLAIMED of an in-flight settlement, at or after the end of its lease, is not
-- claimed by the background batch: `_claim_due_batch` leaves the row as it is. The transaction of
-- `reconcile`, `_claim_for_reconciliation`, does claim it, with the next token.
pub claimed_only_by_call :
    (db : Database) (s : Settlement) (a : PayoutAttempt) (is_locked : ℕ → Bool) (now limit : ℕ)
    (deadline : ℕ → ℕ)
    → lookup settlement_id_of s.id db.settlements ≡ some s
    → attempt_for s.id db.attempts ≡ some a
    → in_flight s.status ≡ true
    → is_claimed a.state ≡ true
    → a.lease_expires_at ≤ now
    → (attempt_for s.id (claim_due_batch is_locked now deadline limit db).1.attempts ≡ some a)
      × ((claim_for_reconciliation s.id false now (deadline s.id) db).0
          ≡ ok (some (claim_of s (a.attempt_token + 1))))
unfolding claim_for_reconciliation claim_locked claim_attempt ◌>>=◌
claimed_only_by_call db s a is_locked now limit deadline found attempted flies held over =
    (claim_due_batch-skips is_locked now limit db s.id a attempted held deadline, ground arith)
