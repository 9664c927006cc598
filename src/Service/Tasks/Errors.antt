-- ===== src/Service/Tasks/Errors.antt =====
-- app/service.py: the error in which a call ends.
use netaro_settlement_router.Prelude.{
  ℕ, ◌≡◌, ◌⊎◌, refl, ap, subst, inl, inr, String, Bool, true, false, Option, arith,
}
use netaro_settlement_router.Schemas.{SettlementCreate}
use netaro_settlement_router.Models.{Settlement}
use netaro_settlement_router.Database.{Database, Error, Result, ok, err, transaction-err}
use netaro_settlement_router.Provider.{PayoutProvider, ProviderResult}
use netaro_settlement_router.Service.{
  create_reserved, insert_and_reserve, claim_reserved, claim_reserved_locked,
  claim_for_reconciliation, claim_locked, finalize_attempt, finalize_locked,
}
use netaro_settlement_router.Service.Tasks.{
  World, Inputs, Task, creating, inserting, resolving, claiming, paying, finalizing, fetching,
  reconciling, reclaiming, looking_up, resubmitting, concluding, recovering, done, step,
  after_insert, after_claim, after_finalize, after_lookup, after_conclude,
}
use netaro_settlement_router.Service.Tasks.System.{get-db}

-- A call that has not ended, and is not in the handler that parks its settlement.
abbrev pub is_at_work : Task → Bool
is_at_work (done r) = false
is_at_work (recovering claim e propagate) = false
is_at_work _ = true

Result-cases : {A : Type 0} (r : Result A) → ((a : A) × (r ≡ ok a)) ⊎ ((e : Error) × (r ≡ err e))
Result-cases (ok a) = inl (a, refl)
Result-cases (err e) = inr (e, refl)

-- Each transaction that raises leaves the tables as they were.
create_reserved-err :
    (s : Settlement) (jid : ℕ) (db : Database) {e : Error}
    → (create_reserved s jid db).0 ≡ err e
    → (create_reserved s jid db).1 ≡ db
unfolding create_reserved
create_reserved-err s jid db h = transaction-err (insert_and_reserve s jid) db h

claim_reserved-err :
    (i deadline : ℕ) (db : Database) {e : Error}
    → (claim_reserved i deadline db).0 ≡ err e
    → (claim_reserved i deadline db).1 ≡ db
unfolding claim_reserved
claim_reserved-err i deadline db h = transaction-err (claim_reserved_locked i deadline) db h

claim_for_reconciliation-err :
    (i : ℕ) (respect : Bool) (now deadline : ℕ) (db : Database) {e : Error}
    → (claim_for_reconciliation i respect now deadline db).0 ≡ err e
    → (claim_for_reconciliation i respect now deadline db).1 ≡ db
unfolding claim_for_reconciliation
claim_for_reconciliation-err i respect now deadline db h =
    transaction-err (claim_locked i respect now deadline) db h

finalize_attempt-err :
    (i token : ℕ) (result : Option ProviderResult) (jid now : ℕ) (db : Database) {e : Error}
    → (finalize_attempt i token result jid now db).0 ≡ err e
    → (finalize_attempt i token result jid now db).1 ≡ db
unfolding finalize_attempt
finalize_attempt-err i token result jid now db h =
    transaction-err (finalize_locked i token result jid now) db h

-- Where a call ends in an error after a transaction, the transaction has raised.
raised :
    {A : Type 0} (next : Result A → Task) (r : Result A) {e : Error}
    → ((a : A) → next (ok a) ≡ done (err e) → ⊥)
    → next r ≡ done (err e)
    → (f : Error) × (r ≡ err f)
raised next (ok a) never h = absurd (never a h)
raised next (err f) never h = (f, refl)

module _ {P : Type 0} (provider : PayoutProvider P)
    (request_fingerprint : String → SettlementCreate → String) where
  pub step-err :
      (inputs : Inputs) (t : Task) (w w' : World P) (e : Error)
      → is_at_work t ≡ true
      → step provider request_fingerprint inputs t w ≡ (done (err e), w')
      → w'.db ≡ w.db
  unfolding step after_insert after_claim after_finalize after_lookup after_conclude
  step-err inputs t w w' e h run =
      subst (λ (x : World P). x.db ≡ w.db) (ap (λ (q : Task × World P). q.1) run)
        (by_task t h (ap (λ (q : Task × World P). q.0) run))
    where
      by_task :
          (t : Task)
          → is_at_work t ≡ true
          → (step provider request_fingerprint inputs t w).0 ≡ done (err e)
          → (step provider request_fingerprint inputs t w).1.db ≡ w.db
      by_task (creating o k c) h r = refl
      by_task (resolving q) h r = refl
      by_task (inserting s) h r =
          let (f, failed) =
            raised (after_insert s) (create_reserved s inputs.journal_id w.db).0
              (λ u p. ground arith) r in
          create_reserved-err s inputs.journal_id w.db failed
      by_task (claiming i) h r =
          let (f, failed) =
            raised (after_claim i paying) (claim_reserved i inputs.deadline w.db).0
              (λ o p. ground arith) r in
          claim_reserved-err i inputs.deadline w.db failed
      by_task (reclaiming i) h r =
          let (f, failed) =
            raised (after_claim i (λ claim. looking_up claim true))
              (claim_for_reconciliation i false inputs.now inputs.deadline w.db).0
              (λ o p. ground arith) r in
          claim_for_reconciliation-err i false inputs.now inputs.deadline w.db failed
      by_task (finalizing claim result) h r =
          let (f, failed) =
            raised (after_finalize claim)
              (finalize_attempt claim.settlement.id claim.attempt_token result inputs.journal_id
                inputs.now w.db).0
              (λ o p. ground arith) r in
          finalize_attempt-err claim.settlement.id claim.attempt_token result inputs.journal_id
            inputs.now w.db failed
      by_task (concluding claim result p) h r =
          let (f, failed) =
            raised (after_conclude claim p)
              (finalize_attempt claim.settlement.id claim.attempt_token result inputs.journal_id
                inputs.now w.db).0
              (λ o p. ground arith) r in
          finalize_attempt-err claim.settlement.id claim.attempt_token result inputs.journal_id
            inputs.now w.db failed
      by_task (fetching i) h r = get-db i w.db
      by_task (reconciling i) h r = get-db i w.db
      by_task (done r) h e = cc
      by_task (looking_up claim p) h r = refl
      by_task (recovering claim f p) h r = cc h
      by_task (paying claim) h r = refl
      by_task (resubmitting claim p) h r = refl
