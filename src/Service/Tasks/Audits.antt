-- ===== src/Service/Tasks/Audits.antt =====
-- app/service.py, app/ledger.py: the books at any time of a run, and their audit.
use netaro_settlement_router.Prelude.{String, ◌≡◌, refl, sym, ap, subst, false, none, [], Memᴰ}
use netaro_settlement_router.Schemas.{SettlementCreate}
use netaro_settlement_router.Database.{Database, ok}
use netaro_settlement_router.Provider.{PayoutProvider}
use netaro_settlement_router.Ledger.Invariant.{IsLedger}
use netaro_settlement_router.Ledger.Audit.{assert_ledger_invariants, IsAudited, audit-passes}
use netaro_settlement_router.Ledger.Audit.Postings.{post-IsAudited}
use netaro_settlement_router.Service.Soundness.{IsSound}
use netaro_settlement_router.Service.Entries.{
  Books, books, Enters, unchanged, movement, create_reserved-Enters, claim_reserved-Enters,
  claim_for_reconciliation-Enters, claim_due_batch-Enters, finalize_attempt-Enters,
}
use netaro_settlement_router.Service.Tasks.{
  World, Inputs, Task, inserting, claiming, finalizing, fetching, reconciling, reclaiming,
  concluding, recovering, step,
}
use netaro_settlement_router.Service.Tasks.System.{
  System, Step, create, read, reconcile, run, batch, crash, Reach, here, next, IsRunning,
  Reach-IsRunning, get-db,
}

abbrev pub Audits : Database → Type 0
Audits db = IsAudited db.accounts db.postings

Enters-Audits :
    {before after : Database} → IsSound before → Enters before after → Audits before → Audits after
Enters-Audits sound (unchanged same) h = subst (λ (b : Books). IsAudited b.0 b.2) (sym same) h
Enters-Audits sound (movement s event dk ck jid opened posted start other apart posting end) h =
    subst (λ (b : Books). IsAudited b.0 b.2) (sym end)
      (post-IsAudited s event dk ck jid opened
        (subst (λ (b : Books). IsLedger b.0) (sym start) sound.backed.ledger) apart
        (subst (λ (b : Books). IsAudited b.0 b.2) (sym start) h) posting)

module _ {P : Type 0} (provider : PayoutProvider P)
    (request_fingerprint : String → SettlementCreate → String) where
  step-Enters :
      (inputs : Inputs) (t : Task) (w : World P)
      → Enters w.db (step provider request_fingerprint inputs t w).1.db
  unfolding step
  step-Enters inputs (inserting s) w = create_reserved-Enters s inputs.journal_id w.db
  step-Enters inputs (claiming i) w = claim_reserved-Enters i inputs.deadline w.db
  step-Enters inputs (finalizing claim result) w =
      finalize_attempt-Enters claim.settlement.id claim.attempt_token result inputs.journal_id
        inputs.now w.db
  step-Enters inputs (concluding claim result p) w =
      finalize_attempt-Enters claim.settlement.id claim.attempt_token result inputs.journal_id
        inputs.now w.db
  step-Enters inputs (recovering claim e p) w =
      finalize_attempt-Enters claim.settlement.id claim.attempt_token none inputs.journal_id
        inputs.now w.db
  step-Enters inputs (reclaiming i) w =
      claim_for_reconciliation-Enters i false inputs.now inputs.deadline w.db
  step-Enters inputs (fetching i) w = unchanged (ap books (get-db i w.db))
  step-Enters inputs (reconciling i) w = unchanged (ap books (get-db i w.db))
  step-Enters inputs _ w = unchanged refl

  Step-Enters :
      {s t : System P} → Step provider request_fingerprint s t → Enters s.world.db t.world.db
  Step-Enters (create s o k c) = unchanged refl
  Step-Enters (read s i) = unchanged refl
  Step-Enters (reconcile s i) = unchanged refl
  Step-Enters (run w before after t inputs) = step-Enters inputs t w
  Step-Enters (batch s is_locked now deadline limit) =
      claim_due_batch-Enters is_locked now deadline limit s.world.db
  Step-Enters (crash s) = unchanged refl

  -- A property of sound databases that every entry keeps holds over a run.
  pub Reach-keeps :
      (K : Database → Type 0)
      → ((before after : Database) → IsSound before → Enters before after → K before → K after)
      → {start s : System P} → Reach provider request_fingerprint start s
      → IsRunning provider request_fingerprint start
      → K start.world.db
      → K s.world.db
  Reach-keeps K keep here h k = k
  Reach-keeps K keep (next {s = t} {t = u} r st) h k =
      keep t.world.db u.world.db (Reach-IsRunning provider request_fingerprint r h).0
        (Step-Enters st) (Reach-keeps K keep r h k)

  pub idle-IsRunning :
      (start : System P)
      → IsSound start.world.db
      → start.tasks ≡ []
      → IsRunning provider request_fingerprint start
  idle-IsRunning start h idle = (h, λ t m. elim (subst (Memᴰ t) idle m) [ ])

  -- `assert_ledger_invariants` passes after every step of a run that starts from a sound database with
  -- no call in progress, whose balances are those of its postings and whose journals are balanced: no
  -- balance is negative, each is the sum of its postings, and each journal is balanced in each currency.
  pub Reach-audit :
      {start s : System P}
      → Reach provider request_fingerprint start s
      → IsSound start.world.db
      → IsAudited start.world.db.accounts start.world.db.postings
      → start.tasks ≡ []
      → assert_ledger_invariants s.world.db ≡ ok tt
  Reach-audit {start} {s} r h a idle =
      let running = idle-IsRunning start h idle in
      audit-passes s.world.db
        (Reach-keeps Audits (λ before after sound e k. Enters-Audits sound e k) r running a)
        (Reach-IsRunning provider request_fingerprint r running).0.backed.ledger.nonneg
