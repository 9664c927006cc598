-- ===== src/Service/Tasks/History.antt =====
-- app/service.py: what becomes of a settlement over a run of the system.
use netaro_settlement_router.Prelude.{String, ◌≡◌, sym, ap, ◌∙◌, subst, false, none, [], Memᴰ}
use netaro_settlement_router.Models.{Settlement, is_open}
use netaro_settlement_router.Schemas.{SettlementCreate}
use netaro_settlement_router.Provider.{PayoutProvider}
use netaro_settlement_router.Service.Soundness.{IsSound}
use netaro_settlement_router.Service.Lifecycle.{
  Becomes, closed-stays, Evolves, Evolves-refl, Evolves-trans, claim_reserved-Evolves,
  claim_for_reconciliation-Evolves, claim_due_batch-Evolves,
}
use netaro_settlement_router.Service.Lifecycle.Results.{
  finalize_attempt-Evolves, create_reserved-Evolves,
}
use netaro_settlement_router.Service.Tasks.{
  World, Inputs, Task, inserting, claiming, finalizing, fetching, reconciling, reclaiming,
  concluding, recovering, step,
}
use netaro_settlement_router.Service.Tasks.System.{
  System, Step, create, read, reconcile, run, batch, crash, Reach, here, next, IsRunning,
  Reach-IsRunning, get-db,
}

module _ {P : Type 0} (provider : PayoutProvider P)
    (request_fingerprint : String → SettlementCreate → String) where
  step-Evolves :
      (inputs : Inputs) (t : Task) (w : World P)
      → IsSound w.db
      → Evolves w.db (step provider request_fingerprint inputs t w).1.db
  unfolding step
  step-Evolves inputs (inserting s) w h = create_reserved-Evolves s inputs.journal_id w.db
  step-Evolves inputs (claiming i) w h = claim_reserved-Evolves i inputs.deadline w.db h
  step-Evolves inputs (finalizing claim result) w h =
      finalize_attempt-Evolves claim.settlement.id claim.attempt_token result inputs.journal_id
        inputs.now w.db h
  step-Evolves inputs (concluding claim result p) w h =
      finalize_attempt-Evolves claim.settlement.id claim.attempt_token result inputs.journal_id
        inputs.now w.db h
  step-Evolves inputs (recovering claim e p) w h =
      finalize_attempt-Evolves claim.settlement.id claim.attempt_token none inputs.journal_id
        inputs.now w.db h
  step-Evolves inputs (reclaiming i) w h =
      claim_for_reconciliation-Evolves i false inputs.now inputs.deadline w.db
  step-Evolves inputs (fetching i) w h = rw (get-db i w.db) (Evolves-refl w.db)
  step-Evolves inputs (reconciling i) w h = rw (get-db i w.db) (Evolves-refl w.db)
  step-Evolves inputs _ w h = Evolves-refl w.db

  Step-Evolves :
      {s t : System P}
      → Step provider request_fingerprint s t
      → IsSound s.world.db
      → Evolves s.world.db t.world.db
  Step-Evolves (create s o k c) h = Evolves-refl s.world.db
  Step-Evolves (read s i) h = Evolves-refl s.world.db
  Step-Evolves (reconcile s i) h = Evolves-refl s.world.db
  Step-Evolves (run w before after t inputs) h = step-Evolves inputs t w h
  Step-Evolves (batch s is_locked now deadline limit) h =
      claim_due_batch-Evolves is_locked now deadline limit s.world.db
  Step-Evolves (crash s) h = Evolves-refl s.world.db

  Reach-Evolves :
      {mid last : System P}
      → Reach provider request_fingerprint mid last
      → IsRunning provider request_fingerprint mid
      → Evolves mid.world.db last.world.db
  Reach-Evolves {mid} here h = Evolves-refl mid.world.db
  Reach-Evolves {mid} {last} (next {s} r st) h =
      Evolves-trans mid.world.db s.world.db last.world.db (Reach-Evolves r h)
        (Step-Evolves st (Reach-IsRunning provider request_fingerprint r h).0)

  -- From a sound database with no call in progress: a settlement that is there at any time of a run is
  -- there at all later times, with the same owner, key, amount, route, rate, quote and operation, and
  -- its status has changed along the arrows of the state machine only.
  pub Reach-history :
      {start mid last : System P}
      → Reach provider request_fingerprint start mid
      → Reach provider request_fingerprint mid last
      → IsSound start.world.db
      → start.tasks ≡ []
      → (s : Settlement) → Memᴰ s mid.world.db.settlements
      → (t : Settlement) × Memᴰ t last.world.db.settlements
        × (t ≡ record s { status = t.status })
        × Becomes s.status t.status
  Reach-history before after h idle s m =
      Reach-Evolves after
        (Reach-IsRunning provider request_fingerprint before
          (h, λ t n. elim (subst (Memᴰ t) idle n) [ ]))
        s m

  -- From a sound database with no call in progress: once a settlement is SUCCESS or FAILED at any time
  -- of a run, its row is the same at all later times.
  pub Reach-closed :
      {start mid last : System P}
      → Reach provider request_fingerprint start mid
      → Reach provider request_fingerprint mid last
      → IsSound start.world.db
      → start.tasks ≡ []
      → (s : Settlement) → Memᴰ s mid.world.db.settlements
      → is_open s.status ≡ false
      → Memᴰ s last.world.db.settlements
  Reach-closed {last} before after h idle s m closed =
      let (t, there, same, along) = Reach-history before after h idle s m in
      subst (λ (q : Settlement). Memᴰ q last.world.db.settlements)
        (same ∙ ap (λ st. record s { status = st }) (sym (closed-stays along closed))) there
