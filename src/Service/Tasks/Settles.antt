-- ===== src/Service/Tasks/Settles.antt =====
-- app/service.py: a call of `reconcile`, run to its end without interruption.
use netaro_settlement_router.Prelude.{
  nat_eq, ℕ, ◌+◌, String, ◌≡◌, sym, ap, ◌∙◌, subst, Bool, true, false, ◌&&◌, Option, some, Memᴰ,
  arith, ltb, exists, ◌==◌,
}
use netaro_settlement_router.Table.{lookup, replace, lookup-mem, lookup_of_mem}
use netaro_settlement_router.Table.Updates.{lookup-replace_self}
use netaro_settlement_router.Models.{
  Settlement, SettlementStatus, success, failed, PayoutAttempt, settlement_id_of, attempt_id_of,
  in_flight, is_open,
}
use netaro_settlement_router.Schemas.{SettlementCreate, from_orm_settlement}
use netaro_settlement_router.Database.{Database, Result, ok, ◌>>=◌}
use netaro_settlement_router.Provider.{PayoutProvider, ProviderResult, ProviderLookup}
use netaro_settlement_router.Service.{
  PayoutClaim, claim_of, is_claimed, reclaimed, get, claim_attempt, claim_locked,
  claim_for_reconciliation,
}
use netaro_settlement_router.Service.Submission.{attempt_for}
use netaro_settlement_router.Service.Soundness.{IsSound, claim_for_reconciliation-IsSound}
use netaro_settlement_router.Service.Settling.{finalize_attempt-concludes}
use netaro_settlement_router.Service.Tasks.{
  World, Inputs, Task, reconciling, reclaiming, looking_up, concluding, done, step, after_get,
  after_claim, after_lookup, after_conclude,
}

-- The tables after the claim.
abbrev taken_db : Settlement → PayoutAttempt → ℕ → Database → Database
taken_db s a deadline db = record db {
  attempts = replace attempt_id_of (reclaimed a deadline) db.attempts;
}

module _ (db : Database) (s : Settlement) (a : PayoutAttempt)
    (found : lookup settlement_id_of s.id db.settlements ≡ some s)
    (attempted : attempt_for s.id db.attempts ≡ some a) (flies : in_flight s.status ≡ true) where
  gets : get s.id db ≡ (ok (from_orm_settlement s), db)
  unfolding get ◌>>=◌
  gets = rw found

  claims :
      (now deadline : ℕ)
      → (is_claimed a.state && ltb now a.lease_expires_at) ≡ false
      → claim_for_reconciliation s.id false now deadline db
        ≡ (ok (some (claim_of s (a.attempt_token + 1))), taken_db s a deadline db)
  unfolding claim_for_reconciliation claim_locked claim_attempt ◌>>=◌
  claims now deadline free = rw found (rw attempted (rw flies (rw free)))

  still_attempted :
      (deadline : ℕ)
      → attempt_for s.id (taken_db s a deadline db).attempts ≡ some (reclaimed a deadline)
  still_attempted deadline =
      let (_, same) = lookup-mem attempt_id_of s.id db.attempts a attempted in
      ap (λ k. attempt_for k (taken_db s a deadline db).attempts) (sym same)
      ∙ lookup-replace_self attempt_id_of (reclaimed a deadline) db.attempts {old = a}
          (ap (λ k. attempt_for k db.attempts) same ∙ attempted)

  taken-IsSound :
      (now deadline : ℕ)
      → (is_claimed a.state && ltb now a.lease_expires_at) ≡ false
      → IsSound db
      → IsSound (taken_db s a deadline db)
  taken-IsSound now deadline free h =
      subst IsSound
        (ap (λ (q : Result (Option PayoutClaim) × Database). q.1) (claims now deadline free))
        (claim_for_reconciliation-IsSound s.id false now deadline db h)

flight-open : (st : SettlementStatus) → in_flight st ≡ true → is_open st ≡ true
flight-open st h = ground arith

-- What an authoritative answer of a lookup is taken for.
abbrev pub answer_of : Bool → ProviderLookup
answer_of true = ProviderLookup.paid
answer_of false = ProviderLookup.unpaid

abbrev result_of : Bool → ProviderResult
result_of true = ProviderResult.paid
result_of false = ProviderResult.unpaid

abbrev pub settled_status : Bool → SettlementStatus
settled_status true = success
settled_status false = failed

module _ {P : Type 0} (provider : PayoutProvider P)
    (request_fingerprint : String → SettlementCreate → String) where
  abbrev pub steps : Inputs → Task × World P → Task × World P
  steps inputs (t, w) = step provider request_fingerprint inputs t w

  concludes :
      (db : Database) (p : P) (s : Settlement) (a : PayoutAttempt) (paid : Bool) (deadline : ℕ)
      (fourth : Inputs)
      → IsSound (taken_db s a deadline db)
      → Memᴰ s db.settlements
      → attempt_for s.id (taken_db s a deadline db).attempts ≡ some (reclaimed a deadline)
      → in_flight s.status ≡ true
      → exists (λ k. k.id == fourth.journal_id) db.journals ≡ false
      → (steps fourth (
        concluding (claim_of s (a.attempt_token + 1)) (some (result_of paid)) true,
        record { db = taken_db s a deadline db; provider = p },
      )).0
        ≡ done (ok (from_orm_settlement (record s { status = settled_status paid })))
  unfolding step after_conclude
  concludes db p s a true deadline fourth sound m attempted flies fresh =
      ap (after_conclude (claim_of s (a.attempt_token + 1)) true) (
        finalize_attempt-concludes (taken_db s a deadline db) s (reclaimed a deadline)
          (some ProviderResult.paid) fourth.journal_id fourth.now sound m attempted
          (flight-open s.status flies) fresh)
  concludes db p s a false deadline fourth sound m attempted flies fresh =
      ap (after_conclude (claim_of s (a.attempt_token + 1)) true) (
        finalize_attempt-concludes (taken_db s a deadline db) s (reclaimed a deadline)
          (some ProviderResult.unpaid) fourth.journal_id fourth.now sound m attempted
          (flight-open s.status flies) fresh)

  starts :
      (first : Inputs) (w : World P) (s : Settlement) (a : PayoutAttempt)
      → lookup settlement_id_of s.id w.db.settlements ≡ some s
      → attempt_for s.id w.db.attempts ≡ some a
      → in_flight s.status ≡ true
      → steps first (reconciling s.id, w) ≡ (reclaiming s.id, w)
  unfolding step after_get
  starts first w s a found attempted flies = rw (gets w.db s a found attempted flies) (rw flies)

  takes :
      (second : Inputs) (w : World P) (s : Settlement) (a : PayoutAttempt)
      → lookup settlement_id_of s.id w.db.settlements ≡ some s
      → attempt_for s.id w.db.attempts ≡ some a
      → in_flight s.status ≡ true
      → (is_claimed a.state && ltb second.now a.lease_expires_at) ≡ false
      → steps second (reclaiming s.id, w) ≡ (
        looking_up (claim_of s (a.attempt_token + 1)) true,
        record w { db = taken_db s a second.deadline w.db },
      )
  unfolding step after_claim
  takes second w s a found attempted flies free =
      rw (claims w.db s a found attempted flies second.now second.deadline free)

  looks_up :
      (third : Inputs) (claim : PayoutClaim) (paid : Bool) (db : Database) (p p' : P)
      → provider.lookup claim.settlement.id p ≡ (ok (answer_of paid), p')
      → steps third (looking_up claim true, record { db = db; provider = p })
        ≡ (concluding claim (some (result_of paid)) true, record { db = db; provider = p' })
  unfolding step after_lookup
  looks_up third claim true db p p' h = rw h
  looks_up third claim false db p p' h = rw h

  -- `reconcile` settles: in a sound database, for a settlement in flight whose attempt is not held by
  -- another claim's lease, with a provider whose lookup answers PAID or UNPAID and an id that no
  -- journal has, the call's four steps end in the view of the settlement as SUCCESS or FAILED.
  pub reconcile-settles :
      (first second third fourth : Inputs) (w : World P) (p' : P) (s : Settlement)
      (a : PayoutAttempt) (paid : Bool)
      → IsSound w.db
      → Memᴰ s w.db.settlements
      → attempt_for s.id w.db.attempts ≡ some a
      → in_flight s.status ≡ true
      → (is_claimed a.state && ltb second.now a.lease_expires_at) ≡ false
      → provider.lookup s.id w.provider ≡ (ok (answer_of paid), p')
      → exists (λ k. k.id == fourth.journal_id) w.db.journals ≡ false
      → (steps fourth (steps third (steps second (steps first (reconciling s.id, w))))).0
        ≡ done (ok (from_orm_settlement (record s { status = settled_status paid })))
  reconcile-settles first second third fourth w p' s a paid h m attempted flies free answers fresh =
      let found = lookup_of_mem settlement_id_of w.db.settlements h.backed.settlement_ids m in
      ap (λ at. (steps fourth (steps third (steps second at))).0)
        (starts first w s a found attempted flies)
      ∙ ap (λ at. (steps fourth (steps third at)).0) (takes second w s a found attempted flies free)
      ∙ ap (λ at. (steps fourth at).0)
          (looks_up third (claim_of s (a.attempt_token + 1)) paid _ w.provider p' answers)
      ∙ concludes w.db p' s a paid second.deadline fourth
          (taken-IsSound w.db s a found attempted flies second.now second.deadline free h) m
          (still_attempted w.db s a found attempted flies second.deadline) flies fresh
