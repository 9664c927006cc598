-- ===== src/Service/Tasks/Views.antt =====
-- app/service.py: the view in which a call ends.
use netaro_settlement_router.Prelude.{
  nat_eq, ℕ, ◌≡◌, refl, sym, ap, subst, String, Bool, true, false, Option, none, some, Memᴰ, arith,
}
use netaro_settlement_router.Table.{lookup-mem}
use netaro_settlement_router.Routing.Types.{RouteQuote}
use netaro_settlement_router.Models.{Settlement, settlement_id_of, idempotency_eq}
use netaro_settlement_router.Schemas.{SettlementCreate, SettlementRead, from_orm_settlement}
use netaro_settlement_router.Database.{Database, Result, ok, Session}
use netaro_settlement_router.Provider.{PayoutProvider}
use netaro_settlement_router.Service.Shown.{Shown, get-Shown, finalize_attempt-Shown, find-Shown}
use netaro_settlement_router.Service.{PayoutClaim, get, find_by_key, finalize_attempt}
use netaro_settlement_router.Service.Tasks.{
  World, Inputs, Task, creating, inserting, resolving, claiming, paying, finalizing, fetching,
  reconciling, reclaiming, looking_up, resubmitting, concluding, recovering, done, step, replay,
  replay_or_claim, start_create, start_insert, after_insert, after_resolve, after_claim,
  after_finalize, after_get, after_lookup, after_conclude, after_recover, raise_or_get,
  new_settlement,
}

replay-reads :
    (s : Settlement) (fingerprint : String) {read : SettlementRead}
    → replay s fingerprint ≡ done (ok read)
    → from_orm_settlement s ≡ read
unfolding replay replay_or_claim
replay-reads s fingerprint h = ground arith

after_finalize-reads :
    (claim : PayoutClaim) (r : Result SettlementRead) {read : SettlementRead}
    → after_finalize claim r ≡ done (ok read)
    → r ≡ ok read
unfolding after_finalize
after_finalize-reads claim r h = ground arith

after_conclude-reads :
    (claim : PayoutClaim) (propagate : Bool) (r : Result SettlementRead) {read : SettlementRead}
    → after_conclude claim propagate r ≡ done (ok read)
    → r ≡ ok read
unfolding after_conclude
after_conclude-reads claim propagate r h = ground arith

after_get-reads :
    (i : ℕ) (r : Result SettlementRead) {read : SettlementRead}
    → after_get i r ≡ done (ok read)
    → r ≡ ok read
unfolding after_get
after_get-reads i r h = ground arith

with_result :
    {A : Type 0} (m : Session A) (db : Database) {a : A} → (m db).0 ≡ ok a → m db ≡ (ok a, (m db).1)
with_result {A} m db h = ap (λ (r : Result A). (r, (m db).1)) h

get-result :
    (i : ℕ) (db : Database) {read : SettlementRead}
    → (get i db).0 ≡ ok read
    → Shown read (get i db).1
get-result i db {read} h =
    let (same, (s, found, view)) = get-Shown i db (with_result (get i) db h) in
    (
      s,
      subst (λ (x : Database). Memᴰ s x.settlements) (sym same)
          (lookup-mem settlement_id_of i db.settlements s found).0,
      view,
    )

resolve-reads :
    (fingerprint : String) (o : Option Settlement) {read : SettlementRead}
    → after_resolve fingerprint o ≡ done (ok read)
    → (s : Settlement) × (o ≡ some s) × (from_orm_settlement s ≡ read)
unfolding after_resolve
resolve-reads fingerprint none h = cc h
resolve-reads fingerprint (some s) h = (s, refl, replay-reads s fingerprint h)

ended : (r : Result SettlementRead) {read : SettlementRead} → done r ≡ done (ok read) → r ≡ ok read
ended r h = ground arith

-- A call that has not ended yet.
abbrev pub is_running : Task → Bool
is_running (done r) = false
is_running _ = true

module _ {P : Type 0} (provider : PayoutProvider P)
    (request_fingerprint : String → SettlementCreate → String) where
  create-reads :
      (inputs : Inputs) (owner_id key : String) (command : SettlementCreate) (o : Option Settlement)
      {read : SettlementRead}
      → start_create provider request_fingerprint inputs owner_id key command o ≡ done (ok read)
      → (s : Settlement) × (o ≡ some s) × (from_orm_settlement s ≡ read)
  unfolding start_create start_insert
  create-reads inputs owner_id key command none {read} h =
      absurd (unquoted (inputs.quote command.target_currency) h)
    where
      unquoted :
          (r : Result RouteQuote)
          → start_insert
              (λ quote.
                new_settlement owner_id key
                  (request_fingerprint owner_id command)
                  command
                  quote
                  inputs.settlement_id)
              r
            ≡ done (ok read)
          → ⊥
      unquoted r h = ground arith
  create-reads inputs owner_id key command (some s) h = (s, refl, replay-reads s _ h)

  pub step-Shown :
      (inputs : Inputs) (t : Task) (w w' : World P) (read : SettlementRead)
      → is_running t ≡ true
      → step provider request_fingerprint inputs t w ≡ (done (ok read), w')
      → Shown read w'.db
  unfolding step after_insert after_claim after_lookup after_recover raise_or_get
  step-Shown inputs t w w' read h e =
      subst (λ (x : World P). Shown read x.db) (ap (λ (q : Task × World P). q.1) e)
        (by_task t h (ap (λ (q : Task × World P). q.0) e))
    where
      by_task :
          (t : Task)
          → is_running t ≡ true
          → (step provider request_fingerprint inputs t w).0 ≡ done (ok read)
          → Shown read (step provider request_fingerprint inputs t w).1.db
      by_task (creating o k c) h e =
          let (s, found, view) = create-reads inputs o k c (find_by_key o k w.db) e in
          (s, find-Shown o k w.db s found, view)
      by_task (resolving q) h e =
          let (s, found, view) =
            resolve-reads q.request_fingerprint (find_by_key q.owner_id q.idempotency_key w.db) e in
          (s, find-Shown q.owner_id q.idempotency_key w.db s found, view)
      by_task (finalizing claim result) h e =
          finalize_attempt-Shown claim.settlement.id claim.attempt_token result inputs.journal_id
            inputs.now w.db
            (with_result
              (finalize_attempt claim.settlement.id claim.attempt_token result inputs.journal_id
                inputs.now)
              w.db (after_finalize-reads claim _ e))
      by_task (concluding claim result p) h e =
          finalize_attempt-Shown claim.settlement.id claim.attempt_token result inputs.journal_id
            inputs.now w.db
            (with_result
              (finalize_attempt claim.settlement.id claim.attempt_token result inputs.journal_id
                inputs.now)
              w.db (after_conclude-reads claim p _ e))
      by_task (fetching i) h e = get-result i w.db (ended _ e)
      by_task (reconciling i) h e = get-result i w.db (after_get-reads i _ e)
      by_task (done r) h e = cc h
      by_task (inserting s) h e = absurd (ground arith)
      by_task (claiming i) h e = absurd (ground arith)
      by_task (reclaiming i) h e = absurd (ground arith)
      by_task (looking_up claim p) h e = absurd (ground arith)
      by_task (recovering claim f p) h e = absurd (ground arith)
      by_task (paying claim) h e = absurd (ground arith)
      by_task (resubmitting claim p) h e = absurd (ground arith)
