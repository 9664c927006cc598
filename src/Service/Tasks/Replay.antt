-- ===== src/Service/Tasks/Replay.antt =====
-- app/service.py: requests that repeat an idempotency key.
use netaro_settlement_router.Prelude.{
  nat_eq, ℕ, ◌<◌, String, ◌≡◌, sym, ap, Bool, true, false, some, arith, not, ◌||◌, if◌then◌else◌,
  leb, ==_iff, exists, ◌==◌, str_eq, exists-of_mem,
}
use netaro_settlement_router.Table.{lookup-mem}
use netaro_settlement_router.Models.{Settlement, is_reserved, idempotency_of, idempotency_eq}
use netaro_settlement_router.Schemas.{SettlementCreate, from_orm_settlement}
use netaro_settlement_router.Database.{
  Database, ok, err, idempotency_conflict, integrity, owner_idempotency_key, ◌>>=◌, numeric_24,
  integer_32, numeric_32,
}
use netaro_settlement_router.Provider.{PayoutProvider}
use netaro_settlement_router.Service.{
  find_by_key, create_reserved, insert_and_reserve, insert_settlement,
}
use netaro_settlement_router.Service.Tasks.{
  World, Inputs, Task, creating, inserting, resolving, claiming, done, step, start_create,
  after_insert, after_resolve, replay, replay_or_claim,
}

-- A row that its columns and its own CHECK constraints admit.
pub record IsInsertable (s : Settlement) : Type 0 where
  pub amount : (0 < s.amount_usd) × (s.amount_usd < numeric_24)
  pub rate : (0 < s.aggregate_rate) × (s.aggregate_rate < numeric_24)
  pub quoted : (0 < s.quoted_amount) × (s.quoted_amount < numeric_32)
  pub version : s.snapshot_version < integer_32
  pub operation : s.provider_operation_id ≡ s.id

taken_key :
    (db : Database) (s winner : Settlement)
    → find_by_key s.owner_id s.idempotency_key db ≡ some winner
    → exists (λ q. idempotency_eq.beq (idempotency_of q) (idempotency_of s)) db.settlements ≡ true
unfolding find_by_key
taken_key db s winner found =
    let (m, same) =
      lookup-mem idempotency_of (s.owner_id, s.idempotency_key) db.settlements winner found in
    exists-of_mem (λ (q : Settlement). idempotency_eq.beq (idempotency_of q) (idempotency_of s))
      db.settlements m ((idempotency_eq.beq_iff (idempotency_of winner) (idempotency_of s)).1 same)

insert_refused :
    (s : Settlement) (jid : ℕ) (db : Database)
    → IsInsertable s
    → exists (λ q. q.id == s.id) db.settlements ≡ false
    → exists (λ q. idempotency_eq.beq (idempotency_of q) (idempotency_of s)) db.settlements ≡ true
    → create_reserved s jid db ≡ (err (integrity owner_idempotency_key), db)
unfolding create_reserved insert_and_reserve insert_settlement ◌>>=◌
insert_refused s jid db fits fresh taken =
    let in_range =
      in_columns (below fits.amount.1) (below fits.rate.1) (below fits.quoted.1)
        (below fits.version) in
    let positive = none_of (nonzero fits.amount.0) (nonzero fits.rate.0) (nonzero fits.quoted.0) in
    let operation : not (s.provider_operation_id == s.id) ≡ false =
      ap not ((==_iff s.provider_operation_id s.id).1 fits.operation) in
    rw in_range (rw positive (rw operation (rw fresh (rw taken))))
  where
    in_columns :
        {a b c d : Bool}
        → a ≡ false
        → b ≡ false
        → c ≡ false
        → d ≡ false
        → (a || (b || (c || d))) ≡ false
    in_columns p q r v = ground (arith, p, q, r, v)

    none_of : {a b c : Bool} → a ≡ false → b ≡ false → c ≡ false → (a || (b || c)) ≡ false
    none_of p q r = ground (arith, p, q, r)

    below : {n m : ℕ} → n < m → leb m n ≡ false
    below h = ground arith

    nonzero : {n : ℕ} → 0 < n → (n == 0) ≡ false
    nonzero h = ground arith

-- What a request with a fingerprint gets from the settlement that bears its key.
abbrev pub reply : Settlement → String → Task
reply winner fingerprint =
    if str_eq winner.request_fingerprint fingerprint
    then (if is_reserved winner.status
        then claiming winner.id
        else done (ok (from_orm_settlement winner)))
    else done (err idempotency_conflict)

replay-eq-reply :
    (winner : Settlement) (fingerprint : String)
    → replay winner fingerprint ≡ reply winner fingerprint
unfolding replay replay_or_claim
replay-eq-reply winner fingerprint = ground arith

module _ {P : Type 0} (provider : PayoutProvider P)
    (request_fingerprint : String → SettlementCreate → String) where
  -- `create` of a key that a settlement bears creates nothing, whether the key was there when the
  -- request arrived, or another request has taken it just before the insertion: then the transaction is
  -- rolled back and the winner's row is loaded. Either way another fingerprint ends in
  -- IdempotencyConflict, the same fingerprint in the view of the settlement, and one that is still
  -- RESERVED is taken on to its claim.
  pub repeated_key :
      (inputs later : Inputs) (s winner : Settlement) (command : SettlementCreate) (w : World P)
      → find_by_key s.owner_id s.idempotency_key w.db ≡ some winner
      → s.request_fingerprint ≡ request_fingerprint s.owner_id command
      → IsInsertable s
      → exists (λ q. q.id == s.id) w.db.settlements ≡ false
      → (step provider request_fingerprint inputs (creating s.owner_id s.idempotency_key command) w
          ≡ (reply winner s.request_fingerprint, w))
        × (step provider request_fingerprint inputs (inserting s) w ≡ (resolving s, w))
        × (step provider request_fingerprint later (resolving s) w
            ≡ (reply winner s.request_fingerprint, w))
  unfolding step start_create after_insert after_resolve
  repeated_key inputs later s winner command w found print fits fresh = (
    rw found (rw (sym print) (rw (replay-eq-reply winner s.request_fingerprint))),
    rw (insert_refused s inputs.journal_id w.db fits fresh (taken_key w.db s winner found)),
    rw found (rw (replay-eq-reply winner s.request_fingerprint)),
  )
