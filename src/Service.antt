-- ===== src/Service.antt =====
-- app/service.py: the database transactions of `SettlementService`, each an action of its own. A
-- call of the service awaits between them; Service/Tasks has those calls.
pub mod Backing
pub mod Recording
pub mod Submission
pub mod Due
pub mod Soundness
pub mod Settling
pub mod Claiming
pub mod Leases
pub mod Lifecycle
pub mod Entries
pub mod Shown
pub mod Tasks
use netaro_settlement_router.Prelude.{
  nat_eq, ℕ, ◌+◌, String, Bool, true, false, ◌&&◌, ◌||◌, not, Option, none, some, List, [], ◌∷◌,
  ◌++◌, str_eq, ◌==◌, ltb, leb, if◌then◌else◌, exists, select, take,
}
use netaro_settlement_router.Table.{lookup, replace}
use netaro_settlement_router.Models.{
  Settlement, SettlementStatus, payout_in_progress, success, failed, pending_reconciliation,
  PayoutAttempt, AttemptState, submitting, reconciling, claimed, completed, idempotency_of,
  idempotency_eq, settlement_id_of, attempt_id_of, is_open, in_flight, is_reserved,
}
use netaro_settlement_router.Schemas.{SettlementRead, from_orm_settlement}
use netaro_settlement_router.Database.{
  Database, Constraint, owner_idempotency_key, primary_key, check, unique_operation, Error,
  settlement_not_found, stale_attempt_token, idempotency_conflict, numeric_overflow, integrity,
  Result, ok, err, Session, pure, raise, reads, lift, or_raise, writes, raise_if, transaction,
  ◌>>=◌, ◌>>◌, numeric_24, numeric_32, integer_32,
}
use netaro_settlement_router.Ledger.{reserve, consume, release}
use netaro_settlement_router.Provider.{
  ProviderResult, ProviderLookup, ambiguous, unknown, result_value, lookup_value,
}

pub record PayoutClaim : Type 0 where
  pub settlement : SettlementRead
  pub attempt_token : ℕ

-- `SettlementService.get`
unfoldable pub get : ℕ → Session SettlementRead
get settlement_id = do
  settlement ←
      reads
        (λ db. or_raise (lookup settlement_id_of settlement_id db.settlements) settlement_not_found)
  pure (from_orm_settlement settlement)

-- `_find_by_key`
unfoldable pub find_by_key : String → String → Database → Option Settlement
find_by_key owner_id idempotency_key db =
    lookup idempotency_of (owner_id, idempotency_key) db.settlements

-- `_check_fingerprint`
abbrev pub check_fingerprint : Settlement → String → Result (Unit {0})
check_fingerprint settlement fingerprint =
    if str_eq settlement.request_fingerprint fingerprint then ok tt else err idempotency_conflict

-- `session.add(settlement)` and the flush: the columns' ranges, the CHECK constraints, then the
-- primary key and UNIQUE (owner_id, idempotency_key).
unfoldable pub insert_settlement : Settlement → Session (Unit {0})
insert_settlement s db =
    (raise_if
          (leb numeric_24 s.amount_usd
            || (leb numeric_24 s.aggregate_rate
                || (leb numeric_32 s.quoted_amount || leb integer_32 s.snapshot_version)))
          numeric_overflow
        >> raise_if (s.amount_usd == 0 || (s.aggregate_rate == 0 || s.quoted_amount == 0))
            (integrity check)
        >> raise_if (not (s.provider_operation_id == s.id)) (integrity check)
        >> raise_if (exists (λ q. q.id == s.id) db.settlements) (integrity primary_key)
        >> raise_if
            (exists (λ q. idempotency_eq.beq (idempotency_of q) (idempotency_of s)) db.settlements)
            (integrity owner_idempotency_key)
        >> writes (λ d. record d { settlements = d.settlements ++ s ∷ [] }))
      db

-- The transaction of `create`: the settlement and its reservation, or neither.
unfoldable pub insert_and_reserve : Settlement → ℕ → Session (Unit {0})
insert_and_reserve settlement journal_id = do
  insert_settlement settlement
  reserve settlement journal_id

unfoldable pub create_reserved : Settlement → ℕ → Session (Unit {0})
create_reserved settlement journal_id = transaction (insert_and_reserve settlement journal_id)

abbrev pub set_status : Settlement → SettlementStatus → Database → Database
set_status s status db = record db {
  settlements = replace settlement_id_of (record s { status = status }) db.settlements;
}

-- INSERT INTO payout_attempts
unfoldable pub insert_attempt : PayoutAttempt → Session (Unit {0})
insert_attempt attempt db =
    (raise_if (exists (λ a. a.settlement_id == attempt.settlement_id) db.attempts)
          (integrity primary_key)
        >> raise_if (exists (λ a. a.operation_id == attempt.operation_id) db.attempts)
            (integrity unique_operation)
        >> writes (λ d. record d { attempts = d.attempts ++ attempt ∷ [] }))
      db

abbrev pub update_attempt : PayoutAttempt → Session (Unit {0})
update_attempt attempt =
    writes (λ d. record d { attempts = replace attempt_id_of attempt d.attempts })

-- SELECT ... WHERE id = ... FOR UPDATE
abbrev pub locked_settlement : ℕ → Database → Result Settlement
locked_settlement settlement_id db =
    or_raise (lookup settlement_id_of settlement_id db.settlements) settlement_not_found

abbrev pub claim_of : Settlement → ℕ → PayoutClaim
claim_of s token = record { settlement = from_orm_settlement s; attempt_token = token }

-- `_claim_reserved`; the lease ends at `deadline`, which is `_lease_deadline()`.
unfoldable pub submit_reserved : Settlement → ℕ → Session (Option PayoutClaim)
submit_reserved s deadline = do
  writes (set_status s payout_in_progress)
  insert_attempt (record {
    settlement_id = s.id;
    operation_id = s.provider_operation_id;
    state = submitting;
    attempt_token = 1;
    lease_expires_at = deadline;
    last_outcome = none;
  })
  pure (some (claim_of (record s { status = payout_in_progress }) 1))

unfoldable pub claim_reserved_locked : ℕ → ℕ → Session (Option PayoutClaim)
claim_reserved_locked settlement_id deadline = do
  settlement ← reads (locked_settlement settlement_id)
  if is_reserved settlement.status then submit_reserved settlement deadline else pure none

unfoldable pub claim_reserved : ℕ → ℕ → Session (Option PayoutClaim)
claim_reserved settlement_id deadline = transaction (claim_reserved_locked settlement_id deadline)

abbrev pub is_claimed : AttemptState → Bool
is_claimed claimed = true
is_claimed _ = false

-- The next claim on an attempt: a new token, and a new lease.
abbrev pub reclaimed : PayoutAttempt → ℕ → PayoutAttempt
reclaimed attempt deadline = record attempt {
  attempt_token = attempt.attempt_token + 1;
  state = claimed;
  lease_expires_at = deadline;
}

unfoldable pub claim_attempt :
    Settlement → Option PayoutAttempt → Bool → ℕ → ℕ → Session (Option PayoutClaim)
claim_attempt s none respect_schedule now deadline = do
  insert_attempt (record {
    settlement_id = s.id;
    operation_id = s.provider_operation_id;
    state = claimed;
    attempt_token = 1;
    lease_expires_at = deadline;
    last_outcome = none;
  })
  pure (some (claim_of s 1))
claim_attempt s (some attempt) respect_schedule now deadline =
    if is_claimed attempt.state && ltb now attempt.lease_expires_at
    then pure none
    else if respect_schedule && ltb now attempt.lease_expires_at
    then pure none
    else (do
      update_attempt (reclaimed attempt deadline)
      pure (some (claim_of s (attempt.attempt_token + 1))))

-- `_claim_for_reconciliation`. A missing attempt is added with the state and the lease that the
-- end of the block gives it. The attempt is read before the status is tested, on which no result
-- depends.
unfoldable pub claim_locked : ℕ → Bool → ℕ → ℕ → Session (Option PayoutClaim)
claim_locked settlement_id respect_schedule now deadline = do
  settlement ← reads (locked_settlement settlement_id)
  attempt ← reads (λ db. ok (lookup attempt_id_of settlement_id db.attempts))
  if in_flight settlement.status
      then claim_attempt settlement attempt respect_schedule now deadline
      else pure none

unfoldable pub claim_for_reconciliation : ℕ → Bool → ℕ → ℕ → Session (Option PayoutClaim)
claim_for_reconciliation settlement_id respect_schedule now deadline =
    transaction (claim_locked settlement_id respect_schedule now deadline)

abbrev finished : Settlement → PayoutAttempt → SettlementStatus → String → Session SettlementRead
finished s attempt status outcome = do
  writes (set_status s status)
  update_attempt (record attempt { state = completed; last_outcome = some outcome })
  pure (from_orm_settlement (record s { status = status }))

abbrev left_pending : Settlement → PayoutAttempt → String → ℕ → Session SettlementRead
left_pending s attempt outcome now = do
  writes (set_status s pending_reconciliation)
  update_attempt
      (record attempt { state = reconciling; last_outcome = some outcome; lease_expires_at = now })
  pure (from_orm_settlement (record s { status = pending_reconciliation }))

abbrev outcome_of : Option ProviderResult → String
outcome_of (some ambiguous) = result_value ambiguous
outcome_of _ = lookup_value unknown

-- The branches of `_finalize_attempt` on the result; `now` is read when the result is unknown.
unfoldable pub apply_result :
    Settlement → PayoutAttempt → Option ProviderResult → ℕ → ℕ → Session SettlementRead
apply_result s attempt (some ProviderResult.paid) journal_id now = do
  consume s journal_id
  finished s attempt success (lookup_value ProviderLookup.paid)
apply_result s attempt (some ProviderResult.unpaid) journal_id now = do
  release s journal_id
  finished s attempt failed (lookup_value ProviderLookup.unpaid)
apply_result s attempt result journal_id now = left_pending s attempt (outcome_of result) now

-- `_finalize_attempt`, and the block of its transaction.
unfoldable pub finalize_locked : ℕ → ℕ → Option ProviderResult → ℕ → ℕ → Session SettlementRead
finalize_locked settlement_id attempt_token result journal_id now = do
  settlement ← reads (locked_settlement settlement_id)
  attempt ←
      reads (λ db. or_raise (lookup attempt_id_of settlement_id db.attempts) settlement_not_found)
  raise_if (not (attempt.attempt_token == attempt_token)) stale_attempt_token
  if is_open settlement.status
      then apply_result settlement attempt result journal_id now
      else pure (from_orm_settlement settlement)

unfoldable pub finalize_attempt : ℕ → ℕ → Option ProviderResult → ℕ → ℕ → Session SettlementRead
finalize_attempt settlement_id attempt_token result journal_id now =
    transaction (finalize_locked settlement_id attempt_token result journal_id now)

-- The join of the two tables: an attempt's primary key is its settlement.
abbrev pub join_row :
    Settlement
    → Option PayoutAttempt
    → List (Settlement × PayoutAttempt)
    → List (Settlement × PayoutAttempt)
join_row s none rows = rows
join_row s (some a) rows = (s, a) ∷ rows

abbrev pub joined : Database → List Settlement → List (Settlement × PayoutAttempt)
joined db [] = []
joined db (s ∷ rest) = join_row s (lookup attempt_id_of s.id db.attempts) (joined db rest)

abbrev is_waiting : AttemptState → Bool
is_waiting submitting = true
is_waiting reconciling = true
is_waiting _ = false

-- WHERE, and SKIP LOCKED: rows that another transaction has locked are passed over.
abbrev pub is_due : (ℕ → Bool) → ℕ → Settlement × PayoutAttempt → Bool
is_due is_locked now (s, a) =
    in_flight s.status
    && (leb a.lease_expires_at now && (is_waiting a.state && not (is_locked s.id)))

abbrev comes_first : Settlement × PayoutAttempt → Settlement × PayoutAttempt → Bool
comes_first (s, a) (t, b) =
    ltb a.lease_expires_at b.lease_expires_at
    || (a.lease_expires_at == b.lease_expires_at && leb s.id t.id)

-- ORDER BY lease_expires_at, id
unfoldable pub insert_due :
    Settlement × PayoutAttempt
    → List (Settlement × PayoutAttempt)
    → List (Settlement × PayoutAttempt)
insert_due row [] = row ∷ []
insert_due row (other ∷ rows) =
    let rest = insert_due row rows in
    if comes_first row other then row ∷ other ∷ rows else other ∷ rest

unfoldable pub order_due : List (Settlement × PayoutAttempt) → List (Settlement × PayoutAttempt)
unfolding insert_due
order_due [] = []
order_due (row ∷ rows) = insert_due row (order_due rows)

unfoldable pub due_rows : (ℕ → Bool) → ℕ → ℕ → Database → List (Settlement × PayoutAttempt)
unfolding order_due
due_rows is_locked now limit db =
    take limit (order_due (select (is_due is_locked now) (joined db db.settlements)))

-- The loop over the rows; `deadline` gives the lease that is computed for each settlement.
unfoldable pub claim_rows : (ℕ → ℕ) → List (Settlement × PayoutAttempt) → Session (List PayoutClaim)
claim_rows deadline [] = pure []
claim_rows deadline ((s, a) ∷ rows) = do
  update_attempt (reclaimed a (deadline s.id))
  claims ← claim_rows deadline rows
  pure (claim_of s (a.attempt_token + 1) ∷ claims)

-- `_claim_due_batch`
unfoldable pub claim_due_rows : (ℕ → Bool) → ℕ → (ℕ → ℕ) → ℕ → Session (List PayoutClaim)
claim_due_rows is_locked now deadline limit = do
  rows ← reads (λ db. ok (due_rows is_locked now limit db))
  claim_rows deadline rows

unfoldable pub claim_due_batch : (ℕ → Bool) → ℕ → (ℕ → ℕ) → ℕ → Session (List PayoutClaim)
claim_due_batch is_locked now deadline limit =
    transaction (claim_due_rows is_locked now deadline limit)
