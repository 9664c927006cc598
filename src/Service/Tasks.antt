-- ===== src/Service/Tasks.antt =====
-- app/service.py: the calls of `SettlementService` as tasks. A task is a call at one of its awaits;
-- a step runs it to the next one: a database transaction, or a call of the provider. Between two
-- steps other tasks run, so the tables that a step finds may be any that they left.
pub mod System
pub mod History
pub mod Replay
pub mod Audits
pub mod Settles
pub mod Views
pub mod Errors
use netaro_settlement_router.Prelude.{
  nat_eq, ℕ, String, Bool, true, false, Option, none, some, List, map, if◌then◌else◌,
}
use netaro_settlement_router.Decimal.{mul, of_units, to_units, default_prec}
use netaro_settlement_router.Routing.Types.{Currency, RouteQuote}
use netaro_settlement_router.Models.{Settlement, SettlementStatus, in_flight, is_reserved}
use netaro_settlement_router.Schemas.{SettlementCreate, SettlementRead, from_orm_settlement}
use netaro_settlement_router.Database.{
  Database, Constraint, owner_idempotency_key, Error, stale_attempt_token, assertion_failed,
  integrity, Result, ok, err, Exec, Session,
}
use netaro_settlement_router.Provider.{
  PayoutProvider, ProviderResult, ProviderLookup, unknown, not_found, processing, unavailable,
}
use netaro_settlement_router.Service.{
  PayoutClaim, get, find_by_key, check_fingerprint, create_reserved, claim_reserved,
  claim_for_reconciliation, finalize_attempt,
}

pub record World (P : Type 0) : Type 0 where
  pub db : Database
  pub provider : P

-- What a step takes from outside: two new UUIDs, readings of the clock, and the published rates.
pub record Inputs : Type 0 where
  pub settlement_id : ℕ
  pub journal_id : ℕ
  pub now : ℕ
  pub deadline : ℕ
  pub quote : Currency → Result RouteQuote

pub data Task : Type 0 where
  -- `create`, at its start, at its transaction, and at the reload of a winner
  creating : String → String → SettlementCreate → Task
  inserting resolving : Settlement → Task
  -- `create`, at `_claim_reserved`, at `initiate` and at `_finalize_attempt`
  claiming : ℕ → Task
  paying : PayoutClaim → Task
  finalizing : PayoutClaim → Option ProviderResult → Task
  -- `get`, and what ends in it
  fetching : ℕ → Task
  -- `reconcile`, at its `get` and at `_claim_for_reconciliation`
  reconciling reclaiming : ℕ → Task
  -- `_reconcile_claim`, with `propagate_errors`, at `lookup`, at `initiate` and at
  -- `_finalize_attempt`, and in its handler
  looking_up resubmitting : PayoutClaim → Bool → Task
  concluding : PayoutClaim → Option ProviderResult → Bool → Task
  recovering : PayoutClaim → Error → Bool → Task
  -- returned or raised
  done : Result SettlementRead → Task

-- The row that `create` adds.
abbrev pub new_settlement :
    String → String → String → SettlementCreate → RouteQuote → ℕ → Settlement
new_settlement owner_id idempotency_key fingerprint command quote settlement_id = record {
  id = settlement_id;
  owner_id = owner_id;
  idempotency_key = idempotency_key;
  request_fingerprint = fingerprint;
  amount_usd = command.amount_usd;
  target_currency = command.target_currency;
  route = quote.hops;
  snapshot_version = quote.snapshot_version;
  aggregate_rate = to_units quote.aggregate_rate;
  quoted_amount = to_units (mul default_prec (of_units command.amount_usd) quote.aggregate_rate);
  provider_operation_id = settlement_id;
  status = SettlementStatus.reserved;
}

-- An existing settlement answers a request, unless it is one that still has to be claimed.
replay_or_claim : Settlement → Task
replay_or_claim s =
    if is_reserved s.status then claiming s.id else done (ok (from_orm_settlement s))

replay : Settlement → String → Task
unfolding replay_or_claim
replay s fingerprint = elim (check_fingerprint s fingerprint) [
  | ok _ ↦ replay_or_claim s
  | err e ↦ done (err e)
]

start_insert : (RouteQuote → Settlement) → Result RouteQuote → Task
start_insert row (ok quote) = inserting (row quote)
start_insert row (err e) = done (err e)

-- `_is_idempotency_violation` sends the loser of a race to the winner's row.
after_insert : Settlement → Result (Unit {0}) → Task
after_insert s (ok _) = claiming s.id
after_insert s (err (integrity owner_idempotency_key)) = resolving s
after_insert s (err e) = done (err e)

-- `assert winner is not None`
after_resolve : String → Option Settlement → Task
unfolding replay
after_resolve fingerprint none = done (err assertion_failed)
after_resolve fingerprint (some winner) = replay winner fingerprint

after_claim : ℕ → (PayoutClaim → Task) → Result (Option PayoutClaim) → Task
after_claim i next (ok none) = fetching i
after_claim i next (ok (some claim)) = next claim
after_claim i next (err e) = done (err e)

-- `except Exception: result = None`
abbrev or_unknown : Result ProviderResult → Option ProviderResult
or_unknown (ok r) = some r
or_unknown (err e) = none

after_finalize : PayoutClaim → Result SettlementRead → Task
after_finalize claim (ok read) = done (ok read)
after_finalize claim (err stale_attempt_token) = fetching claim.settlement.id
after_finalize claim (err e) = done (err e)

after_get : ℕ → Result SettlementRead → Task
after_get i (ok current) = if in_flight current.status then reclaiming i else done (ok current)
after_get i (err e) = done (err e)

after_lookup : PayoutClaim → Bool → Result ProviderLookup → Task
after_lookup claim propagate (ok ProviderLookup.paid) =
    concluding claim (some ProviderResult.paid) propagate
after_lookup claim propagate (ok ProviderLookup.unpaid) =
    concluding claim (some ProviderResult.unpaid) propagate
after_lookup claim propagate (ok not_found) = resubmitting claim propagate
after_lookup claim propagate (ok _) = concluding claim none propagate
after_lookup claim propagate (err e) = recovering claim e propagate

after_conclude : PayoutClaim → Bool → Result SettlementRead → Task
after_conclude claim propagate (ok read) = done (ok read)
after_conclude claim propagate (err stale_attempt_token) = fetching claim.settlement.id
after_conclude claim propagate (err e) = recovering claim e propagate

raise_or_get : PayoutClaim → Error → Bool → Task
raise_or_get claim error true = done (err error)
raise_or_get claim error false = fetching claim.settlement.id

-- The handler's own `_finalize_attempt`: a stale token is passed over, another error is raised.
after_recover : PayoutClaim → Error → Bool → Result SettlementRead → Task
unfolding raise_or_get
after_recover claim error propagate (ok _) = raise_or_get claim error propagate
after_recover claim error propagate (err stale_attempt_token) = raise_or_get claim error propagate
after_recover claim error propagate (err e) = done (err e)

module _ {P : Type 0} where
  abbrev pub on_db {ℓ} : {A : Type ℓ} → Session A → (Result A → Task) → World P → Task × World P
  on_db m next w = let (r, db') = m w.db in (next r, record w { db = db' })

  abbrev pub on_provider {ℓ} :
      {A : Type ℓ} → Exec P A → (Result A → Task) → World P → Task × World P
  on_provider m next w = let (r, p) = m w.provider in (next r, record w { provider = p })

module _ {P : Type 0} (provider : PayoutProvider P)
    (request_fingerprint : String → SettlementCreate → String) where
  initiate : PayoutClaim → Exec P ProviderResult
  initiate claim =
      provider.initiate claim.settlement.id claim.settlement.amount_usd
        claim.settlement.target_currency claim.settlement.quoted_amount

  -- A request for a new key is quoted before its transaction begins.
  start_create : Inputs → String → String → SettlementCreate → Option Settlement → Task
  unfolding replay start_insert
  start_create inputs owner_id key command (some existing) =
      replay existing (request_fingerprint owner_id command)
  start_create inputs owner_id key command none =
      start_insert
        (λ quote.
          new_settlement owner_id key (request_fingerprint owner_id command) command quote
            inputs.settlement_id)
        (inputs.quote command.target_currency)

  unfoldable pub step : Inputs → Task → World P → Task × World P
  unfolding start_create after_insert after_resolve after_claim after_finalize after_get
      after_lookup after_conclude after_recover initiate
  step inputs (creating owner_id key command) w =
      (start_create inputs owner_id key command (find_by_key owner_id key w.db), w)
  step inputs (inserting s) w = on_db (create_reserved s inputs.journal_id) (after_insert s) w
  step inputs (resolving s) w =
      (after_resolve s.request_fingerprint (find_by_key s.owner_id s.idempotency_key w.db), w)
  step inputs (claiming i) w = on_db (claim_reserved i inputs.deadline) (after_claim i paying) w
  step inputs (paying claim) w =
      on_provider (initiate claim) (λ r. finalizing claim (or_unknown r)) w
  step inputs (finalizing claim result) w =
      on_db
        (finalize_attempt claim.settlement.id claim.attempt_token result inputs.journal_id
          inputs.now)
        (after_finalize claim) w
  step inputs (fetching i) w = on_db (get i) done w
  step inputs (reconciling i) w = on_db (get i) (after_get i) w
  step inputs (reclaiming i) w =
      on_db (claim_for_reconciliation i false inputs.now inputs.deadline)
        (after_claim i (λ claim. looking_up claim true)) w
  step inputs (looking_up claim propagate) w =
      on_provider (provider.lookup claim.settlement.id) (after_lookup claim propagate) w
  step inputs (resubmitting claim propagate) w =
      on_provider (initiate claim) (λ r. concluding claim (or_unknown r) propagate) w
  step inputs (concluding claim result propagate) w =
      on_db
        (finalize_attempt claim.settlement.id claim.attempt_token result inputs.journal_id
          inputs.now)
        (after_conclude claim propagate) w
  step inputs (recovering claim error propagate) w =
      on_db
        (finalize_attempt claim.settlement.id claim.attempt_token none inputs.journal_id inputs.now)
        (after_recover claim error propagate) w
  step inputs (done r) w = (done r, w)
