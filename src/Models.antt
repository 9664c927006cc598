-- ===== src/Models.antt =====
-- app/models.py: the enums and the rows of the tables. UUIDs and points in time are numbers, of
-- which the program uses equality and order. Amounts of a NUMERIC(_, 8) column are in units of its
-- last place. Left out are the server's `created_at` and `updated_at`, the primary key of a posting,
-- and `provider_reference` of an attempt, which nothing writes.
use netaro_settlement_router.Prelude.{
  ℕ, String, Bool, true, false, Option, List, ◌&&◌, Eq, ◌≡◌, ◌↔◌, str_eq, eq_iff, arith,
}
use netaro_settlement_router.Prelude.Int.{ℤ}
use netaro_settlement_router.Routing.Types.{Currency, RouteHop}

pub data AccountClass : Type 0 where
  asset liability : AccountClass

pub data AccountPurpose : Type 0 where
  available reserved omnibus : AccountPurpose

pub data PostingSide : Type 0 where
  debit credit : PostingSide

pub data JournalEvent : Type 0 where
  opening reserve consume release : JournalEvent

pub data SettlementStatus : Type 0 where
  reserved payout_in_progress success failed pending_reconciliation : SettlementStatus

-- The values that the program writes to `PayoutAttempt.state`, a text column.
pub data AttemptState : Type 0 where
  submitting reconciling claimed completed : AttemptState

abbrev pub same_purpose : AccountPurpose → AccountPurpose → Bool
same_purpose available available = true
same_purpose AccountPurpose.reserved AccountPurpose.reserved = true
same_purpose omnibus omnibus = true
same_purpose _ _ = false

abbrev pub same_event : JournalEvent → JournalEvent → Bool
same_event opening opening = true
same_event reserve reserve = true
same_event consume consume = true
same_event release release = true
same_event _ _ = false

pub record Account : Type 0 where
  pub id : ℕ
  pub owner_id : String
  pub currency : Currency
  pub account_class : AccountClass
  pub purpose : AccountPurpose
  pub balance : ℤ

pub record Settlement : Type 0 where
  pub id : ℕ
  pub owner_id : String
  pub idempotency_key : String
  pub request_fingerprint : String
  pub amount_usd : ℕ
  pub target_currency : Currency
  pub route : List RouteHop
  pub snapshot_version : ℕ
  pub aggregate_rate : ℕ
  pub quoted_amount : ℕ
  pub provider_operation_id : ℕ
  pub status : SettlementStatus

pub record JournalTransaction : Type 0 where
  pub id : ℕ
  pub settlement_id : Option ℕ
  pub event : JournalEvent
  pub is_posted : Bool

pub record Posting : Type 0 where
  pub journal_id : ℕ
  pub account_id : ℕ
  pub currency : Currency
  pub side : PostingSide
  pub amount : ℕ

pub record PayoutAttempt : Type 0 where
  pub settlement_id : ℕ
  pub operation_id : ℕ
  pub state : AttemptState
  pub attempt_token : ℕ
  pub lease_expires_at : ℕ
  pub last_outcome : Option String

-- What an account is selected by, and the UNIQUE constraints over several columns.
abbrev pub AccountKey : Type 0
AccountKey = String × AccountPurpose

abbrev pub AccountIdentity : Type 0
AccountIdentity = String × Currency × AccountPurpose

abbrev pub identity_of : Account → AccountIdentity
identity_of a = (a.owner_id, a.currency, a.purpose)

abbrev pub IdempotencyKey : Type 0
IdempotencyKey = String × String

abbrev pub idempotency_of : Settlement → IdempotencyKey
idempotency_of s = (s.owner_id, s.idempotency_key)

abbrev same_texts : IdempotencyKey → IdempotencyKey → Bool
same_texts a b = str_eq a.0 b.0 && str_eq a.1 b.1

pub same_texts_iff : (a b : IdempotencyKey) → (same_texts a b ≡ true) ↔ (a ≡ b)
same_texts_iff (a, b) (c, d) = ground (arith, eq_iff a c, eq_iff b d)

instance abbrev pub idempotency_eq : Eq IdempotencyKey
idempotency_eq = record { beq = same_texts; beq_iff = same_texts_iff }

abbrev pub account_id_of : Account → ℕ
account_id_of a = a.id

abbrev pub settlement_id_of : Settlement → ℕ
settlement_id_of s = s.id

abbrev pub journal_id_of : JournalTransaction → ℕ
journal_id_of j = j.id

abbrev pub attempt_id_of : PayoutAttempt → ℕ
attempt_id_of a = a.settlement_id

-- Statuses from which a settlement still moves on; in them its amount is reserved.
abbrev pub is_open : SettlementStatus → Bool
is_open success = false
is_open failed = false
is_open _ = true

-- `status in {PAYOUT_IN_PROGRESS, PENDING_RECONCILIATION}`
abbrev pub in_flight : SettlementStatus → Bool
in_flight payout_in_progress = true
in_flight pending_reconciliation = true
in_flight _ = false

abbrev pub is_reserved : SettlementStatus → Bool
is_reserved SettlementStatus.reserved = true
is_reserved _ = false
