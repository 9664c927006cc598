-- ===== src/Provider/Mock.antt =====
-- app/provider.py: `MockPayoutProvider`, in memory and over its table. A wait is left out; what it
-- ends in is the error that is raised after it. Texts of the table that are no member of their enum
-- raise a ValueError, here `runtime_error`.
pub mod Stability
pub mod Durable
pub mod Refinement
pub mod Repeats
use netaro_settlement_router.Prelude.{
  nat_eq, ℕ, zero, suc, ◌+◌, ◌-◌, ◌%◌, String, Bool, true, false, Option, none, some, List, [], ◌∷◌,
  ◌++◌, str_eq, ◌==◌, ltb, if◌then◌else◌, exists, length,
}
use netaro_settlement_router.Table.{lookup, replace}
use netaro_settlement_router.Routing.Types.{Currency}
use netaro_settlement_router.Database.{
  Error, payout_timeout, assertion_failed, runtime_error, Result, ok, err, Exec, pure, raise, reads,
  lift, or_raise, writes, transaction, ◌>>=◌, ◌>>◌,
}
use netaro_settlement_router.Provider.{
  ProviderResult, ProviderLookup, ambiguous, unknown, not_found, processing, unavailable,
  result_value, lookup_value,
}

-- What a submission returns, what a lookup will answer, and whether the submission times out.
abbrev pub Outcome : Type 0
Outcome = Option ProviderResult × ProviderLookup × Bool

-- The constructor's arguments; without `outcomes` the list is empty.
pub record MockConfig : Type 0 where
  pub outcomes : List ProviderLookup
  pub timeout_lookup : ProviderLookup
  pub load_mode : Bool

-- `_ambiguous_authority`
abbrev pub ambiguous_authority : ℕ → ProviderLookup
ambiguous_authority position =
    if position % 2 == 0 then ProviderLookup.paid else ProviderLookup.unpaid

abbrev pub scripted_outcome : ProviderLookup → ProviderLookup → Outcome
scripted_outcome timeout_lookup unknown = (none, timeout_lookup, true)
scripted_outcome timeout_lookup ProviderLookup.paid =
    (some ProviderResult.paid, ProviderLookup.paid, false)
scripted_outcome timeout_lookup outcome = (some ProviderResult.unpaid, outcome, false)

abbrev pub load_outcome : ℕ → Result Outcome
load_outcome position =
    if ltb position 700
    then ok (some ProviderResult.paid, ProviderLookup.paid, false)
    else if ltb position 850
    then ok (some ambiguous, ambiguous_authority position, false)
    else if ltb position 1000
    then ok (none, ambiguous_authority position, true)
    else err runtime_error

abbrev pub cycled_outcome : ℕ → Outcome
cycled_outcome position =
    if ltb position 14
    then (some ProviderResult.paid, ProviderLookup.paid, false)
    else if ltb position 17
    then (some ambiguous, ambiguous_authority position, false)
    else (none, ambiguous_authority position, true)

-- The element at an index, counted from the first one; an index out of range does not occur.
abbrev pub nth : ProviderLookup → List ProviderLookup → ℕ → ProviderLookup
nth o rest zero = o
nth o [] (suc n) = o
nth o (p ∷ rest) (suc n) = nth p rest n

abbrev pub unloaded_outcome : List ProviderLookup → ProviderLookup → ℕ → Outcome
unloaded_outcome [] timeout_lookup position = cycled_outcome (position % 20)
unloaded_outcome (o ∷ rest) timeout_lookup position =
    scripted_outcome timeout_lookup (nth o rest (position % suc (length rest)))

-- `_outcome_for_position`
unfoldable pub outcome_for_position : MockConfig → ℕ → Result Outcome
outcome_for_position config position =
    if config.load_mode
    then load_outcome position
    else ok (unloaded_outcome config.outcomes config.timeout_lookup position)

-- The end of `initiate`.
abbrev pub submitted_result : Outcome → Result ProviderResult
submitted_result (submission, authority, true) = err payout_timeout
submitted_result (submission, authority, false) = or_raise submission assertion_failed

-- In memory: `_operations` and `_operation_count`.
pub record MockMemory : Type 0 where
  pub operations : List (ℕ × Outcome)
  pub operation_count : ℕ

abbrev pub operation_of : ℕ × Outcome → ℕ
operation_of (i, outcome) = i

abbrev pub remember : ℕ → Outcome → MockMemory → MockMemory
remember i outcome memory = record {
  operations = memory.operations ++ (i, outcome) ∷ [];
  operation_count = memory.operation_count + 1;
}

-- `stored`: the operation's outcome, drawn when it is new.
unfoldable pub stored_outcome : MockConfig → ℕ → Exec MockMemory Outcome
stored_outcome config i memory = elim (lookup operation_of i memory.operations) [
  | some (j, outcome) ↦ (ok outcome, memory)
  | none ↦ elim (outcome_for_position config memory.operation_count) [
    | err e ↦ (err e, memory)
    | ok outcome ↦ (ok outcome, remember i outcome memory)
  ]
]

unfoldable pub initiate_in_memory : MockConfig → ℕ → Exec MockMemory ProviderResult
initiate_in_memory config i = do outcome ← stored_outcome config i; lift (submitted_result outcome)

abbrev pub authority_of : Option (ℕ × Outcome) → ProviderLookup
authority_of none = not_found
authority_of (some (i, outcome)) = outcome.1

unfoldable pub lookup_in_memory : ℕ → Exec MockMemory ProviderLookup
lookup_in_memory i = reads (λ memory. ok (authority_of (lookup operation_of i memory.operations)))

-- app/models.py: a row of `mock_provider_operations`, less its reference.
pub record MockProviderOperation : Type 0 where
  pub operation_id : ℕ
  pub ordinal : ℕ
  pub submission_outcome : String
  pub authoritative_outcome : String

abbrev pub row_id_of : MockProviderOperation → ℕ
row_id_of row = row.operation_id

-- `ProviderResult(text)` and `ProviderLookup(text)`
abbrev pub parse_result : String → Result ProviderResult
parse_result text =
    if str_eq text "PAID"
    then ok ProviderResult.paid
    else if str_eq text "UNPAID"
    then ok ProviderResult.unpaid
    else if str_eq text "AMBIGUOUS_503"
    then ok ambiguous
    else err runtime_error

abbrev pub parse_lookup : String → Result ProviderLookup
parse_lookup text =
    if str_eq text "PAID"
    then ok ProviderLookup.paid
    else if str_eq text "UNPAID"
    then ok ProviderLookup.unpaid
    else if str_eq text "UNKNOWN"
    then ok unknown
    else if str_eq text "NOT_FOUND"
    then ok not_found
    else if str_eq text "PROCESSING"
    then ok processing
    else if str_eq text "UNAVAILABLE"
    then ok unavailable
    else err runtime_error

-- `submission_value`, with the assertion that an outcome in time has a submission.
abbrev pub submission_value : Outcome → Result String
submission_value (submission, authority, true) = ok "TIMEOUT"
submission_value (some result, authority, false) = ok (result_value result)
submission_value (none, authority, false) = err assertion_failed

abbrev pub submission_of : String → ProviderLookup → Result Outcome
submission_of text authority =
    if str_eq text "TIMEOUT"
    then ok (none, authority, true)
    else elim (parse_result text) [ err e ↦ err e | ok result ↦ ok (some result, authority, false) ]

unfoldable pub read_outcome : MockProviderOperation → Result Outcome
read_outcome row = elim (parse_lookup row.authoritative_outcome) [
  | err e ↦ err e
  | ok authority ↦ submission_of row.submission_outcome authority
]

abbrev pub Operations : Type 0
Operations = List MockProviderOperation

abbrev pub allocated : ℕ → ℕ → MockProviderOperation
allocated i ordinal = record {
  operation_id = i;
  ordinal = ordinal;
  submission_outcome = "ALLOCATING";
  authoritative_outcome = lookup_value unknown;
}

-- INSERT ... ON CONFLICT DO NOTHING RETURNING ordinal, with the ordinal that the sequence gives.
unfoldable pub allocate : ℕ → ℕ → Exec Operations (Option ℕ)
allocate i ordinal rows =
    if exists (λ row. row.operation_id == i) rows
    then (ok none, rows)
    else (ok (some ordinal), rows ++ allocated i ordinal ∷ [])

unfoldable pub decide : MockConfig → ℕ → Option ℕ → Exec Operations (Unit {0})
decide config i none = pure tt
decide config i (some ordinal) = do
  outcome ← lift (outcome_for_position config (ordinal - 1))
  text ← lift (submission_value outcome)
  writes (
      replace row_id_of (record (allocated i ordinal) {
        submission_outcome = text;
        authoritative_outcome = lookup_value outcome.1;
      }))

-- `_durable_outcome`, and the block of its transaction.
unfoldable pub durable_block : MockConfig → ℕ → ℕ → Exec Operations Outcome
durable_block config i ordinal = do
  is_new ← allocate i ordinal
  decide config i is_new
  row ← reads (λ rows. or_raise (lookup row_id_of i rows) assertion_failed)
  lift (read_outcome row)

unfoldable pub durable_outcome : MockConfig → ℕ → ℕ → Exec Operations Outcome
durable_outcome config i ordinal = transaction (durable_block config i ordinal)

unfoldable pub initiate_durably : MockConfig → ℕ → ℕ → Exec Operations ProviderResult
initiate_durably config i ordinal = do
  outcome ← durable_outcome config i ordinal
  lift (submitted_result outcome)

abbrev pub stored_authority : Option MockProviderOperation → Result ProviderLookup
stored_authority none = ok not_found
stored_authority (some row) = parse_lookup row.authoritative_outcome

unfoldable pub lookup_durably : ℕ → Exec Operations ProviderLookup
lookup_durably i = reads (λ rows. stored_authority (lookup row_id_of i rows))
