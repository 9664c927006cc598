-- ===== src/Provider.antt =====
-- app/provider.py: the results and lookups of a payout provider, and its interface. A call returns
-- or raises, and changes the provider's own state.
pub mod Mock
use netaro_settlement_router.Prelude.{ℕ, String}
use netaro_settlement_router.Routing.Types.{Currency}
use netaro_settlement_router.Database.{Exec}

pub data ProviderResult : Type 0 where
  paid unpaid ambiguous : ProviderResult

pub data ProviderLookup : Type 0 where
  paid unpaid unknown not_found processing unavailable : ProviderLookup

abbrev pub result_value : ProviderResult → String
result_value ProviderResult.paid = "PAID"
result_value ProviderResult.unpaid = "UNPAID"
result_value ambiguous = "AMBIGUOUS_503"

abbrev pub lookup_value : ProviderLookup → String
lookup_value ProviderLookup.paid = "PAID"
lookup_value ProviderLookup.unpaid = "UNPAID"
lookup_value unknown = "UNKNOWN"
lookup_value not_found = "NOT_FOUND"
lookup_value processing = "PROCESSING"
lookup_value unavailable = "UNAVAILABLE"

-- `class PayoutProvider(Protocol)`, over the provider's state P.
pub record PayoutProvider (P : Type 0) : Type 0 where
  pub initiate : ℕ → ℕ → Currency → ℕ → Exec P ProviderResult
  pub lookup : ℕ → Exec P ProviderLookup
