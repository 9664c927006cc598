-- ===== src/Schemas.antt =====
-- app/schemas.py: the command of a request, and the view of a settlement that a reply carries.
-- The text of a request's fingerprint is a later module's; the service takes it as a parameter.
use netaro_settlement_router.Prelude.{ℕ, List}
use netaro_settlement_router.Routing.Types.{Currency, RouteHop}
use netaro_settlement_router.Models.{Settlement, SettlementStatus}

-- `amount_usd` is greater than 0 and has at most 8 decimal places and 16 digits before them, in
-- units of 10 ^ -8.
pub record SettlementCreate : Type 0 where
  pub amount_usd : ℕ
  pub target_currency : Currency

pub record SettlementRead : Type 0 where
  pub id : ℕ
  pub status : SettlementStatus
  pub amount_usd : ℕ
  pub target_currency : Currency
  pub quoted_amount : ℕ
  pub aggregate_rate : ℕ
  pub snapshot_version : ℕ
  pub route : List RouteHop

abbrev pub from_orm_settlement : Settlement → SettlementRead
from_orm_settlement s = record {
  id = s.id;
  status = s.status;
  amount_usd = s.amount_usd;
  target_currency = s.target_currency;
  quoted_amount = s.quoted_amount;
  aggregate_rate = s.aggregate_rate;
  snapshot_version = s.snapshot_version;
  route = s.route;
}
