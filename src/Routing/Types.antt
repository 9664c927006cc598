-- ===== src/Routing/Types.antt =====
-- app/routing.py: the currencies, and the values that a rate snapshot is made of.
use netaro_settlement_router.Prelude.{ℕ, String, Bool, true, false, List, ◌≡◌, ◌↔◌, arith}
use netaro_settlement_router.Decimal.{Decimal}

pub data Currency : Type 0 where
  usd usdc eur php aed : Currency

-- Members of a StrEnum are equal exactly if they are the same member.
abbrev pub same_currency : Currency → Currency → Bool
same_currency usd usd = true
same_currency usdc usdc = true
same_currency eur eur = true
same_currency php php = true
same_currency aed aed = true
same_currency _ _ = false

pub same_currency_iff : (a b : Currency) → (same_currency a b ≡ true) ↔ (a ≡ b)
same_currency_iff a b = ground arith

pub record Edge : Type 0 where
  pub source : Currency
  pub target : Currency
  pub lp : String
  pub rate : Decimal

pub record RouteHop : Type 0 where
  pub source : Currency
  pub target : Currency
  pub lp : String
  pub rate : Decimal

pub record RouteQuote : Type 0 where
  pub snapshot_version : ℕ
  pub target : Currency
  pub aggregate_rate : Decimal
  pub hops : List RouteHop
