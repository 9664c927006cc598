-- ===== src/Tests/Replies.antt =====
-- Requests and replies at the tables of one settlement.
use netaro_settlement_router.Prelude.{
  ◌↔◌, inl, some, false, true, nat_eq, ◌≡◌, ◌≢◌, String, ◌<◌, ◌≤◌, refl, arith, Memᴰ, if◌then◌else◌,
}
use netaro_settlement_router.Models.{Settlement, liability, available, AccountPurpose, in_flight}
use netaro_settlement_router.Routing.Types.{usd, php}
use netaro_settlement_router.Prelude.Int.{negsuc, ◌+ℤ◌, ◌-ℤ◌}
use netaro_settlement_router.Decimal.{Decimal, finite, eq, lt, of_units}
use netaro_settlement_router.Schemas.{SettlementCreate, from_orm_settlement}
use netaro_settlement_router.Database.{
  ok, err, insufficient_funds, settlement_not_found, numeric_24, ◌>>=◌,
}
use netaro_settlement_router.Ledger.{account_pair, locked_accounts, locked_rows, order_by_id}
use netaro_settlement_router.Service.{get}
use netaro_settlement_router.Service.Tasks.{creating, inserting, fetching, done, step}
use netaro_settlement_router.Service.Tasks.Replay.{IsInsertable}
use netaro_settlement_router.Http.{
  CreateBody, admits, units_of, create_settlement, view, detail, respond, reply_of_call,
  reply_of_get, handle,
}
use netaro_settlement_router.Http.Replies.{reply-row, error-reply}
use netaro_settlement_router.Http.Amounts.{create_settlement_iff}
use netaro_settlement_router.Http.Refused.{insert-poor}
use netaro_settlement_router.Tests.Example.{account, seeded, order, paid, paid_order}
use netaro_settlement_router.Tests.Runs.{paying_provider, fingerprint, inputs, restarted}

-- Ten micro-dollars, written with a trailing zero.
abbrev body : CreateBody
body = record { amount_usd = some (finite false 100 (negsuc 6)); target_currency = some php }

abbrev ten_micros : SettlementCreate
ten_micros = record { amount_usd = 1000; target_currency = php }

create_settlement_iff_example :
    (create_settlement (some "demo") (some "first") body ≡ inl (creating "demo" "first" ten_micros))
    ↔ ((◌≢◌ {A = String} "demo" "")
        × (◌≢◌ {A = String} "first" "")
        × (body.target_currency ≡ some php)
        × (amount : Decimal) × (body.amount_usd ≡ some amount)
        × (eq amount (of_units 1000) ≡ true)
        × (0 < 1000)
        × (1000 < numeric_24))
create_settlement_iff_example = create_settlement_iff "demo" "first" body ten_micros

called :
    create_settlement (some "demo") (some "first") body ≡ inl (creating "demo" "first" ten_micros)
unfolding create_settlement admits units_of lt ◌+ℤ◌ ◌-ℤ◌
called = refl

reply-row_example :
    (s : Settlement) × Memᴰ s paid.settlements
    × (reply_of_call (ok (from_orm_settlement paid_order))
        ≡ respond (if in_flight s.status then 202 else 200) (view (from_orm_settlement s)))
    × (reply_of_get (ok (from_orm_settlement paid_order))
        ≡ respond 200 (view (from_orm_settlement s)))
unfolding step get ◌>>=◌
reply-row_example =
    reply-row paying_provider fingerprint inputs (fetching 7) (restarted paid).world
      (restarted paid).world (from_orm_settlement paid_order) refl refl

error-reply_example :
    (paid ≡ paid)
    × (reply_of_call (err settlement_not_found) ≡ handle settlement_not_found)
    × (reply_of_get (err settlement_not_found) ≡ handle settlement_not_found)
    × (400 ≤ (handle settlement_not_found).status)
unfolding step get ◌>>=◌
error-reply_example =
    error-reply paying_provider fingerprint inputs (fetching 8) (restarted paid).world
      (restarted paid).world settlement_not_found refl refl

abbrev large_order : Settlement
large_order = record order { amount_usd = 1001 }

large_order-IsInsertable : IsInsertable large_order
large_order-IsInsertable = record {
  amount = (omega arith, omega arith);
  rate = (omega arith, omega arith);
  quoted = (omega arith, omega arith);
  version = omega arith;
  operation = refl;
}

insert-poor_example :
    (step paying_provider fingerprint inputs (inserting large_order) (restarted seeded).world
      ≡ (done (err insufficient_funds), (restarted seeded).world))
    × (reply_of_call (err insufficient_funds) ≡ respond 409 (detail "insufficient funds"))
unfolding account_pair locked_accounts locked_rows order_by_id
insert-poor_example =
    insert-poor paying_provider fingerprint inputs large_order (restarted seeded).world
      (account 1 "demo" usd liability available 1000)
      (account 2 "demo" usd liability AccountPurpose.reserved 0) large_order-IsInsertable refl refl
      refl refl
