-- ===== src/Http.antt =====
-- app/main.py, app/db.py: the endpoints of the application, and the replies of its exception handlers.
-- What FastAPI does is its documented behaviour: a request that its declarations do not admit is
-- answered with 422, an exception without a handler with 500, and a normal return with 200 unless the
-- endpoint has set another status.
pub mod Replies
pub mod Refused
pub mod Amounts
use netaro_settlement_router.Prelude.{
  ℕ, String, Bool, true, false, not, ◌&&◌, ◌||◌, ◌⊎◌, inl, inr, Option, none, some, str_eq, ltb,
  ◌*◌, ◌/◌, ◌%◌, ◌^◌, ◌==◌, suc, if◌then◌else◌,
}
use netaro_settlement_router.Prelude.Int.{ℤ, pos, negsuc, ◌+ℤ◌}
use netaro_settlement_router.Decimal.{Decimal, finite, lt, dec_zero}
use netaro_settlement_router.Routing.Types.{Currency}
use netaro_settlement_router.Models.{in_flight}
use netaro_settlement_router.Schemas.{SettlementCreate, SettlementRead}
use netaro_settlement_router.Database.{
  Error, insufficient_funds, idempotency_conflict, settlement_not_found, route_not_found,
  database_unavailable, runtime_error, Result, ok, err, numeric_24,
}
use netaro_settlement_router.Service.Tasks.{Task, creating, fetching, reconciling}

pub data Body : Type 0 where
  view : SettlementRead → Body
  detail : String → Body
  -- FastAPI's report on what it has not admitted, and Starlette's text for an internal error
  invalid internal : Body
  -- {"status": "ok"}
  healthy : Body

pub record Response : Type 0 where
  pub status : ℕ
  pub body : Body

abbrev pub respond : ℕ → Body → Response
respond status body = record { status = status; body = body }

-- The exception handlers of `create_app`.
unfoldable pub handle : Error → Response
handle idempotency_conflict =
    respond 409 (detail "idempotency key conflicts with existing settlement")
handle insufficient_funds = respond 409 (detail "insufficient funds")
handle settlement_not_found = respond 404 (detail "settlement not found")
handle route_not_found = respond 422 (detail "no route available")
handle database_unavailable = respond 503 (detail "database unavailable")
handle _ = respond 500 internal

-- The end of `create_settlement` and of `reconcile_settlement`.
unfoldable pub reply_of_call : Result SettlementRead → Response
reply_of_call (ok read) = respond (if in_flight read.status then 202 else 200) (view read)
reply_of_call (err e) = handle e

-- The end of `get_settlement`.
unfoldable pub reply_of_get : Result SettlementRead → Response
reply_of_get (ok read) = respond 200 (view read)
reply_of_get (err e) = handle e

-- `Header(min_length=1)`
abbrev has_header : Option String → Bool
has_header none = false
has_header (some text) = not (str_eq text "")

-- The body of a request, as FastAPI hands it to the model: `none` stands for a text that is no
-- number, or no currency.
pub record CreateBody : Type 0 where
  pub amount_usd : Option Decimal
  pub target_currency : Option Currency

-- A value in units of the eighth decimal place, if it is a whole number of them and not negative.
abbrev whole_units : ℕ → ℤ → Option ℕ
whole_units c (pos k) = some (c * 10 ^ k)
whole_units c (negsuc k) = if c % 10 ^ suc k == 0 then some (c / 10 ^ suc k) else none

unfoldable pub units_of : Decimal → Option ℕ
unfolding ◌+ℤ◌
units_of (finite false c e) = whole_units c (e +ℤ pos 8)
units_of _ = none

-- `Field(gt=0, max_digits=24, decimal_places=8)`: a finite value greater than 0 with at most 8 decimal
-- places and 16 digits before them, trailing zeros not counted.
unfoldable pub admits : Decimal → Option ℕ
admits amount = elim (units_of amount) [
  | none ↦ none
  | some units ↦ if lt dec_zero amount && ltb units numeric_24 then some units else none
]

abbrev command_of : Option ℕ → Option Currency → Option SettlementCreate
command_of (some units) (some currency) =
    some (record { amount_usd = units; target_currency = currency })
command_of _ _ = none

abbrev admitted_amount : Option Decimal → Option ℕ
admitted_amount none = none
admitted_amount (some amount) = admits amount

abbrev validated : CreateBody → Option SettlementCreate
validated body = command_of (admitted_amount body.amount_usd) body.target_currency

abbrev call_create : Option String → Option String → Option SettlementCreate → Task ⊎ Response
call_create (some owner_id) (some key) (some command) = inl (creating owner_id key command)
call_create _ _ _ = inr (respond 422 invalid)

-- `create_settlement`, to its call of the service
unfoldable pub create_settlement : Option String → Option String → CreateBody → Task ⊎ Response
create_settlement owner_id key body =
    if has_header owner_id && has_header key
    then call_create owner_id key (validated body)
    else inr (respond 422 invalid)

-- `get_settlement` and `reconcile_settlement`, to their calls
abbrev pub get_settlement : ℕ → Task
get_settlement settlement_id = fetching settlement_id

abbrev pub reconcile_settlement : ℕ → Task
reconcile_settlement settlement_id = reconciling settlement_id

-- What becomes of the probe `SELECT 1` of `check_database`.
pub data Probe : Type 0 where
  answered : Probe
  sqlalchemy_error os_error : Probe
  other_error : Error → Probe

unfoldable pub check_database : Probe → Result (Unit {0})
check_database answered = ok tt
check_database sqlalchemy_error = err database_unavailable
check_database os_error = err database_unavailable
check_database (other_error e) = err e

unfoldable pub health : Probe → Response
unfolding check_database
health probe = elim (check_database probe) [ ok u ↦ respond 200 healthy | err e ↦ handle e ]

-- `_provider_from_environment`: whether the mock provider runs in load mode.
unfoldable pub provider_from_environment : Option String → Result Bool
provider_from_environment none = ok false
provider_from_environment (some mode) =
    if str_eq mode "random" || str_eq mode "load"
    then ok (str_eq mode "load")
    else err runtime_error
