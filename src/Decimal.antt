-- ===== src/Decimal.antt =====
-- The `decimal.Decimal` values of the program: rounding to a context's precision by
-- ROUND_HALF_EVEN (app/decimal_policy.py), comparison by value, and the rounding of a value that
-- PostgreSQL stores in a NUMERIC column.
pub mod Order
pub mod Rounding
pub mod Monotone
pub mod Products
use netaro_settlement_router.Prelude.{
  ℕ, zero, suc, ◌+◌, ◌-◌, ◌*◌, ◌/◌, ◌%◌, ◌^◌, Bool, true, false, ◌&&◌, ◌||◌, ltb, leb, ◌==◌,
  if◌then◌else◌,
}
use mathlib.Core.Bool.{xor}
use netaro_settlement_router.Prelude.Int.{
  ℤ, pos, negsuc, pos_part, neg_part, ◌+ℤ◌, ◌-ℤ◌, ltb_ℤ, leb_ℤ,
}

-- `finite s c e` is c * 10 ^ e, negative if s.
pub data Decimal : Type 0 where
  finite : Bool → ℕ → ℤ → Decimal
  infinite : Bool → Decimal
  nan : Decimal

-- How many decimal digits a coefficient has; a coefficient is fuel enough for itself.
pub digits_from : ℕ → ℕ → ℕ
digits_from zero c = 1
digits_from (suc fuel) c = elim (ltb c 10) [ true ↦ 1 | false ↦ suc (digits_from fuel (c / 10)) ]

pub digits : ℕ → ℕ
unfolding digits_from
digits c = digits_from c c

-- A coefficient without its last k digits, rounded half to even.
pub drop_half_even : ℕ → ℕ → ℕ
drop_half_even c k =
    let unit : ℕ = 10 ^ k in
    let q : ℕ = c / unit in
    let twice : ℕ = 2 * (c % unit) in
    if ltb unit twice || (twice == unit && q % 2 == 1) then q + 1 else q

-- Round to `prec` digits. A coefficient that rounds up to 10 ^ prec has one digit too many, which
-- is a zero.
pub round_to : ℕ → Bool → ℕ → ℤ → Decimal
unfolding digits drop_half_even
round_to prec s c e =
    let k : ℕ = digits c - prec in
    let q : ℕ = drop_half_even c k in
    if leb (digits c) prec
    then finite s c e
    else if q == 10 ^ prec
    then finite s (q / 10) (e +ℤ pos (k + 1))
    else finite s q (e +ℤ pos k)

-- The product in a context of precision `prec`. The program multiplies finite values only; the
-- context's exponent range (10 ^ 999999) is not modelled.
unfoldable pub mul : ℕ → Decimal → Decimal → Decimal
unfolding round_to ◌+ℤ◌
mul prec (finite s c e) (finite t d f) = round_to prec (xor s t) (c * d) (e +ℤ f)
mul prec _ _ = nan

abbrev pub is_finite : Decimal → Bool
is_finite (finite s c e) = true
is_finite _ = false

abbrev signed : Bool → ℕ → ℤ
signed false n = pos n
signed true n = pos 0 -ℤ pos n

-- Comparisons bring both coefficients to one exponent. With an infinity or a NaN they are not
-- used, and answer no.
unfoldable pub lt : Decimal → Decimal → Bool
unfolding ◌-ℤ◌
lt (finite s c e) (finite t d f) =
    ltb_ℤ (signed s (c * 10 ^ pos_part (e -ℤ f))) (signed t (d * 10 ^ pos_part (f -ℤ e)))
lt _ _ = false

unfoldable pub le : Decimal → Decimal → Bool
unfolding ◌-ℤ◌
le (finite s c e) (finite t d f) =
    leb_ℤ (signed s (c * 10 ^ pos_part (e -ℤ f))) (signed t (d * 10 ^ pos_part (f -ℤ e)))
le _ _ = false

-- `==` of two finite values is equality of value.
unfoldable pub eq : Decimal → Decimal → Bool
unfolding le
eq a b = le a b && le b a

abbrev pub one : Decimal
one = finite false 1 (pos 0)

abbrev pub dec_zero : Decimal
dec_zero = finite false 0 (pos 0)

-- `ROUTING_CONTEXT`, and the interpreter's default context.
abbrev pub routing_prec : ℕ
routing_prec = 38

abbrev pub default_prec : ℕ
default_prec = 28

-- An amount of a NUMERIC(_, 8) column, as a decimal.
abbrev pub of_units : ℕ → Decimal
of_units n = finite false n (negsuc 7)

-- The units that a NUMERIC(_, 8) column keeps of a value: PostgreSQL rounds half away from zero.
-- The values that the program stores are not negative.
abbrev at_scale : ℕ → ℤ → ℕ
at_scale c (pos k) = c * 10 ^ k
at_scale c (negsuc k) = (2 * c + 10 ^ (k + 1)) / (2 * 10 ^ (k + 1))

unfoldable pub to_units : Decimal → ℕ
unfolding ◌+ℤ◌
to_units (finite s c e) = at_scale c (e +ℤ pos 8)
to_units _ = 0

-- The sum in a context of precision `prec`: exact at the smaller exponent, then rounded.
abbrev magnitude : ℤ → ℕ
magnitude z = pos_part z + neg_part z

abbrev below_zero : ℤ → Bool
below_zero z = ltb 0 (neg_part z)

abbrev round_signed : ℕ → Bool → ℤ → ℤ → Decimal
round_signed prec zero_sign (pos zero) e = finite zero_sign 0 e
round_signed prec zero_sign z e = round_to prec (below_zero z) (magnitude z) e

unfoldable pub add : ℕ → Decimal → Decimal → Decimal
unfolding round_to ◌+ℤ◌ ◌-ℤ◌
add prec (finite s c e) (finite t d f) =
    round_signed prec (s && t)
      (signed s (c * 10 ^ pos_part (e -ℤ f)) +ℤ signed t (d * 10 ^ pos_part (f -ℤ e)))
      (e -ℤ pos (pos_part (e -ℤ f)))
add prec _ _ = nan

-- An exact quotient drops its zeros, as far as the ideal exponent.
drop_zeros : ℕ → Bool → ℕ → ℤ → Decimal
unfolding ◌+ℤ◌
drop_zeros zero s q e = finite s q e
drop_zeros (suc fuel) s q e = elim (q % 10 == 0) [
  | true ↦ drop_zeros fuel s (q / 10) (e +ℤ pos 1)
  | false ↦ finite s q e
]

-- A rounded quotient: one digit more than the precision, made to end in no 0 or 5 where digits
-- have been lost, so that the rounding that follows is that of the exact value.
abbrev quotient : ℕ → Bool → ℕ → ℕ → ℕ → ℤ → Decimal
quotient prec s n d shift e =
    let q : ℕ = n / d in
    if n % d == 0 then drop_zeros shift s q e else finite s (if q % 5 == 0 then q + 1 else q) e

abbrev rounded : ℕ → Decimal → Decimal
rounded prec (finite s c e) = round_to prec s c e
rounded prec d = d

abbrev divide : ℕ → Bool → ℕ → ℕ → ℤ → ℤ → Decimal
divide prec s c d ideal (pos shift) =
    rounded prec (quotient prec s (c * 10 ^ shift) d shift (ideal -ℤ pos shift))
divide prec s c d ideal (negsuc k) =
    rounded prec (quotient prec s c (d * 10 ^ (k + 1)) 0 (ideal +ℤ pos (k + 1)))

-- The quotient in a context of precision `prec`. The program divides by positive values only.
unfoldable pub div : ℕ → Decimal → Decimal → Decimal
unfolding round_to drop_zeros digits ◌+ℤ◌ ◌-ℤ◌
div prec (finite s zero e) (finite t d f) = finite (xor s t) 0 (e -ℤ f)
div prec (finite s c e) (finite t d f) =
    divide prec (xor s t) c d (e -ℤ f) (pos (digits d + prec + 1) -ℤ pos (digits c))
div prec _ _ = nan

-- `Decimal(z)` of an integer
abbrev pub of_int : ℤ → Decimal
of_int z = finite (below_zero z) (magnitude z) (pos 0)
