-- ===== src/Decimal/Rounding.antt =====
-- app/decimal_policy.py: rounding by ROUND_HALF_EVEN keeps the order of values.
use netaro_settlement_router.Prelude.{
  ℕ, zero, suc, ◌+◌, ◌*◌, ◌/◌, ◌%◌, ◌^◌, ◌≤◌, ◌<◌, ◌≡◌, refl, sym, ap, ◌∙◌, subst, false, inl, inr,
  arith, Bool-cases, ltb, leb, ◌==◌, ◌||◌, ◌&&◌, if◌then◌else◌,
}
use native.Mathlib.Nat.{mul-le-mul_right, le_of_mul-le-mul_right, div-add-mod', mod-lt}
use netaro_settlement_router.Decimal.Order.{power_positive}
use netaro_settlement_router.Decimal.{digits_from, drop_half_even}

-- A number rounded to a multiple of the unit: no more than half a unit away, and even where it is half.
pub record IsRounded (q c u : ℕ) : Type 0 where
  pub up : 2 * c ≤ 2 * (q * u) + u
  pub up_even : 2 * c ≡ 2 * (q * u) + u → q % 2 ≡ 0
  pub down : 2 * (q * u) ≤ 2 * c + u
  pub down_even : 2 * (q * u) ≡ 2 * c + u → q % 2 ≡ 0

-- The choice between a quotient and the next one, over a quotient, a remainder and the multiple.
rounded_up :
    (q r u c m : ℕ)
    → c ≡ m + r
    → q * u ≡ m
    → (q + 1) * u ≡ m + u
    → r < u
    → 0 < u
    → IsRounded (if ltb u (2 * r) || (2 * r == u && q % 2 == 1) then q + 1 else q) c u
rounded_up q r u c m h at next small positive =
    elim (Bool-cases (ltb u (2 * r) || (2 * r == u && q % 2 == 1))) [
      | inl more ↦ rw more (record {
        up = ground arith;
        up_even = λ e. ground arith;
        down = ground arith;
        down_even = λ e. ground arith;
      })
      | inr less ↦ rw less (record {
        up = ground arith;
        up_even = λ e. ground arith;
        down = ground arith;
        down_even = λ e. ground arith;
      })
    ]

pub drop_half_even-IsRounded : (c k : ℕ) → IsRounded (drop_half_even c k) c (10 ^ k)
unfolding drop_half_even
drop_half_even-IsRounded c k =
    rounded_up (c / 10 ^ k) (c % 10 ^ k) (10 ^ k) c (c / 10 ^ k * 10 ^ k)
      (sym (div-add-mod' c (10 ^ k))) refl (next (c / 10 ^ k) (10 ^ k))
      (mod-lt c (power_positive k)) (power_positive k)
  where
    next : (q u : ℕ) → (q + 1) * u ≡ q * u + u
    next q u = grind arith

pub digits_from-bounds :
    (fuel c : ℕ)
    → c ≤ fuel
    → (m : ℕ) × (digits_from fuel c ≡ suc m) × (c < 10 ^ suc m) × (0 < c → 10 ^ m ≤ c)
unfolding digits_from
digits_from-bounds zero c h = (0, refl, omega arith, (λ p. omega arith))
digits_from-bounds (suc fuel) c h = elim (Bool-cases (ltb c 10)) [
  | inl one ↦ rw (one, digits_from) (0, refl, ground arith, (λ p. omega arith))
  | inr more ↦
      let (m, count, below, above) = digits_from-bounds fuel (c / 10) (ground arith) in
      rw (more, digits_from)
        (suc m, ap suc count, ground (arith, below), (λ p. ground (arith, above (ground arith))))
]

-- Rounding to multiples of one unit keeps the order.
pub same_unit_mono : (q c p d u : ℕ) → IsRounded q c u → IsRounded p d u → c ≤ d → 0 < u → q ≤ p
same_unit_mono q c p d u rq rp h positive = elim (Bool-cases (leb q p)) [
  | inl below ↦ ground arith
  | inr above ↦ elim (Bool-cases (q == p + 1)) [
    | inl next ↦
        let at : q ≡ p + 1 = ground arith in
        let gap : q * u ≡ p * u + u = ap (λ x. x * u) at ∙ one_more p u in ground (arith, gap, at)
    | inr far ↦
        let gap : p * u + u + u ≤ q * u =
          subst (λ x. x ≤ q * u) (two_more p u) (mul-le-mul_right u (apart q p far above)) in
        ground (arith, gap)
  ]
]
  where
    one_more : (p u : ℕ) → (p + 1) * u ≡ p * u + u
    one_more p u = grind arith

    two_more : (p u : ℕ) → (p + 2) * u ≡ p * u + u + u
    two_more p u = grind arith

    apart : (q p : ℕ) → (q == p + 1) ≡ false → leb q p ≡ false → p + 2 ≤ q
    apart q p far above = ground arith

cancelled : (x y s : ℕ) → x * s ≡ y * s → 0 < s → x ≡ y
cancelled x y s h positive = omega (
  arith,
  le_of_mul-le-mul_right {m = x} {n = y} {k = s} (omega (arith, h)) positive,
  le_of_mul-le-mul_right {m = y} {n = x} {k = s} (omega (arith, h)) positive,
)

IsRounded-scaled : (q c u s : ℕ) → IsRounded q c u → 0 < s → IsRounded q (c * s) (u * s)
IsRounded-scaled q c u s r positive = record {
  up = grind (arith, mul-le-mul_right s r.up);
  up_even = λ h. r.up_even (cancelled (2 * c) (2 * (q * u) + u) s (grind (arith, h)) positive);
  down = grind (arith, mul-le-mul_right s r.down);
  down_even = λ h. r.down_even (cancelled (2 * (q * u)) (2 * c + u) s (grind (arith, h)) positive);
}

-- Rounding keeps the order, also of values in two units: s and t scale them to one.
pub IsRounded_mono :
    (q c u p d v s t : ℕ)
    → IsRounded q c u
    → IsRounded p d v
    → c * s ≤ d * t
    → u * s ≡ v * t
    → 0 < s
    → 0 < t
    → 0 < u * s
    → q ≤ p
IsRounded_mono q c u p d v s t rq rp h same ps pt positive =
    same_unit_mono q (c * s) p (d * t) (u * s) (IsRounded-scaled q c u s rq ps)
      (subst (IsRounded p (d * t)) (sym same) (IsRounded-scaled p d v t rp pt)) h positive

-- A multiple of the unit is its own rounding.
pub multiple-IsRounded : (q u : ℕ) → 0 < u → IsRounded q (q * u) u
multiple-IsRounded q u positive = record {
  up = omega arith;
  up_even = λ h. ground arith;
  down = omega arith;
  down_even = λ h. ground arith;
}
