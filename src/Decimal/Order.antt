-- ===== src/Decimal/Order.antt =====
-- app/routing.py compares rates with `<`, `<=` and `==`: on finite values that are not negative this
-- is a total order.
use netaro_settlement_router.Prelude.{
  ℕ, zero, suc, ◌+◌, ◌*◌, ◌^◌, ◌≤◌, ◌<◌, ◌≡◌, ◌↔◌, sym, ap, ◌∙◌, subst, true, false, arith, refl,
  Bool-cases, inl, inr, leb, ◌-◌, ◌==◌,
}
use native.Mathlib.Nat.{mul-le-mul_right, le_of_mul-le-mul_right, one-le-pow, pow-suc}
use mathlib.Core.Bool.{xor}
use netaro_settlement_router.Prelude.Int.{ℤ, pos_part, neg_part, ◌+ℤ◌, ◌-ℤ◌, -ℤ_parts}
use netaro_settlement_router.Decimal.{
  Decimal, finite, lt, le, mul, round_to, digits, drop_half_even,
}

-- A finite value without a minus sign.
abbrev pub IsUnsigned : Decimal → Type 0
IsUnsigned d = (c : ℕ) × (e : ℤ) × (d ≡ finite false c e)

abbrev pub scale : ℤ → ℤ → ℕ
scale e f = 10 ^ pos_part (e -ℤ f)

pub pow-+ : (a b : ℕ) → 10 ^ (a + b) ≡ 10 ^ a * 10 ^ b
pow-+ zero b = grind arith
pow-+ (suc a) b =
    ap (λ n. 10 ^ n) (omega arith)
    ∙ pow-suc 10 (a + b)
    ∙ ap (λ x. x * 10) (pow-+ a b)
    ∙ moved (10 ^ a) (10 ^ b)
    ∙ ap (λ x. x * 10 ^ b) (sym (pow-suc 10 a))
  where
    moved : (x y : ℕ) → x * y * 10 ≡ x * 10 * y
    moved x y = grind arith

pub le_iff :
    (c d : ℕ) (e f : ℤ)
    → (le (finite false c e) (finite false d f) ≡ true) ↔ (c * scale e f ≤ d * scale f e)
unfolding le
le_iff c d e f = ground arith

pub lt_iff :
    (c d : ℕ) (e f : ℤ)
    → (lt (finite false c e) (finite false d f) ≡ true) ↔ (c * scale e f < d * scale f e)
unfolding lt
lt_iff c d e f = ground arith

pub turned : (e f : ℤ) → neg_part (e -ℤ f) ≡ pos_part (f -ℤ e)
unfolding ◌-ℤ◌
turned e f = ground arith

gaps :
    (e f g : ℤ)
    → pos_part (e -ℤ f) + pos_part (f -ℤ g) + pos_part (g -ℤ e)
      ≡ pos_part (f -ℤ e) + pos_part (g -ℤ f) + pos_part (e -ℤ g)
gaps e f g =
    omega (arith, -ℤ_parts e f, -ℤ_parts f g, -ℤ_parts e g, turned e f, turned f g, turned e g)

-- The chain of two comparisons, with both sides scaled to one exponent.
chained :
    (c d k a a1 b b1 h h1 : ℕ)
    → a * b * h1 ≡ a1 * b1 * h
    → 0 < a1 * b1
    → c * a ≤ d * a1
    → d * b ≤ k * b1
    → c * h ≤ k * h1
chained c d k a a1 b b1 h h1 g positive p q =
    le_of_mul-le-mul_right {m = c * h} {n = k * h1} {k = a1 * b1} all positive
  where
    left : c * a * b ≤ d * a1 * b
    left = mul-le-mul_right b p

    right : d * b * a1 ≤ k * b1 * a1
    right = mul-le-mul_right a1 q

    both : c * a * b ≤ k * b1 * a1
    both = grind (arith, left, right)

    above : c * a * b * h1 ≤ k * b1 * a1 * h1
    above = mul-le-mul_right h1 both

    regrouped : c * a * b * h1 ≡ c * (a * b * h1)
    regrouped = grind arith

    lower : c * h * (a1 * b1) ≡ c * (a1 * b1 * h)
    lower = grind arith

    upper : k * b1 * a1 * h1 ≡ k * h1 * (a1 * b1)
    upper = grind arith

    all : c * h * (a1 * b1) ≤ k * h1 * (a1 * b1)
    all = rw (lower, sym g, sym regrouped, sym upper) above

pub power_positive : (n : ℕ) → 0 < 10 ^ n
power_positive n = grind (arith, one-le-pow n 10 (omega arith))

pub scaled_trans :
    (c d k a a1 b b1 h h1 : ℕ)
    → a + b + h1 ≡ a1 + b1 + h
    → c * 10 ^ a ≤ d * 10 ^ a1
    → d * 10 ^ b ≤ k * 10 ^ b1
    → c * 10 ^ h ≤ k * 10 ^ h1
scaled_trans c d k a a1 b b1 h h1 g p q =
    chained c d k (10 ^ a) (10 ^ a1) (10 ^ b) (10 ^ b1) (10 ^ h) (10 ^ h1)
      (sym (powers a b h1) ∙ ap (λ n. 10 ^ n) g ∙ powers a1 b1 h)
      (subst (λ n. 0 < n) (pow-+ a1 b1) (power_positive (a1 + b1))) p q
  where
    powers : (x y z : ℕ) → 10 ^ (x + y + z) ≡ 10 ^ x * 10 ^ y * 10 ^ z
    powers x y z = pow-+ (x + y) z ∙ ap (λ n. n * 10 ^ z) (pow-+ x y)

-- `<=` is transitive, and `a < b` is the negation of `b <= a`.
pub le_trans :
    (a b c : Decimal)
    → IsUnsigned a
    → IsUnsigned b
    → IsUnsigned c
    → le a b ≡ true
    → le b c ≡ true
    → le a c ≡ true
le_trans a b c (x, e, at_a) (y, f, at_b) (z, g, at_c) p q =
    rw (at_a, at_c)
      ((le_iff x z e g).1 (
        scaled_trans x y z (pos_part (e -ℤ f)) (pos_part (f -ℤ e)) (pos_part (f -ℤ g))
          (pos_part (g -ℤ f)) (pos_part (e -ℤ g)) (pos_part (g -ℤ e)) (gaps e f g)
          ((le_iff x y e f).0 (rw (at_a, at_b) at p)) ((le_iff y z f g).0 (rw (at_b, at_c) at q))))

pub le_of_not_lt : (a b : Decimal) → IsUnsigned a → IsUnsigned b → lt a b ≡ false → le b a ≡ true
le_of_not_lt a b (x, e, at_a) (y, f, at_b) h =
    rw (at_a, at_b) (ground (arith, lt_iff x y e f, le_iff y x f e, rw (at_a, at_b) at h))

pub le_of_lt : (a b : Decimal) → IsUnsigned a → IsUnsigned b → lt a b ≡ true → le a b ≡ true
le_of_lt a b (x, e, at_a) (y, f, at_b) h =
    rw (at_a, at_b) (ground (arith, lt_iff x y e f, le_iff x y e f, rw (at_a, at_b) at h))

pub le_refl : (a : Decimal) → IsUnsigned a → le a a ≡ true
le_refl a (x, e, at_a) = rw at_a ((le_iff x x e e).1 (omega arith))

pub round_to-IsUnsigned : (prec c : ℕ) (e : ℤ) → IsUnsigned (round_to prec false c e)
unfolding round_to
round_to-IsUnsigned prec c e = elim (Bool-cases (leb (digits c) prec)) [
  | inl exact ↦ rw (exact, round_to) (c, e, refl)
  | inr lost ↦ elim (Bool-cases (drop_half_even c (digits c - prec) == 10 ^ prec)) [
    | inl carried ↦ rw (lost, carried, round_to) (_, _, refl)
    | inr kept ↦ rw (lost, kept, round_to) (_, _, refl)
  ]
]

-- A product of such values is one too.
pub mul-IsUnsigned :
    (prec : ℕ) (a b : Decimal) → IsUnsigned a → IsUnsigned b → IsUnsigned (mul prec a b)
unfolding mul xor
mul-IsUnsigned prec a b (x, e, at_a) (y, f, at_b) =
    rw (at_a, at_b) (round_to-IsUnsigned prec (x * y) (e +ℤ f))
