-- ===== src/Decimal/Monotone.antt =====
-- app/decimal_policy.py: sums of money and rates are rounded to a number of digits, which keeps the
-- order of the values, and so does the rounded product.
use netaro_settlement_router.Prelude.{
  ℕ, zero, suc, ◌+◌, ◌-◌, ◌*◌, ◌^◌, ◌≤◌, ◌<◌, ◌≡◌, ◌⊎◌, refl, sym, ap, ◌∙◌, subst, inl, inr, arith,
  Bool-cases, ltb, leb, ◌==◌,
}
use native.Mathlib.Nat.{mul-le-mul_left, mul-le-mul_right, le_of_mul-le-mul_right, pow-le-pow_right}
use netaro_settlement_router.Decimal.Order.{power_positive, pow-+}
use netaro_settlement_router.Decimal.Rounding.{
  IsRounded, IsRounded_mono, same_unit_mono, multiple-IsRounded, drop_half_even-IsRounded,
  digits_from-bounds,
}
use netaro_settlement_router.Decimal.{digits, drop_half_even}

split_power : (x n m : ℕ) → x * 10 ^ (n + m) ≡ x * 10 ^ n * 10 ^ m
split_power x n m = regrouped x (10 ^ n) (10 ^ m) (10 ^ (n + m)) (pow-+ n m)
  where
    regrouped : (x p q r : ℕ) → r ≡ p * q → x * r ≡ x * p * q
    regrouped x p q r h = grind (arith, h)

cancel_low : (x y n m : ℕ) → x * 10 ^ (n + m) ≤ y * 10 ^ m → x * 10 ^ n ≤ y
cancel_low x y n m h =
    le_of_mul-le-mul_right {m = x * 10 ^ n} {n = y} {k = 10 ^ m}
      (subst (λ k. k ≤ y * 10 ^ m) (split_power x n m) h) (power_positive m)

cancel_high : (x y n m : ℕ) → x * 10 ^ m ≤ y * 10 ^ (n + m) → x ≤ y * 10 ^ n
cancel_high x y n m h =
    le_of_mul-le-mul_right {m = x} {n = y * 10 ^ n} {k = 10 ^ m}
      (subst (λ k. x * 10 ^ m ≤ k) (split_power y n m) h) (power_positive m)

powers_equal : (k a l b : ℕ) → k + a ≡ l + b → 10 ^ k * 10 ^ a ≡ 10 ^ l * 10 ^ b
powers_equal k a l b e = sym (pow-+ k a) ∙ ap (λ n. 10 ^ n) e ∙ pow-+ l b

grown : (r j : ℕ) → r * 10 ≤ r * 10 ^ suc j
grown r j =
    mul-le-mul_left r (pow-le-pow_right {n = 10} (omega arith) {i = 1} {j = suc j} (omega arith))

-- A coefficient c, of which k digits have been rounded away, so that q with p digits is left.
pub record IsKept (p q c k : ℕ) : Type 0 where
  pub rounded : IsRounded q c (10 ^ k)
  pub small : q ≤ 10 ^ p
  pub below : c < 10 ^ (p + k)
  large : (k ≡ 0) ⊎ ((10 ^ p ≤ q * 10) × (10 ^ (p + k) ≤ c * 10))

whole : (q c : ℕ) → IsRounded q c 1 → q ≡ c
whole q c r = omega (arith, r.up, r.down)

pub whole_at : (q c k : ℕ) → IsRounded q c (10 ^ k) → k ≡ 0 → q ≡ c
whole_at q c k r none = whole q c (subst (λ n. IsRounded q c (10 ^ n)) none r)

-- A larger power of ten is not below a smaller value of the same digits.
overtaken :
    (p k l c d a b : ℕ)
    → 10 ^ (p + k) ≤ c * 10
    → d < 10 ^ (p + l)
    → c * 10 ^ a ≤ d * 10 ^ b
    → b + l < a + k
    → ⊥
overtaken p k l c d a b large below h e =
    let lower : 10 ^ (p + k + a) ≤ c * 10 ^ a * 10 =
      subst (λ x. x ≤ c * 10 ^ a * 10) (sym (pow-+ (p + k) a))
        (moved (mul-le-mul_right (10 ^ a) large)) in
    let upper : d * 10 ^ b + 10 ^ b ≤ 10 ^ (p + l + b) =
      subst (λ x. d * 10 ^ b + 10 ^ b ≤ x) (sym (pow-+ (p + l) b))
        (widened (mul-le-mul_right (10 ^ b) below)) in
    let steps : 10 ^ suc (p + l + b) ≤ 10 ^ (p + k + a) =
      pow-le-pow_right {n = 10} (omega arith) {i = suc (p + l + b)} {j = p + k + a}
        (omega (arith, e)) in
    omega (arith, lower, upper, steps, h, power_positive b)
  where
    moved : 10 ^ (p + k) * 10 ^ a ≤ c * 10 * 10 ^ a → 10 ^ (p + k) * 10 ^ a ≤ c * 10 ^ a * 10
    moved h = grind (arith, h)

    widened : suc d * 10 ^ b ≤ 10 ^ (p + l) * 10 ^ b → d * 10 ^ b + 10 ^ b ≤ 10 ^ (p + l) * 10 ^ b
    widened h = grind (arith, h)

module _ (p q c k r d l a b : ℕ) (kept_c : IsKept p q c k) (kept_d : IsKept p r d l)
    (h : c * 10 ^ a ≤ d * 10 ^ b) where
  finer : (j : ℕ) → b + l ≡ a + k + j → q ≤ r * 10 ^ j
  finer zero e =
      let units : 10 ^ k * 10 ^ a ≡ 10 ^ l * 10 ^ b = powers_equal k a l b (omega (arith, e)) in
      omega (
        arith,
        IsRounded_mono q c (10 ^ k) r d (10 ^ l) (10 ^ a) (10 ^ b) kept_c.rounded kept_d.rounded h
            units (power_positive a) (power_positive b)
            (subst (λ x. 0 < x) (pow-+ k a) (power_positive (k + a))),
      )
  finer (suc j) e = elim kept_d.large [
    | inl none ↦
        let exponents : b ≡ suc j + k + a = omega (arith, e, none) in
        let bound : c ≤ d * 10 ^ (suc j + k) =
          cancel_high c d (suc j + k) a (subst (λ n. c * 10 ^ a ≤ d * 10 ^ n) exponents h) in
        subst (λ x. q ≤ x * 10 ^ suc j) (sym (whole_at r d l kept_d.rounded none))
          (same_unit_mono q c (d * 10 ^ suc j) (d * 10 ^ suc j * 10 ^ k) (10 ^ k) kept_c.rounded
            (multiple-IsRounded (d * 10 ^ suc j) (10 ^ k) (power_positive k))
            (subst (λ x. c ≤ x) (split_power d (suc j) k) bound) (power_positive k))
    | inr (large, _) ↦ omega (arith, kept_c.small, large, grown r j)
  ]

  coarser : (j : ℕ) → a + k ≡ b + l + suc j → q * 10 ^ suc j ≤ r
  coarser j e = elim kept_c.large [
    | inl none ↦
        let exponents : a ≡ suc j + l + b = omega (arith, e, none) in
        let bound : c * 10 ^ (suc j + l) ≤ d =
          cancel_low c d (suc j + l) b (subst (λ n. c * 10 ^ n ≤ d * 10 ^ b) exponents h) in
        subst (λ x. x * 10 ^ suc j ≤ r) (sym (whole_at q c k kept_c.rounded none))
          (same_unit_mono (c * 10 ^ suc j) (c * 10 ^ suc j * 10 ^ l) r d (10 ^ l)
            (multiple-IsRounded (c * 10 ^ suc j) (10 ^ l) (power_positive l)) kept_d.rounded
            (subst (λ x. x ≤ d) (split_power c (suc j) l) bound) (power_positive l))
    | inr (_, large) ↦ absurd (overtaken p k l c d a b large kept_d.below h (omega (arith, e)))
  ]

  -- The kept values are in the order of the exact ones.
  pub kept_mono : q * 10 ^ (a + k) ≤ r * 10 ^ (b + l)
  kept_mono = elim (Bool-cases (leb (a + k) (b + l))) [
    | inl first ↦
        let j : ℕ = b + l - (a + k) in
        let exponents : j + (a + k) ≡ b + l = ground arith in
        subst (λ x. q * 10 ^ (a + k) ≤ x)
          (sym (split_power r j (a + k)) ∙ ap (λ n. r * 10 ^ n) exponents)
          (mul-le-mul_right (10 ^ (a + k)) (finer j (ground arith)))
    | inr last ↦
        let j : ℕ = a + k - (b + l) - 1 in
        let exponents : suc j + (b + l) ≡ a + k = ground arith in
        subst (λ x. x ≤ r * 10 ^ (b + l))
          (sym (split_power q (suc j) (b + l)) ∙ ap (λ n. q * 10 ^ n) exponents)
          (mul-le-mul_right (10 ^ (b + l)) (coarser j (ground arith)))
  ]

digits-bounds :
    (c : ℕ)
    → (m : ℕ) × (digits c ≡ suc m) × (c < 10 ^ suc m) × (0 < c → 10 ^ m ≤ c) × (c ≡ 0 → m ≡ 0)
unfolding digits
digits-bounds zero = (0, refl, omega arith, (λ p. omega arith), λ p. refl)
digits-bounds (suc c) =
    let (m, count, below, above) = digits_from-bounds (suc c) (suc c) (omega arith) in
    (m, count, below, above, λ p. absurd (omega (arith, p)))

-- Of a coefficient with m + 1 digits, those beyond the precision are what is rounded away.
dropped-IsKept :
    (p c m k : ℕ)
    → suc m - suc p ≡ k
    → c < 10 ^ suc m
    → (0 < c → 10 ^ m ≤ c)
    → (c ≡ 0 → m ≡ 0)
    → IsKept (suc p) (drop_half_even c k) c k
dropped-IsKept p c m k count below above empty = record {
  rounded = drop_half_even-IsRounded c k;
  small = small;
  below = within;
  large = elim (Bool-cases (k == 0)) [
    | inl none ↦ inl (ground arith)
    | inr lost ↦ inr (ground (arith, lower (ground arith)), ground (arith, lowest (ground arith)))
  ];
}
  where
    within : c < 10 ^ (suc p + k)
    within = omega (
      arith,
      below,
      pow-le-pow_right {n = 10} (omega arith) {i = suc m} {j = suc p + k} (omega (arith, count)),
    )

    small : drop_half_even c k ≤ 10 ^ suc p
    small =
        same_unit_mono (drop_half_even c k) c (10 ^ suc p) (10 ^ suc p * 10 ^ k) (10 ^ k)
          (drop_half_even-IsRounded c k)
          (multiple-IsRounded (10 ^ suc p) (10 ^ k) (power_positive k))
          (omega (arith, within, pow-+ (suc p) k)) (power_positive k)

    lowest : 0 < k → 10 ^ (p + k) ≤ c
    lowest some = elim (Bool-cases (ltb 0 c)) [
      | inl positive ↦ subst (λ n. 10 ^ n ≤ c) (omega (arith, some, count)) (above (ground arith))
      | inr nothing ↦ absurd (ground (arith, empty (ground arith), some, count))
    ]

    lower : 0 < k → 10 ^ p ≤ drop_half_even c k
    lower some =
        same_unit_mono (10 ^ p) (10 ^ p * 10 ^ k) (drop_half_even c k) c (10 ^ k)
          (multiple-IsRounded (10 ^ p) (10 ^ k) (power_positive k)) (drop_half_even-IsRounded c k)
          (omega (arith, lowest some, pow-+ p k)) (power_positive k)

pub drop_half_even-IsKept :
    (p c : ℕ) → IsKept (suc p) (drop_half_even c (digits c - suc p)) c (digits c - suc p)
drop_half_even-IsKept p c =
    let (m, count, below, above, empty) = digits-bounds c in
    dropped-IsKept p c m (digits c - suc p) (ap (λ n. n - suc p) (sym count)) below above empty
