-- ===== src/Decimal/Products.antt =====
-- app/decimal_policy.py: the rounded product of finite values that are not negative is monotone.
use netaro_settlement_router.Prelude.{
  ℕ, suc, ◌+◌, ◌-◌, ◌*◌, ◌/◌, ◌^◌, ◌≤◌, ◌≡◌, refl, sym, ap, true, false, inl, inr, arith,
  Bool-cases, leb, ◌==◌,
}
use native.Mathlib.Nat.{mul-le-mul}
use mathlib.Core.Bool.{xor}
use netaro_settlement_router.Prelude.Int.{ℤ, pos, pos_part, ◌+ℤ◌, ◌-ℤ◌, +ℤ_parts, -ℤ_parts}
use netaro_settlement_router.Decimal.Order.{
  IsUnsigned, le_iff, turned, scaled_trans, pow-+, le_trans, le_refl, round_to-IsUnsigned,
}
use netaro_settlement_router.Decimal.Monotone.{kept_mono, drop_half_even-IsKept, whole_at}
use netaro_settlement_router.Decimal.{Decimal, finite, le, mul, round_to, digits, drop_half_even}

-- Values at exponents that are this far apart.
le_of_scaled :
    (q r a b : ℕ) (e f : ℤ)
    → a + pos_part (f -ℤ e) ≡ b + pos_part (e -ℤ f)
    → q * 10 ^ a ≤ r * 10 ^ b
    → le (finite false q e) (finite false r f) ≡ true
le_of_scaled q r a b e f apart h = (le_iff q r e f).1 (
    scaled_trans q r r a b 0 0 (pos_part (e -ℤ f)) (pos_part (f -ℤ e)) (omega (arith, apart)) h
      (omega arith))

-- Two ways to write one value.
abbrev SameValue : Decimal → Decimal → Type 0
SameValue a b = (le a b ≡ true) × (le b a ≡ true)

same_of_scaled :
    (q r a b : ℕ) (e f : ℤ)
    → a + pos_part (f -ℤ e) ≡ b + pos_part (e -ℤ f)
    → q * 10 ^ a ≡ r * 10 ^ b
    → SameValue (finite false q e) (finite false r f)
same_of_scaled q r a b e f apart h = (
  le_of_scaled q r a b e f apart (omega (arith, h)),
  le_of_scaled r q b a f e (sym apart) (omega (arith, h)),
)

shifted :
    (e : ℤ) (m n : ℕ)
    → m + pos_part ((e +ℤ pos n) -ℤ (e +ℤ pos m)) ≡ n + pos_part ((e +ℤ pos m) -ℤ (e +ℤ pos n))
shifted e m n = omega (
  arith,
  +ℤ_parts e (pos m),
  +ℤ_parts e (pos n),
  -ℤ_parts (e +ℤ pos m) (e +ℤ pos n),
  turned (e +ℤ pos m) (e +ℤ pos n),
)

unshifted :
    (e : ℤ) (k : ℕ) → k ≡ 0 → 0 + pos_part ((e +ℤ pos k) -ℤ e) ≡ 0 + pos_part (e -ℤ (e +ℤ pos k))
unshifted e k none =
    omega (arith, +ℤ_parts e (pos k), -ℤ_parts e (e +ℤ pos k), turned e (e +ℤ pos k), none)

-- A rounded value has the coefficient that was kept, at the exponent of its last digit.
abbrev lost : ℕ → ℕ → ℕ
lost p c = digits c - suc p

abbrev kept : ℕ → ℕ → ℤ → Decimal
kept p c e = finite false (drop_half_even c (lost p c)) (e +ℤ pos (lost p c))

round_to-kept : (p c : ℕ) (e : ℤ) → SameValue (round_to (suc p) false c e) (kept p c e)
unfolding round_to
round_to-kept p c e = elim (Bool-cases (leb (digits c) (suc p))) [
  | inl exact ↦
      let none : lost p c ≡ 0 = ground arith in
      rw (exact, round_to)
        (same_of_scaled c (drop_half_even c (lost p c)) 0 0 e (e +ℤ pos (lost p c))
          (unshifted e (lost p c) none)
          (ap (λ x. x * 1)
            (sym (
              whole_at (drop_half_even c (lost p c)) c (lost p c)
                (drop_half_even-IsKept p c).rounded none))))
  | inr rounded ↦ elim (Bool-cases (drop_half_even c (lost p c) == 10 ^ suc p)) [
    | inl carried ↦
        rw (rounded, carried, round_to)
          (same_of_scaled (drop_half_even c (lost p c) / 10) (drop_half_even c (lost p c)) 1 0
            (e +ℤ pos (lost p c + 1)) (e +ℤ pos (lost p c))
            (omega (arith, shifted e (lost p c + 1) (lost p c))) (ground (arith, carried)))
    | inr unchanged ↦
        rw (rounded, unchanged, round_to) (le_refl _ (_, _, refl), le_refl _ (_, _, refl))
  ]
]

kept-mono_le :
    (p c d : ℕ) (e f : ℤ)
    → le (finite false c e) (finite false d f) ≡ true
    → le (kept p c e) (kept p d f) ≡ true
kept-mono_le p c d e f h =
    le_of_scaled (drop_half_even c (lost p c)) (drop_half_even d (lost p d))
      (pos_part (e -ℤ f) + lost p c) (pos_part (f -ℤ e) + lost p d) (e +ℤ pos (lost p c))
      (f +ℤ pos (lost p d))
      (omega (
        arith,
        +ℤ_parts e (pos (lost p c)),
        +ℤ_parts f (pos (lost p d)),
        -ℤ_parts e f,
        turned e f,
        -ℤ_parts (e +ℤ pos (lost p c)) (f +ℤ pos (lost p d)),
        turned (e +ℤ pos (lost p c)) (f +ℤ pos (lost p d)),
      ))
      (kept_mono (suc p) (drop_half_even c (lost p c)) c (lost p c) (drop_half_even d (lost p d)) d
        (lost p d) (pos_part (e -ℤ f)) (pos_part (f -ℤ e)) (drop_half_even-IsKept p c)
        (drop_half_even-IsKept p d) ((le_iff c d e f).0 h))

round_to_mono :
    (p c d : ℕ) (e f : ℤ)
    → le (finite false c e) (finite false d f) ≡ true
    → le (round_to (suc p) false c e) (round_to (suc p) false d f) ≡ true
round_to_mono p c d e f h =
    let unsigned_c = round_to-IsUnsigned (suc p) c e in
    let unsigned_d = round_to-IsUnsigned (suc p) d f in
    le_trans (round_to (suc p) false c e) (kept p c e) (round_to (suc p) false d f) unsigned_c
      (_, _, refl) unsigned_d (round_to-kept p c e).0
      (le_trans (kept p c e) (kept p d f) (round_to (suc p) false d f) (_, _, refl) (_, _, refl)
        unsigned_d (kept-mono_le p c d e f h) (round_to-kept p d f).1)

product_mono :
    (c x d y : ℕ) (e g f h : ℤ)
    → le (finite false c e) (finite false d f) ≡ true
    → le (finite false x g) (finite false y h) ≡ true
    → le (finite false (c * x) (e +ℤ g)) (finite false (d * y) (f +ℤ h)) ≡ true
product_mono c x d y e g f h p q =
    le_of_scaled (c * x) (d * y) (pos_part (e -ℤ f) + pos_part (g -ℤ h))
      (pos_part (f -ℤ e) + pos_part (h -ℤ g)) (e +ℤ g) (f +ℤ h)
      (omega (
        arith,
        +ℤ_parts e g,
        +ℤ_parts f h,
        -ℤ_parts e f,
        turned e f,
        -ℤ_parts g h,
        turned g h,
        -ℤ_parts (e +ℤ g) (f +ℤ h),
        turned (e +ℤ g) (f +ℤ h),
      ))
      (omega (
        arith,
        paired c x (pos_part (e -ℤ f)) (pos_part (g -ℤ h)),
        paired d y (pos_part (f -ℤ e)) (pos_part (h -ℤ g)),
        mul-le-mul ((le_iff c d e f).0 p) ((le_iff x y g h).0 q),
      ))
  where
    regrouped : (c x s t r : ℕ) → r ≡ s * t → c * x * r ≡ c * s * (x * t)
    regrouped c x s t r e = grind (arith, e)

    paired : (c x m n : ℕ) → c * x * 10 ^ (m + n) ≡ c * 10 ^ m * (x * 10 ^ n)
    paired c x m n = regrouped c x (10 ^ m) (10 ^ n) (10 ^ (m + n)) (pow-+ m n)

-- The rounded product keeps the order in both factors.
pub mul_mono :
    (p : ℕ) (a b c d : Decimal)
    → IsUnsigned a
    → IsUnsigned b
    → IsUnsigned c
    → IsUnsigned d
    → le a c ≡ true
    → le b d ≡ true
    → le (mul (suc p) a b) (mul (suc p) c d) ≡ true
unfolding mul xor
mul_mono p a b c d (x, e, at_a) (y, f, at_b) (z, g, at_c) (w, h, at_d) le_ac le_bd =
    rw (at_a, at_b, at_c, at_d)
      (round_to_mono p (x * y) (z * w) (e +ℤ f) (g +ℤ h)
        (product_mono x y z w e f g h (rw (at_a, at_c) at le_ac) (rw (at_b, at_d) at le_bd)))
