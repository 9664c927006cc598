-- ===== src/Http/Amounts.antt =====
-- app/schemas.py, app/main.py: which requests for a settlement are admitted, and the amount that the
-- service is called with.
use netaro_settlement_router.Prelude.{
  zero, ℕ, suc, ◌+◌, ◌*◌, ◌/◌, ◌%◌, ◌^◌, ◌≡◌, ◌≢◌, ◌<◌, ◌↔◌, refl, sym, ap, ◌∙◌, inl, inr, String,
  true, false, none, some, Option, arith, eq_iff, Bool-cases, if◌then◌else◌, ◌==◌, ltb, ◌&&◌,
}
use native.Mathlib.Nat.{mul-le-mul_right, mul-mod_left, mul-div_cancel, div-add-mod'}
use netaro_settlement_router.Prelude.Int.{ℤ, pos, negsuc, pos_part, neg_part, ◌+ℤ◌, ◌-ℤ◌}
use netaro_settlement_router.Decimal.{
  Decimal, finite, infinite, nan, lt, le, eq, dec_zero, of_units,
}
use netaro_settlement_router.Decimal.Order.{le_iff, lt_iff, turned, power_positive}
use netaro_settlement_router.Routing.Types.{Currency}
use netaro_settlement_router.Schemas.{SettlementCreate}
use netaro_settlement_router.Database.{numeric_24}
use netaro_settlement_router.Service.Tasks.{creating}
use netaro_settlement_router.Http.{
  CreateBody, whole_units, units_of, admits, validated, create_settlement, has_header, call_create,
  command_of, admitted_amount, respond, invalid,
}

some-injective : {x y : ℕ} → some x ≡ some y → x ≡ y
some-injective p = cc

-- A quotient without a remainder.
quotient_iff :
    (c u n : ℕ) → 0 < u → ((if c % u == 0 then some (c / u) else none) ≡ some n) ↔ (c ≡ n * u)
quotient_iff c u n positive = (
  (λ h. elim (Bool-cases (c % u == 0)) [
    | inl exact ↦
        let at : c / u ≡ n = some-injective (rw exact at h) in
        let whole : c % u ≡ 0 = ground (arith, exact) in
        sym (div-add-mod' c u)
        ∙ ap (λ x. x + c % u) (ap (λ x. x * u) at)
        ∙ without (n * u) (c % u) whole
    | inr rest ↦ cc (rw rest at h)
  ]),
  (λ h.
      let whole : (c % u == 0) ≡ true = ground (arith, ap (λ x. x % u) h ∙ mul-mod_left n u) in
      rw whole (ap some (ap (λ x. x / u) h ∙ mul-div_cancel n positive))),
)
  where
    without : (x y : ℕ) → y ≡ 0 → x + y ≡ x
    without x y h = omega (arith, h)

whole_units_iff :
    (c n : ℕ) (z : ℤ) → (whole_units c z ≡ some n) ↔ (c * 10 ^ pos_part z ≡ n * 10 ^ neg_part z)
whole_units_iff c n (pos k) =
    ((λ h. omega (arith, some-injective h)), (λ h. ap some (omega (arith, h))))
whole_units_iff c n (negsuc k) =
    let q = quotient_iff c (10 ^ suc k) n (power_positive (suc k)) in
    ((λ h. omega (arith, q.0 h)), (λ h. q.1 (omega (arith, h))))

of_units_iff :
    (c n : ℕ) (e : ℤ)
    → (eq (finite false c e) (of_units n) ≡ true)
      ↔ (c * 10 ^ pos_part (e -ℤ negsuc 7) ≡ n * 10 ^ pos_part (negsuc 7 -ℤ e))
unfolding eq
of_units_iff c n e = ground (arith, le_iff c n e (negsuc 7), le_iff n c (negsuc 7) e)

-- The units of an amount are worth the amount, and an amount that is worth some units has them.
units_of_iff :
    (c n : ℕ) (e : ℤ)
    → (units_of (finite false c e) ≡ some n) ↔ (eq (finite false c e) (of_units n) ≡ true)
unfolding units_of ◌+ℤ◌ ◌-ℤ◌
units_of_iff c n e =
    let w = whole_units_iff c n (e -ℤ negsuc 7) in
    let v = of_units_iff c n e in
    let same = turned e (negsuc 7) in
    (
      (λ h. v.1 (w.0 h ∙ ap (λ k. n * 10 ^ k) same)),
      (λ h. w.1 (v.0 h ∙ ap (λ k. n * 10 ^ k) (sym same))),
    )

scaled_positive : (x k : ℕ) → 0 < x → 0 < x * 10 ^ k
scaled_positive x k h = omega (arith, mul-le-mul_right (10 ^ k) h, power_positive k)

same_sign : (c n a b : ℕ) → c * 10 ^ a ≡ n * 10 ^ b → 0 < c → 0 < n
same_sign zero n a b h p = absurd (omega (arith, p))
same_sign (suc c) zero a b h p = absurd (omega (arith, h, scaled_positive (suc c) a p))
same_sign (suc c) (suc n) a b h p = omega arith

-- A value without a minus sign is greater than 0 exactly if its coefficient is.
above_zero_iff : (c : ℕ) (e : ℤ) → (lt dec_zero (finite false c e) ≡ true) ↔ (0 < c)
above_zero_iff c e =
    let i = lt_iff 0 c (pos 0) e in
    (
      (λ h. coefficient c (i.0 h)),
      (λ h. i.1 (omega (arith, scaled_positive c (pos_part (e -ℤ pos 0)) h))),
    )
  where
    coefficient : (c : ℕ) → 0 * 10 ^ pos_part (pos 0 -ℤ e) < c * 10 ^ pos_part (e -ℤ pos 0) → 0 < c
    coefficient zero h = absurd (omega (arith, h))
    coefficient (suc c) h = omega arith

worth-positive :
    (c n : ℕ) (e : ℤ)
    → eq (finite false c e) (of_units n) ≡ true
    → (lt dec_zero (finite false c e) ≡ true) ↔ (0 < n)
worth-positive c n e h =
    let v = (of_units_iff c n e).0 h in
    (
      (λ p. same_sign c n _ _ v ((above_zero_iff c e).0 p)),
      (λ p. (above_zero_iff c e).1 (same_sign n c _ _ (sym v) p)),
    )

negative-worthless : (c n : ℕ) (e : ℤ) → 0 < n → ¬ (eq (finite true c e) (of_units n) ≡ true)
unfolding eq le ◌-ℤ◌
negative-worthless c n e p h = ground (arith, h, scaled_positive n (pos_part (negsuc 7 -ℤ e)) p)

-- `admits` gives the units of an amount exactly if they are worth the amount, more than none, and fit.
admits_iff :
    (amount : Decimal) (n : ℕ)
    → (admits amount ≡ some n) ↔ ((eq amount (of_units n) ≡ true) × (0 < n) × (n < numeric_24))
unfolding admits units_of eq le
admits_iff (finite false c e) n = (
  (λ h.
      let (found, above, fits) = tested (units_of (finite false c e)) h in
      let worth = (units_of_iff c n e).0 found in
      (worth, (worth-positive c n e worth).0 above, fits)),
  (λ (worth, positive, fits).
      passed (units_of (finite false c e)) ((units_of_iff c n e).1 worth)
        ((worth-positive c n e worth).1 positive) fits),
)
  where
    tested :
        (o : Option ℕ)
        → elim o [
          | none ↦ none
          | some units ↦
              if lt dec_zero (finite false c e) && ltb units numeric_24 then some units else none
        ]
          ≡ some n
        → (o ≡ some n) × (lt dec_zero (finite false c e) ≡ true) × (n < numeric_24)
    tested o h = ground arith

    passed :
        (o : Option ℕ)
        → o ≡ some n
        → lt dec_zero (finite false c e) ≡ true
        → n < numeric_24
        → elim o [
          | none ↦ none
          | some units ↦
              if lt dec_zero (finite false c e) && ltb units numeric_24 then some units else none
        ]
          ≡ some n
    passed o h p q = ground arith
admits_iff (finite true c e) n =
    ((λ h. cc), (λ (worth, positive, fits). absurd (negative-worthless c n e positive worth)))
admits_iff (infinite s) n = ((λ h. cc), (λ (worth, positive, fits). cc))
admits_iff nan n = ((λ h. cc), (λ (worth, positive, fits). cc))

-- For an owner and a key, `create_settlement` calls the service with a command exactly if owner and
-- key are not empty, the currency of the command is that of the request, and its amount is worth that
-- of the request, greater than 0, and less than 10 ^ 16 dollars.
pub create_settlement_iff :
    (owner_id key : String) (body : CreateBody) (command : SettlementCreate)
    → (create_settlement (some owner_id) (some key) body ≡ inl (creating owner_id key command)) ↔ (
        (owner_id ≢ "")
        × (key ≢ "")
        × (body.target_currency ≡ some command.target_currency)
        × (amount : Decimal) × (body.amount_usd ≡ some amount)
        × (eq amount (of_units command.amount_usd) ≡ true)
        × (0 < command.amount_usd)
        × (command.amount_usd < numeric_24))
unfolding create_settlement
create_settlement_iff owner_id key body command = (
  (λ h.
      let (validates, owner_set, key_set) = called (validated body) h in
      let (amounts, currencies) =
        commanded (admitted_amount body.amount_usd) body.target_currency validates in
      let (amount, sent, units) = sent_amount body.amount_usd amounts in
      let (worth, positive, fits) = (admits_iff amount command.amount_usd).0 units in
      (owner_set, key_set, currencies, amount, sent, worth, positive, fits)),
  (λ (owner_set, key_set, currency, amount, sent, worth, positive, fits).
      let units : admitted_amount body.amount_usd ≡ some command.amount_usd =
        ap admitted_amount sent
        ∙ (admits_iff amount command.amount_usd).1 (worth, positive, fits) in
      calls (validated body) owner_set key_set (
        ap (λ m. command_of m body.target_currency) units
        ∙ ap (command_of (some command.amount_usd)) currency)),
)
  where
    called :
        (o : Option SettlementCreate)
        → (if has_header (some owner_id) && has_header (some key)
            then call_create (some owner_id) (some key) o
            else inr (respond 422 invalid))
          ≡ inl (creating owner_id key command)
        → (o ≡ some command) × (owner_id ≢ "") × (key ≢ "")
    called o h = ground (arith, eq_iff owner_id "", eq_iff key "")

    calls :
        (o : Option SettlementCreate)
        → owner_id ≢ ""
        → key ≢ ""
        → o ≡ some command
        → (if has_header (some owner_id) && has_header (some key)
            then call_create (some owner_id) (some key) o
            else inr (respond 422 invalid))
          ≡ inl (creating owner_id key command)
    calls o p q h = ground (arith, eq_iff owner_id "", eq_iff key "")

    commanded :
        (m : Option ℕ) (c : Option Currency)
        → command_of m c ≡ some command
        → (m ≡ some command.amount_usd) × (c ≡ some command.target_currency)
    commanded none c h = cc
    commanded (some n) none h = cc
    commanded (some n) (some c) h = (cc h, cc h)

    sent_amount :
        (m : Option Decimal)
        → admitted_amount m ≡ some command.amount_usd
        → (d : Decimal) × (m ≡ some d) × (admits d ≡ some command.amount_usd)
    sent_amount none h = cc
    sent_amount (some d) h = (d, refl, h)
