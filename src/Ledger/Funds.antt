-- ===== src/Ledger/Funds.antt =====
-- app/ledger.py, app/models.py: bounds on the balances of the accounts, for the columns' ranges.
use netaro_settlement_router.Prelude.{
  nat_eq, ◌≡◌, ◌≢◌, refl, sym, ap, ◌∙◌, true, List, Memᴰ, arith, Bool-cases, inl, inr,
}
use netaro_settlement_router.Prelude.Int.{
  ℤ, pos, ◌+ℤ◌, ◌≤ℤ◌, int_laws, parts_of_eq, eq_of_parts, ltb_ℤ,
}
use netaro_settlement_router.Routing.Types.{usd, same_currency, same_currency_iff}
use netaro_settlement_router.Table.{mem_unique}
use netaro_settlement_router.Table.Sums.{sum_by, sum_by_add, sum_by_single, le-sum_by}
use netaro_settlement_router.Models.{
  Account, AccountClass, asset, liability, AccountPurpose, omnibus, account_id_of, identity_of,
}
use netaro_settlement_router.Database.{numeric_24}
use netaro_settlement_router.Ledger.Invariant.{IsLedger, class_of, net_weight, asset_weight}

-- A liability's USD balance, and 0 for an asset.
abbrev liability_weight : Account → ℤ
liability_weight a = net_weight a +ℤ asset_weight a

weights_nonneg :
    (a : Account) → pos 0 ≤ℤ a.balance → (pos 0 ≤ℤ liability_weight a) × (pos 0 ≤ℤ asset_weight a)
weights_nonneg a h = elim (Bool-cases (same_currency a.currency usd)) [
  | inl in_usd ↦ rw in_usd (by_case a.account_class a.balance h)
  | inr other ↦ rw other (omega int_laws)
]
  where
    by_case :
        (k : AccountClass) (b : ℤ)
        → pos 0 ≤ℤ b
        → (pos 0
            ≤ℤ net_weight (record a { currency = usd; account_class = k; balance = b })
              +ℤ asset_weight (record a { currency = usd; account_class = k; balance = b }))
          × (pos 0 ≤ℤ asset_weight (record a { currency = usd; account_class = k; balance = b }))
    by_case asset b p = omega int_laws
    by_case liability b p = omega int_laws

module _ {accounts : List Account} (led : IsLedger accounts) where
  liabilities-eq-assets : sum_by liability_weight accounts ≡ sum_by asset_weight accounts
  liabilities-eq-assets = eq_of_parts _ _ (
      omega (
        int_laws,
        parts_of_eq (sum_by_add net_weight asset_weight accounts),
        parts_of_eq led.balanced,
      ))

  module _ (a : Account) (m : Memᴰ a accounts) (in_usd : a.currency ≡ usd) where
    usd_test : same_currency a.currency usd ≡ true
    usd_test = rw in_usd

    liability_weight-eq : a.account_class ≡ liability → liability_weight a ≡ a.balance
    liability_weight-eq h = rw (usd_test, h) (omega int_laws)

    asset_weight-eq : a.account_class ≡ asset → asset_weight a ≡ a.balance
    asset_weight-eq h = rw (usd_test, h)

    -- A liability is covered by the assets.
    pub liability-le-assets :
        a.account_class ≡ liability → a.balance ≤ℤ sum_by asset_weight accounts
    liability-le-assets h = omega (
      int_laws,
      le-sum_by liability_weight accounts a (λ q n. (weights_nonneg q (led.nonneg q n)).0) m,
      parts_of_eq liabilities-eq-assets,
      parts_of_eq (liability_weight-eq h),
    )

    asset-le-assets : a.account_class ≡ asset → a.balance ≤ℤ sum_by asset_weight accounts
    asset-le-assets h = omega (
      int_laws,
      le-sum_by asset_weight accounts a (λ q n. (weights_nonneg q (led.nonneg q n)).1) m,
      parts_of_eq (asset_weight-eq h),
    )

    -- Every USD balance fits its column.
    pub balance_fits : ltb_ℤ a.balance (pos numeric_24) ≡ true
    balance_fits = by_case a.account_class refl
      where
        within : (b t m : ℤ) → b ≤ℤ t → ltb_ℤ t m ≡ true → ltb_ℤ b m ≡ true
        within b t m p q = ground arith

        by_case : (k : AccountClass) → a.account_class ≡ k → ltb_ℤ a.balance (pos numeric_24) ≡ true
        by_case asset h =
            within a.balance (sum_by asset_weight accounts) (pos numeric_24) (asset-le-assets h)
              led.bounded
        by_case liability h =
            within a.balance (sum_by asset_weight accounts) (pos numeric_24) (liability-le-assets h)
              led.bounded

  only_omnibus : (p : AccountPurpose) → class_of p ≡ asset → p ≡ omnibus
  only_omnibus p h = ground arith

  -- The omnibus account holds all the assets.
  pub omnibus-eq-assets :
      (c : Account)
      → Memᴰ c accounts
      → c.currency ≡ usd
      → c.purpose ≡ omnibus
      → sum_by asset_weight accounts ≡ c.balance
  omnibus-eq-assets c m in_usd is_omnibus =
      sum_by_single asset_weight account_id_of accounts led.ids others m
      ∙ asset_weight-eq c m in_usd (led.classes c m ∙ rw is_omnibus)
    where
      weightless :
          (q : Account) → (q.currency ≡ usd → q.account_class ≡ asset → ⊥) → asset_weight q ≡ pos 0
      weightless q no_asset = elim (Bool-cases (same_currency q.currency usd)) [
        | inl in_usd' ↦
            rw in_usd' (by_case q.account_class refl ((same_currency_iff _ _).0 in_usd'))
        | inr other ↦ rw other
      ]
        where
          by_case :
              (k : AccountClass)
              → q.account_class ≡ k
              → q.currency ≡ usd
              → asset_weight (record q { currency = usd; account_class = k }) ≡ pos 0
          by_case asset h u = absurd (no_asset u h)
          by_case liability h u = refl

      others : (q : Account) → Memᴰ q accounts → q.id ≢ c.id → asset_weight q ≡ pos 0
      others q n ne = weightless q (λ u k.
          let p = only_omnibus q.purpose (sym (led.classes q n) ∙ k) in
          ne (
            ap account_id_of (
              mem_unique identity_of accounts led.identities n m (
                cc (
                  u,
                  in_usd,
                  p,
                  is_omnibus,
                  led.omnibus_owner q n p,
                  led.omnibus_owner c m is_omnibus,
                )))))
