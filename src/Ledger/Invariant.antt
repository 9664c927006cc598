-- ===== src/Ledger/Invariant.antt =====
-- app/ledger.py: the accounts between two transactions, and a movement's two updates of them.
use native.Mathlib.Decide.{ℕ_discrete}
use netaro_settlement_router.Prelude.{
  nat_eq, ℕ, ◌≡◌, ◌≢◌, refl, sym, ap, inl, inr, String, Bool, true, false, List, Memᴰ, arith,
  eq_iff, if◌then◌else◌, ◌⊎◌,
}
use netaro_settlement_router.Prelude.Int.{
  ℤ, pos, ◌+ℤ◌, ◌-ℤ◌, ◌≤ℤ◌, int_laws, parts_of_eq, eq_of_parts, ltb_ℤ,
}
use netaro_settlement_router.Routing.Types.{usd, same_currency}
use netaro_settlement_router.Table.{replace, Distinct, mem_unique}
use netaro_settlement_router.Table.Updates.{
  mem-replace, mem-replace_self, mem-replace_ne, Distinct-replace,
}
use netaro_settlement_router.Table.Sums.{sum_by, sum_by-replace}
use netaro_settlement_router.Models.{
  Account, AccountClass, asset, liability, AccountPurpose, omnibus, debit, credit, account_id_of,
  identity_of, same_purpose,
}
use netaro_settlement_router.Database.{numeric_24}
use netaro_settlement_router.Ledger.{has_key, moved_balance, moved}

-- An omnibus account is an asset; what customers hold are liabilities.
abbrev pub class_of : AccountPurpose → AccountClass
class_of omnibus = asset
class_of _ = liability

abbrev by_class : AccountClass → ℤ → ℤ
by_class asset b = pos 0 -ℤ b
by_class liability b = b

-- A USD balance by its side of the books: liabilities less assets.
abbrev pub net_weight : Account → ℤ
net_weight a = if same_currency a.currency usd then by_class a.account_class a.balance else pos 0

abbrev by_asset : AccountClass → ℤ → ℤ
by_asset asset b = b
by_asset liability b = pos 0

abbrev pub asset_weight : Account → ℤ
asset_weight a = if same_currency a.currency usd then by_asset a.account_class a.balance else pos 0

pub record IsLedger (accounts : List Account) : Type 0 where
  pub ids : Distinct account_id_of accounts
  pub identities : Distinct identity_of accounts
  pub nonneg : (a : Account) → Memᴰ a accounts → pos 0 ≤ℤ a.balance
  pub classes : (a : Account) → Memᴰ a accounts → a.account_class ≡ class_of a.purpose
  pub omnibus_owner : (a : Account) → Memᴰ a accounts → a.purpose ≡ omnibus → a.owner_id ≡ "system"
  -- assets and liabilities are equal
  pub balanced : sum_by net_weight accounts ≡ pos 0
  -- the money in the system fits a column
  pub bounded : ltb_ℤ (sum_by asset_weight accounts) (pos numeric_24) ≡ true

pub same_purpose→eq : (p q : AccountPurpose) → same_purpose p q ≡ true → p ≡ q
same_purpose→eq p q h = ground arith

pub has_key-eq :
    (o : String) (p : AccountPurpose) (a : Account)
    → has_key (o, p) a ≡ true
    → (a.owner_id ≡ o) × (a.purpose ≡ p)
has_key-eq o p a h = ground (arith, eq_iff a.owner_id o, same_purpose→eq a.purpose p)

-- Rows that are held for two purposes of a key are two rows.
pub ids_differ :
    (accounts : List Account) (d c : Account)
    → Distinct account_id_of accounts
    → Memᴰ d accounts
    → Memᴰ c accounts
    → d.purpose ≢ c.purpose
    → d.id ≢ c.id
ids_differ accounts d c ids md mc ne p =
    ne (ap (λ (a : Account). a.purpose) (mem_unique account_id_of accounts ids md mc p))

module _ (a : Account) (n : ℕ) (in_usd : a.currency ≡ usd) where
  usd_test : same_currency a.currency usd ≡ true
  usd_test = rw in_usd

  pub net_weight-debit : net_weight (moved a debit n) ≡ net_weight a -ℤ pos n
  unfolding moved_balance
  net_weight-debit = rw usd_test (by_class_debit a.account_class a.balance)
    where
      by_class_debit :
          (k : AccountClass) (b : ℤ)
          → by_class k (moved_balance (record a { account_class = k; balance = b }) debit n)
            ≡ by_class k b -ℤ pos n
      by_class_debit asset b = omega int_laws
      by_class_debit liability b = omega int_laws

  pub net_weight-credit : net_weight (moved a credit n) ≡ net_weight a +ℤ pos n
  unfolding moved_balance
  net_weight-credit = rw usd_test (by_class_credit a.account_class a.balance)
    where
      by_class_credit :
          (k : AccountClass) (b : ℤ)
          → by_class k (moved_balance (record a { account_class = k; balance = b }) credit n)
            ≡ by_class k b +ℤ pos n
      by_class_credit asset b = omega int_laws
      by_class_credit liability b = omega int_laws

-- The two rows of a movement, and the tables after each of its two updates.
module _ (accounts : List Account) (d c : Account) (n : ℕ) where
  abbrev pub shifted : List Account
  shifted =
      replace account_id_of (moved c credit n) (replace account_id_of (moved d debit n) accounts)

asset_weight-credit : (a : Account) (n : ℕ) → asset_weight (moved a credit n) ≤ℤ asset_weight a
unfolding moved_balance
asset_weight-credit a n = in_currency (same_currency a.currency usd)
  where
    weigh :
        (k : AccountClass) (b : ℤ)
        → by_asset k (moved_balance (record a { account_class = k; balance = b }) credit n)
          ≤ℤ by_asset k b
    weigh asset b = omega int_laws
    weigh liability b = omega int_laws

    in_currency :
        (t : Bool)
        → (if t then by_asset a.account_class (moved a credit n).balance else pos 0)
          ≤ℤ (if t then by_asset a.account_class a.balance else pos 0)
    in_currency true = weigh a.account_class a.balance
    in_currency false = omega arith

asset_weight-liability :
    (a : Account) (b : ℤ)
    → a.account_class ≡ liability
    → asset_weight (record a { balance = b }) ≡ pos 0
asset_weight-liability a b h = ground arith

-- A movement between two accounts in USD, the debited one a liability, both left at zero or more.
module _ (accounts : List Account) (d c : Account) (n : ℕ) (led : IsLedger accounts)
    (md : Memᴰ d accounts) (mc : Memᴰ c accounts) (ud : d.currency ≡ usd) (uc : c.currency ≡ usd)
    (ne : d.id ≢ c.id) where
  c_in : Memᴰ c (replace account_id_of (moved d debit n) accounts)
  c_in = mem-replace_ne account_id_of (moved d debit n) accounts mc (λ p. ne (sym p))

  pub shifted-mem :
      {a : Account}
      → Memᴰ a (shifted accounts d c n)
      → (a ≡ moved c credit n)
        ⊎ ((a ≡ moved d debit n) ⊎ (Memᴰ a accounts × (a.id ≢ d.id) × (a.id ≢ c.id)))
  shifted-mem m = elim (mem-replace account_id_of (moved c credit n) _ m) [
    | inl p ↦ inl p
    | inr (m₁, nc) ↦ elim (mem-replace account_id_of (moved d debit n) accounts m₁) [
      | inl p ↦ inr (inl p)
      | inr (m₀, nd) ↦ inr (inr (m₀, nd, nc))
    ]
  ]

  -- Every account is still there, under its id and identity.
  pub mem-shifted :
      {a : Account}
      → Memᴰ a accounts
      → (b : Account) × Memᴰ b (shifted accounts d c n)
        × (identity_of b ≡ identity_of a)
        × (b.id ≡ a.id)
  mem-shifted {a} m = elim (ℕ_discrete a.id c.id) [
    | yes p ↦ (
      moved c credit n,
      mem-replace_self account_id_of (moved c credit n) _ c_in refl,
      ap identity_of (mem_unique account_id_of accounts led.ids mc m (sym p)),
      sym p,
    )
    | no p ↦ elim (ℕ_discrete a.id d.id) [
      | yes q ↦ (
        moved d debit n,
        mem-replace_ne account_id_of (moved c credit n) _
            (mem-replace_self account_id_of (moved d debit n) accounts md refl) ne,
        ap identity_of (mem_unique account_id_of accounts led.ids md m (sym q)),
        sym q,
      )
      | no q ↦ (
        a,
        mem-replace_ne account_id_of (moved c credit n) _
            (mem-replace_ne account_id_of (moved d debit n) accounts m q) p,
        refl,
        refl,
      )
    ]
  ]

  ids₁ : Distinct account_id_of (replace account_id_of (moved d debit n) accounts)
  ids₁ =
      Distinct-replace account_id_of account_id_of (moved d debit n) accounts (λ r m p. p) led.ids

  shifted-ids : Distinct account_id_of (shifted accounts d c n)
  shifted-ids = Distinct-replace account_id_of account_id_of (moved c credit n) _ (λ r m p. p) ids₁

  shifted-identities : Distinct identity_of (shifted accounts d c n)
  shifted-identities =
      Distinct-replace account_id_of identity_of (moved c credit n) _
        (λ r m p. ap identity_of (mem_unique account_id_of _ ids₁ m c_in p))
        (Distinct-replace account_id_of identity_of (moved d debit n) accounts
          (λ r m p. ap identity_of (mem_unique account_id_of accounts led.ids m md p))
          led.identities)

  module _ (w : Account → ℤ) where
    -- What the two updates do to a sum over the rows.
    pub sum_by-shifted :
        sum_by w (shifted accounts d c n) +ℤ w c +ℤ w d
        ≡ sum_by w accounts +ℤ w (moved c credit n) +ℤ w (moved d debit n)
    sum_by-shifted = eq_of_parts _ _ (
        omega (
          int_laws,
          parts_of_eq (sum_by-replace w account_id_of (moved c credit n) _ ids₁ c_in refl),
          parts_of_eq (sum_by-replace w account_id_of (moved d debit n) accounts led.ids md refl),
        ))

  shifted-balanced : sum_by net_weight (shifted accounts d c n) ≡ pos 0
  shifted-balanced = eq_of_parts _ _ (
      omega (
        int_laws,
        parts_of_eq (sum_by-shifted net_weight),
        parts_of_eq led.balanced,
        parts_of_eq (net_weight-debit d n ud),
        parts_of_eq (net_weight-credit c n uc),
      ))

  module _ (liab : d.account_class ≡ liability) (nd : pos 0 ≤ℤ moved_balance d debit n)
      (nc : pos 0 ≤ℤ moved_balance c credit n) where
    shifted-bounded : ltb_ℤ (sum_by asset_weight (shifted accounts d c n)) (pos numeric_24) ≡ true
    shifted-bounded =
        less (sum_by asset_weight accounts) (sum_by asset_weight (shifted accounts d c n))
          (pos numeric_24) led.bounded
          (omega (
            int_laws,
            parts_of_eq (sum_by-shifted asset_weight),
            asset_weight-credit c n,
            parts_of_eq (asset_weight-liability d d.balance liab),
            parts_of_eq (asset_weight-liability d (moved_balance d debit n) liab),
          ))
      where
        less : (a b m : ℤ) → ltb_ℤ a m ≡ true → b ≤ℤ a → ltb_ℤ b m ≡ true
        less a b m h k = ground arith

    -- The invariant is kept.
    pub shifted-IsLedger : IsLedger (shifted accounts d c n)
    shifted-IsLedger = record {
      ids = shifted-ids;
      identities = shifted-identities;
      nonneg = λ a m. elim (shifted-mem m) [
        | inl p ↦ rw p nc
        | inr (inl p) ↦ rw p nd
        | inr (inr (old, _, _)) ↦ led.nonneg a old
      ];
      classes = λ a m. elim (shifted-mem m) [
        | inl p ↦ rw p (led.classes c mc)
        | inr (inl p) ↦ rw p (led.classes d md)
        | inr (inr (old, _, _)) ↦ led.classes a old
      ];
      omnibus_owner = λ a m. elim (shifted-mem m) [
        | inl p ↦ rw p (led.omnibus_owner c mc)
        | inr (inl p) ↦ rw p (led.omnibus_owner d md)
        | inr (inr (old, _, _)) ↦ led.omnibus_owner a old
      ];
      balanced = shifted-balanced;
      bounded = shifted-bounded;
    }
