-- ===== src/Ledger/Payable.antt =====
-- app/ledger.py: when a reservation can be consumed or released.
use netaro_settlement_router.Prelude.{
  nat_eq, ℕ, ◌≡◌, ◌≢◌, ◌<◌, refl, sym, ◌∙◌, true, false, ◌==◌, some, List, [], ◌∷◌, Memᴰ, arith,
  eq_iff, exists,
}
use netaro_settlement_router.Prelude.Int.{pos, ◌+ℤ◌, ◌-ℤ◌, ◌≤ℤ◌, int_laws, parts_of_eq}
use netaro_settlement_router.Routing.Types.{usd}
use netaro_settlement_router.Table.{replace}
use netaro_settlement_router.Table.Updates.{mem-replace_self, mem-replace_ne}
use netaro_settlement_router.Models.{
  Account, asset, liability, AccountPurpose, omnibus, AccountKey, debit, credit, Settlement,
  JournalEvent, account_id_of, same_purpose,
}
use netaro_settlement_router.Database.{Database, ok, numeric_24}
use netaro_settlement_router.Ledger.{
  has_key, moved_balance, moved, get_account, locked_rows, locked_accounts, account_pair,
  same_settlement_event,
}
use netaro_settlement_router.Ledger.Locking.{locked_rows-found}
use netaro_settlement_router.Ledger.Invariant.{IsLedger, shifted, shifted-IsLedger, ids_differ}
use netaro_settlement_router.Ledger.Funds.{liability-le-assets, omnibus-eq-assets, balance_fits}
use netaro_settlement_router.Ledger.Movement.{IsPostable, journal_of}

same_purpose_refl : (p : AccountPurpose) → same_purpose p p ≡ true
same_purpose_refl p = ground arith

pub has_key_self : (a : Account) → has_key (a.owner_id, a.purpose) a ≡ true
has_key_self a = rw ((eq_iff a.owner_id a.owner_id).1 refl) (same_purpose_refl a.purpose)

pair_of_locked :
    (db : Database) (dk ck : AccountKey) (d c : Account)
    → get_account dk (locked_rows (dk ∷ ck ∷ []) db.accounts) ≡ some d
    → get_account ck (locked_rows (dk ∷ ck ∷ []) db.accounts) ≡ some c
    → account_pair dk ck db ≡ ok (d, c)
unfolding account_pair locked_accounts
pair_of_locked db dk ck d c found_d found_c = ground arith

-- Two accounts in USD are found and locked by their keys.
pub account_pair_total :
    (db : Database) (d c : Account)
    → Memᴰ d db.accounts
    → Memᴰ c db.accounts
    → d.currency ≡ usd
    → c.currency ≡ usd
    → (d' c' : Account) × (account_pair (d.owner_id, d.purpose) (c.owner_id, c.purpose) db
        ≡ ok (d', c'))
account_pair_total db d c md mc ud uc =
    let keys : List AccountKey = (d.owner_id, d.purpose) ∷ (c.owner_id, c.purpose) ∷ [] in
    let (d', found_d) =
      locked_rows-found keys db.accounts (d.owner_id, d.purpose) (Memᴰ.head refl) md ud
        (has_key_self d) in
    let (c', found_c) =
      locked_rows-found keys db.accounts (c.owner_id, c.purpose) (Memᴰ.tail (Memᴰ.head refl)) mc uc
        (has_key_self c) in
    (
      d',
      c',
      pair_of_locked db (d.owner_id, d.purpose) (c.owner_id, c.purpose) d' c' found_d found_c,
    )

moved_debit :
    (a : Account) (n : ℕ)
    → a.account_class ≡ liability
    → moved_balance a debit n ≡ a.balance -ℤ pos n
unfolding moved_balance
moved_debit a n h = rw h

moved_credit_liability :
    (a : Account) (n : ℕ)
    → a.account_class ≡ liability
    → moved_balance a credit n ≡ a.balance +ℤ pos n
unfolding moved_balance
moved_credit_liability a n h = rw h

moved_credit_asset :
    (a : Account) (n : ℕ) → a.account_class ≡ asset → moved_balance a credit n ≡ a.balance -ℤ pos n
unfolding moved_balance
moved_credit_asset a n h = rw h

module _ (s : Settlement) (event : JournalEvent) (jid : ℕ) (db : Database)
    (led : IsLedger db.accounts) (d c : Account) (md : Memᴰ d db.accounts) (mc : Memᴰ c db.accounts)
    (ud : d.currency ≡ usd) (uc : c.currency ≡ usd) (pd : d.purpose ≡ AccountPurpose.reserved)
    (pc : c.purpose ≢ AccountPurpose.reserved) (covered : pos s.amount_usd ≤ℤ d.balance) where
  d_liability : d.account_class ≡ liability
  d_liability = led.classes d md ∙ rw pd

  -- The credited account does not fall below zero: if it is the omnibus account, it holds at least
  -- what the debited one holds.
  credit_nonneg : pos 0 ≤ℤ moved_balance c credit s.amount_usd
  credit_nonneg = by_purpose c.purpose refl
    where
      by_liability : c.account_class ≡ liability → pos 0 ≤ℤ moved_balance c credit s.amount_usd
      by_liability h =
          omega (int_laws, parts_of_eq (moved_credit_liability c s.amount_usd h), led.nonneg c mc)

      by_purpose :
          (p : AccountPurpose) → c.purpose ≡ p → pos 0 ≤ℤ moved_balance c credit s.amount_usd
      by_purpose omnibus h = omega (
        int_laws,
        parts_of_eq (moved_credit_asset c s.amount_usd (led.classes c mc ∙ rw h)),
        parts_of_eq (omnibus-eq-assets led c mc uc h),
        liability-le-assets led d md ud d_liability,
      )
      by_purpose AccountPurpose.reserved h = by_liability (led.classes c mc ∙ rw h)
      by_purpose AccountPurpose.available h = by_liability (led.classes c mc ∙ rw h)

  debit_nonneg : pos 0 ≤ℤ moved_balance d debit s.amount_usd
  debit_nonneg = omega (int_laws, parts_of_eq (moved_debit d s.amount_usd d_liability))

  ne : d.id ≢ c.id
  ne = ids_differ db.accounts d c led.ids md mc (λ h. pc (sym h ∙ pd))

  after : IsLedger (shifted db.accounts d c s.amount_usd)
  after =
      shifted-IsLedger db.accounts d c s.amount_usd led md mc ud uc ne d_liability debit_nonneg
        credit_nonneg

  c_there : Memᴰ c (replace account_id_of (moved d debit s.amount_usd) db.accounts)
  c_there =
      mem-replace_ne account_id_of (moved d debit s.amount_usd) db.accounts mc (λ p. ne (sym p))

  pub movement-IsPostable :
      0 < s.amount_usd
      → s.amount_usd < numeric_24
      → exists (λ k. k.id == jid) db.journals ≡ false
      → exists (same_settlement_event (journal_of s event jid)) db.journals ≡ false
      → IsPostable s event jid d c db
  movement-IsPostable positive fits fresh first = record {
    covered = covered;
    debit_nonneg = debit_nonneg;
    credit_nonneg = credit_nonneg;
    debit_fits =
        balance_fits after (moved d debit s.amount_usd)
          (mem-replace_ne account_id_of (moved c credit s.amount_usd) _
            (mem-replace_self account_id_of (moved d debit s.amount_usd) db.accounts md refl) ne)
          ud;
    credit_fits =
        balance_fits after (moved c credit s.amount_usd)
          (mem-replace_self account_id_of (moved c credit s.amount_usd) _ c_there refl) uc;
    positive = positive;
    amount_fits = fits;
    fresh_journal = fresh;
    first_event = first;
  }
