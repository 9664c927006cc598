-- ===== src/Ledger/Audit.antt =====
-- app/ledger.py: `assert_ledger_invariants`, in a session that has loaded no account yet. The totals are
-- computed row by row; a posting to no account is a KeyError.
pub mod Postings
use netaro_settlement_router.Prelude.{
  nat_eq, ℕ, ◌+◌, ◌≡◌, Bool, true, false, not, ◌&&◌, ◌==◌, List, Memᴰ, if◌then◌else◌, exists,
  exists_none, ltb, arith,
}
use netaro_settlement_router.Prelude.Int.{
  ℤ, pos, pos_part, neg_part, ◌-ℤ◌, ltb_ℤ, ◌≤ℤ◌, parts_of_eq,
}
use netaro_settlement_router.Table.Sums.{sum_by}
use netaro_settlement_router.Routing.Types.{Currency, same_currency}
use netaro_settlement_router.Models.{Account, AccountClass, Posting, PostingSide, debit, credit}
use netaro_settlement_router.Database.{
  Database, Error, assertion_failed, key_error, Result, ok, err,
}
use netaro_settlement_router.Ledger.{increases}

abbrev pub signed_amount : AccountClass → Posting → ℤ
signed_amount class p = if increases class p.side then pos p.amount else pos 0 -ℤ pos p.amount

-- What a posting adds to the expected balance of an account.
abbrev pub effect : Account → Posting → ℤ
effect a p = if p.account_id == a.id then signed_amount a.account_class p else pos 0

-- The sum is exact. The program adds Decimals in the default context, which rounds a partial sum of
-- more than 28 digits, that is of 10 ^ 20 dollars or more.
abbrev pub expected_balance : Account → List Posting → ℤ
expected_balance a = sum_by (effect a)

abbrev pub same_side : PostingSide → PostingSide → Bool
same_side debit debit = true
same_side credit credit = true
same_side _ _ = false

abbrev pub side_amount : PostingSide → ℕ → Currency → Posting → ℤ
side_amount side journal currency p =
    if p.journal_id == journal && (same_currency p.currency currency && same_side p.side side)
    then pos p.amount
    else pos 0

-- `journal_totals[(journal, currency)][side]`
abbrev pub side_total : PostingSide → ℕ → Currency → List Posting → ℤ
side_total side journal currency = sum_by (side_amount side journal currency)

abbrev pub eq_ℤ : ℤ → ℤ → Bool
eq_ℤ a b = pos_part a + neg_part b == pos_part b + neg_part a

abbrev has_account : List Account → Posting → Bool
has_account accounts p = exists (λ a. a.id == p.account_id) accounts

abbrev pub is_balanced : List Posting → Posting → Bool
is_balanced postings p =
    eq_ℤ (side_total debit p.journal_id p.currency postings)
      (side_total credit p.journal_id p.currency postings)

abbrev is_expected : List Posting → Account → Bool
is_expected postings a = eq_ℤ a.balance (expected_balance a postings)

unfoldable pub assert_ledger_invariants : Database → Result (Unit {0})
assert_ledger_invariants db =
    if exists (λ a. ltb_ℤ a.balance (pos 0)) db.accounts
    then err assertion_failed
    else if exists (λ p. not (has_account db.accounts p)) db.postings
    then err key_error
    else if exists (λ p. not (is_balanced db.postings p)) db.postings
    then err assertion_failed
    else if exists (λ a. not (is_expected db.postings a)) db.accounts
    then err assertion_failed
    else ok tt

-- The balances are those of the postings, and every journal is balanced in every currency.
pub record IsAudited (accounts : List Account) (postings : List Posting) : Type 0 where
  pub balances : (a : Account) → Memᴰ a accounts → a.balance ≡ expected_balance a postings
  pub balanced :
      (journal : ℕ) (currency : Currency)
      → side_total debit journal currency postings ≡ side_total credit journal currency postings
  pub accounted :
      (p : Posting) → Memᴰ p postings → exists (λ a. a.id == p.account_id) accounts ≡ true

pub eq_ℤ_of_eq : {a b : ℤ} → a ≡ b → not (eq_ℤ a b) ≡ false
eq_ℤ_of_eq {a} {b} h = same_numbers (parts_of_eq h)
  where
    same_numbers : {n m : ℕ} → n ≡ m → not (n == m) ≡ false
    same_numbers p = ground arith

nonneg_test : (a : ℤ) → pos 0 ≤ℤ a → ltb_ℤ a (pos 0) ≡ false
nonneg_test a h = ground arith

pub audit-passes :
    (db : Database)
    → IsAudited db.accounts db.postings
    → ((a : Account) → Memᴰ a db.accounts → pos 0 ≤ℤ a.balance)
    → assert_ledger_invariants db ≡ ok tt
unfolding assert_ledger_invariants
audit-passes db h nonneg =
    rw
      (exists_none (λ a. ltb_ℤ a.balance (pos 0)) db.accounts
        (λ a m. nonneg_test a.balance (nonneg a m)))
      (rw
        (exists_none (λ p. not (has_account db.accounts p)) db.postings
          (λ p m. rw (h.accounted p m)))
        (rw
          (exists_none (λ p. not (is_balanced db.postings p)) db.postings
            (λ p m. eq_ℤ_of_eq (h.balanced p.journal_id p.currency)))
          (rw (
            exists_none (λ a. not (is_expected db.postings a)) db.accounts
              (λ a m. eq_ℤ_of_eq (h.balances a m))))))
