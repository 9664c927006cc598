-- ===== src/Seed.antt =====
-- app/seed.py: the accounts and the opening balance of a demonstration, and the check of those that
-- are there already. The ids that `uuid4()` gives the new rows are arguments. The amount is in units
-- of the eighth decimal place; the environment's text for it is not modelled.
pub mod Validation
pub mod Opening
pub mod Kept
pub mod Existing
pub mod Runs
use netaro_settlement_router.Prelude.{
  nat_eq, ℕ, String, Bool, true, false, not, ◌&&◌, ◌||◌, Option, none, some, List, [], ◌∷◌, ◌++◌,
  map, str_eq, ◌==◌, ltb, if◌then◌else◌, exists, select, ◌≡◌, ◌↔◌, arith, eq_iff, Eq,
}
use netaro_settlement_router.Prelude.Text.{text_lt}
use netaro_settlement_router.Prelude.Int.{pos}
use netaro_settlement_router.Routing.{currency_value}
use netaro_settlement_router.Routing.Types.{Currency, usd, usdc, same_currency}
use netaro_settlement_router.Table.{replace}
use netaro_settlement_router.Models.{
  Account, AccountClass, asset, liability, AccountPurpose, omnibus, PostingSide, debit, credit,
  JournalEvent, opening, JournalTransaction, Posting, AccountIdentity, identity_of, same_purpose,
  same_event, journal_id_of,
}
use netaro_settlement_router.Database.{
  Database, Constraint, primary_key, account_identity, Error, assertion_failed, runtime_error,
  key_error, integrity, Result, ok, err, Session, pure, raise, reads, lift, or_raise, writes,
  raise_if, transaction, ◌>>=◌, ◌>>◌,
}
use netaro_settlement_router.Ledger.{
  moved, apply_posting, insert_journal, insert_posting, update_account, posting_of,
}
use netaro_settlement_router.Ledger.Audit.{assert_ledger_invariants, same_side}

unfoldable pub same_identity : AccountIdentity → AccountIdentity → Bool
same_identity (o, c, p) (q, d, r) = same_purpose p r && (same_currency c d && str_eq o q)

-- The rows of the dictionary that a key selects: of two rows with one key the later is kept.
abbrev pub account_at : AccountIdentity → List Account → Option Account
account_at key [] = none
account_at key (a ∷ rows) = elim (account_at key rows) [
  | some b ↦ some b
  | none ↦ if same_identity (identity_of a) key then some a else none
]

abbrev pub is_at : List Account → AccountIdentity → Bool
is_at rows key = elim (account_at key rows) [ none ↦ false | some a ↦ true ]

abbrev pub customer_keys : String → List AccountIdentity
customer_keys owner_id =
    (owner_id, usd, AccountPurpose.available) ∷ (owner_id, usd, AccountPurpose.reserved) ∷ []

-- `_seed_account_keys`
abbrev pub seed_account_keys : String → List AccountIdentity
seed_account_keys owner_id =
    (owner_id, usd, AccountPurpose.available)
    ∷ (owner_id, usd, AccountPurpose.reserved)
    ∷ ("system", usd, omnibus)
    ∷ ("system", usdc, omnibus)
    ∷ []

-- `_load_seed_accounts`
unfoldable pub load_seed_accounts : String → Database → List Account
load_seed_accounts owner_id db =
    select (λ a. exists (same_identity (identity_of a)) (seed_account_keys owner_id)) db.accounts

abbrev pub is_class : AccountClass → Account → Bool
is_class class a = elim a.account_class [
  | asset ↦ elim class [ asset ↦ true | liability ↦ false ]
  | liability ↦ elim class [ asset ↦ false | liability ↦ true ]
]

-- The tuples that the check sorts and compares: account, currency, side and amount.
abbrev pub PostingRow : Type 0
PostingRow = ℕ × Currency × PostingSide × ℕ

abbrev pub row_of : Posting → PostingRow
row_of p = (p.account_id, p.currency, p.side, p.amount)

abbrev side_value : PostingSide → String
side_value debit = "DEBIT"
side_value credit = "CREDIT"

abbrev pub row_lt : PostingRow → PostingRow → Bool
row_lt (a, c, s, n) (b, d, t, m) =
    ltb a b
    || (a == b
        && (text_lt (currency_value c) (currency_value d)
            || (same_currency c d
                && (text_lt (side_value s) (side_value t) || (same_side s t && ltb n m)))))

abbrev pub same_row : PostingRow → PostingRow → Bool
same_row (a, c, s, n) (b, d, t, m) = a == b && (same_currency c d && (same_side s t && n == m))

abbrev pub same_rows : List PostingRow → List PostingRow → Bool
same_rows [] [] = true
same_rows (x ∷ xs) (y ∷ ys) = same_row x y && same_rows xs ys
same_rows _ _ = false

pub insert_row : PostingRow → List PostingRow → List PostingRow
insert_row x [] = x ∷ []
insert_row x (y ∷ rows) =
    let rest = insert_row x rows in if row_lt y x then y ∷ rest else x ∷ y ∷ rows

unfoldable pub sorted_rows : List PostingRow → List PostingRow
unfolding insert_row
sorted_rows [] = []
sorted_rows (x ∷ rows) = insert_row x (sorted_rows rows)

-- The opening entry that the seed expects.
abbrev pub expected_rows : Account → Account → ℕ → List PostingRow
expected_rows omnibus_usd available amount =
    (omnibus_usd.id, usd, debit, amount) ∷ (available.id, usd, credit, amount) ∷ []

abbrev pub postings_of : ℕ → List Posting → List Posting
postings_of journal_id = select (λ p. p.journal_id == journal_id)

-- WHERE event = OPENING AND settlement_id IS NULL
abbrev pub is_opening : JournalTransaction → Bool
is_opening j = same_event j.event opening && elim j.settlement_id [ none ↦ true | some i ↦ false ]

abbrev pub only : List JournalTransaction → Result JournalTransaction
only (j ∷ []) = ok j
only _ = err runtime_error

-- `except AssertionError: raise RuntimeError`
abbrev pub as_runtime_error : Result (Unit {0}) → Result (Unit {0})
as_runtime_error (err assertion_failed) = err runtime_error
as_runtime_error r = r

-- `_validate_existing_seed`. Its session has written nothing that is not flushed, so the audit reads
-- the tables as they are.
unfoldable pub validate_existing_seed : String → ℕ → List Account → Session (Unit {0})
unfolding sorted_rows
validate_existing_seed owner_id amount accounts = do
  raise_if (exists (λ key. not (is_at accounts key)) (seed_account_keys owner_id)) runtime_error
  available ←
      lift (or_raise (account_at (owner_id, usd, AccountPurpose.available) accounts) key_error)
  reserved ←
      lift (or_raise (account_at (owner_id, usd, AccountPurpose.reserved) accounts) key_error)
  omnibus_usd ← lift (or_raise (account_at ("system", usd, omnibus) accounts) key_error)
  omnibus_usdc ← lift (or_raise (account_at ("system", usdc, omnibus) accounts) key_error)
  raise_if
      (not (
        is_class liability available
        && (is_class liability reserved
            && (is_class asset omnibus_usd && is_class asset omnibus_usdc))))
      runtime_error
  journal ← reads (λ db. only (select is_opening db.journals))
  postings ← reads (λ db. ok (postings_of journal.id db.postings))
  raise_if
      (not (
        same_rows (sorted_rows (map row_of postings))
          (sorted_rows (expected_rows omnibus_usd available amount))))
      runtime_error
  reads (λ db. as_runtime_error (assert_ledger_invariants db))

pub record SeedIds : Type 0 where
  pub omnibus_usd : ℕ
  pub omnibus_usdc : ℕ
  pub available : ℕ
  pub reserved : ℕ
  pub journal : ℕ

-- INSERT INTO accounts: the primary key, and UNIQUE (owner_id, currency, purpose).
unfoldable pub insert_account : Account → Session (Unit {0})
insert_account account db =
    (raise_if (exists (λ a. a.id == account.id) db.accounts) (integrity primary_key)
        >> raise_if (exists (λ a. same_identity (identity_of a) (identity_of account)) db.accounts)
            (integrity account_identity)
        >> writes (λ d. record d { accounts = d.accounts ++ account ∷ [] }))
      db

abbrev pub new_account : ℕ → AccountIdentity → AccountClass → Account
new_account id (owner_id, currency, purpose) class = record {
  id = id;
  owner_id = owner_id;
  currency = currency;
  account_class = class;
  purpose = purpose;
  balance = pos 0;
}

abbrev pub opening_journal : ℕ → JournalTransaction
opening_journal id = record { id = id; settlement_id = none; event = opening; is_posted = true }

abbrev pub is_empty : List Account → Bool
is_empty [] = true
is_empty (a ∷ rows) = false

-- The opening entry, and the balances that it leaves.
unfoldable pub open_balances : SeedIds → Account → Account → ℕ → Session (Unit {0})
open_balances ids omnibus_usd available amount = do
  insert_journal (record (opening_journal ids.journal) { is_posted = false })
  debited ← lift (apply_posting omnibus_usd debit amount)
  credited ← lift (apply_posting available credit amount)
  insert_posting (posting_of ids.journal omnibus_usd debit amount)
  insert_posting (posting_of ids.journal available credit amount)
  update_account debited
  update_account credited
  writes
      (λ d. record d { journals = replace journal_id_of (opening_journal ids.journal) d.journals })

-- The part of `seed_demo_accounts` that creates the rows, where no seed is there.
unfoldable pub create_seed : SeedIds → String → ℕ → List Account → Session (Unit {0})
create_seed ids owner_id amount accounts = do
  opened ← reads (λ db. ok (exists (λ j. same_event j.event opening) db.journals))
  raise_if (not (is_empty accounts) || opened) runtime_error
  let omnibus_usd = new_account ids.omnibus_usd ("system", usd, omnibus) asset
  let available = new_account ids.available (owner_id, usd, AccountPurpose.available) liability
  insert_account omnibus_usd
  insert_account (new_account ids.omnibus_usdc ("system", usdc, omnibus) asset)
  insert_account available
  insert_account (new_account ids.reserved (owner_id, usd, AccountPurpose.reserved) liability)
  open_balances ids omnibus_usd available amount
  created ← reads (λ db. ok (load_seed_accounts owner_id db))
  validate_existing_seed owner_id amount created

-- `seed_demo_accounts`. The advisory lock keeps another seed out until the transaction ends.
unfoldable pub seed_demo_accounts : SeedIds → String → ℕ → Session (Unit {0})
seed_demo_accounts ids owner_id amount = do
  accounts ← reads (λ db. ok (load_seed_accounts owner_id db))
  if exists (λ key. not (is_at accounts key)) (customer_keys owner_id)
      then create_seed ids owner_id amount accounts
      else validate_existing_seed owner_id amount accounts

-- `main`
unfoldable pub seed : SeedIds → String → ℕ → Session (Unit {0})
seed ids owner_id amount = transaction (seed_demo_accounts ids owner_id amount)
