-- ===== src/Ledger.antt =====
-- app/ledger.py: postings, account locks, and the three movements of a settlement's amount.
pub mod Locking
pub mod Movement
pub mod Invariant
pub mod Funds
pub mod Payable
pub mod Audit
use netaro_settlement_router.Prelude.{
  nat_eq, ℕ, String, Bool, true, false, ◌&&◌, ◌||◌, not, Option, none, some, List, [], ◌∷◌, ◌++◌,
  str_eq, ◌==◌, ltb, leb, if◌then◌else◌, exists, select,
}
use netaro_settlement_router.Prelude.Int.{ℤ, pos, ◌+ℤ◌, ◌-ℤ◌, ltb_ℤ, leb_ℤ}
use netaro_settlement_router.Routing.Types.{usd, same_currency}
use netaro_settlement_router.Table.{lookup, replace}
use netaro_settlement_router.Models.{
  Account, AccountClass, asset, liability, AccountPurpose, available, omnibus, PostingSide, debit,
  credit, JournalEvent, JournalTransaction, Posting, Settlement, AccountKey, same_purpose,
  same_event, account_id_of, journal_id_of,
}
use netaro_settlement_router.Database.{
  Database, Constraint, primary_key, settlement_event, check, Error, insufficient_funds,
  missing_account, numeric_overflow, integrity, Result, ok, err, Session, pure, raise, reads, lift,
  or_raise, writes, raise_if, ◌>>=◌, ◌>>◌, numeric_24,
}

-- Debits increase assets, and credits increase liabilities.
abbrev pub increases : AccountClass → PostingSide → Bool
increases asset debit = true
increases liability credit = true
increases _ _ = false

-- `account.balance += amount if increases else -amount`. The Python object keeps the new balance when the call raises; its transaction is rolled back then.
unfoldable pub moved_balance : Account → PostingSide → ℕ → ℤ
moved_balance account side amount =
    if increases account.account_class side
    then account.balance +ℤ pos amount
    else account.balance -ℤ pos amount

abbrev pub moved : Account → PostingSide → ℕ → Account
moved account side amount = record account { balance = moved_balance account side amount }

unfoldable pub apply_posting : Account → PostingSide → ℕ → Result Account
apply_posting account side amount =
    if ltb_ℤ (moved_balance account side amount) (pos 0)
    then err insufficient_funds
    else ok (moved account side amount)

abbrev pub has_key : AccountKey → Account → Bool
has_key (owner_id, purpose) account =
    str_eq account.owner_id owner_id && same_purpose account.purpose purpose

-- ORDER BY accounts.id, by insertion.
unfoldable pub insert_by_id : Account → List Account → List Account
insert_by_id a [] = a ∷ []
insert_by_id a (b ∷ rows) =
    let rest = insert_by_id a rows in if leb a.id b.id then a ∷ b ∷ rows else b ∷ rest

unfoldable pub order_by_id : List Account → List Account
unfolding insert_by_id
order_by_id [] = []
order_by_id (a ∷ rows) = insert_by_id a (order_by_id rows)

-- `{(account.owner_id, account.purpose): account for account in accounts}[key]`: of two rows with
-- one key the later is kept.
abbrev pub get_account : AccountKey → List Account → Option Account
get_account key [] = none
get_account key (a ∷ rows) = elim (get_account key rows) [
  | some b ↦ some b
  | none ↦ if has_key key a then some a else none
]

abbrev pub selected : List AccountKey → Account → Bool
selected keys a = same_currency a.currency usd && exists (λ key. has_key key a) keys

-- The rows of SELECT ... FOR UPDATE, in the order in which they are locked.
unfoldable pub locked_rows : List AccountKey → List Account → List Account
unfolding order_by_id
locked_rows keys accounts = order_by_id (select (selected keys) accounts)

abbrev is_missing : List Account → AccountKey → Bool
is_missing rows key = elim (get_account key rows) [ none ↦ true | some a ↦ false ]

-- Every selected row has one of the keys, so the sets differ exactly if a key has no row.
unfoldable pub locked_accounts : List AccountKey → Database → Result (List Account)
unfolding locked_rows
locked_accounts keys db =
    let rows = locked_rows keys db.accounts in
    if exists (is_missing rows) keys then err missing_account else ok rows

abbrev same_settlement : Option ℕ → Option ℕ → Bool
same_settlement (some i) (some j) = i == j
same_settlement _ _ = false

-- The partial unique index over (settlement_id, event).
abbrev pub same_settlement_event : JournalTransaction → JournalTransaction → Bool
same_settlement_event j k =
    same_settlement j.settlement_id k.settlement_id && same_event j.event k.event

unfoldable pub insert_journal : JournalTransaction → Session (Unit {0})
insert_journal journal db =
    (raise_if (exists (λ k. k.id == journal.id) db.journals) (integrity primary_key)
        >> raise_if (exists (same_settlement_event journal) db.journals)
            (integrity settlement_event)
        >> writes (λ d. record d { journals = d.journals ++ journal ∷ [] }))
      db

-- CHECK (amount > 0), and the column's range.
unfoldable pub insert_posting : Posting → Session (Unit {0})
insert_posting posting = do
  raise_if (leb numeric_24 posting.amount) numeric_overflow
  raise_if (posting.amount == 0) (integrity check)
  writes (λ d. record d { postings = d.postings ++ posting ∷ [] })

-- UPDATE accounts SET balance: CHECK (balance >= 0), and the column's range.
unfoldable pub update_account : Account → Session (Unit {0})
update_account account = do
  raise_if (leb_ℤ (pos numeric_24) account.balance) numeric_overflow
  raise_if (ltb_ℤ account.balance (pos 0)) (integrity check)
  writes (λ d. record d { accounts = replace account_id_of account d.accounts })

abbrev pub posting_of : ℕ → Account → PostingSide → ℕ → Posting
posting_of journal_id account side amount = record {
  journal_id = journal_id;
  account_id = account.id;
  currency = usd;
  side = side;
  amount = amount;
}

-- The two accounts of a movement, locked. The lock has found a row for each key, so the
-- dictionary accesses do not fail.
unfoldable pub account_pair : AccountKey → AccountKey → Database → Result (Account × Account)
account_pair debit_key credit_key db = elim (locked_accounts (debit_key ∷ credit_key ∷ []) db) [
  | err e ↦ err e
  | ok accounts ↦ elim (get_account debit_key accounts) [
    | none ↦ err missing_account
    | some d ↦ elim (get_account credit_key accounts) [
      | none ↦ err missing_account
      | some c ↦ ok (d, c)
    ]
  ]
]

-- The new journal's id is `uuid4()`, here an argument.
unfoldable pub write_movement :
    Settlement → JournalEvent → ℕ → Account × Account → Session (Unit {0})
write_movement settlement event journal_id (debit_account, credit_account) = do
  let amount = settlement.amount_usd
  raise_if (ltb_ℤ debit_account.balance (pos amount)) insufficient_funds
  let journal : JournalTransaction = record {
    id = journal_id;
    settlement_id = some settlement.id;
    event = event;
    is_posted = false;
  }
  insert_journal journal
  debited ← lift (apply_posting debit_account debit amount)
  credited ← lift (apply_posting credit_account credit amount)
  insert_posting (posting_of journal_id debit_account debit amount)
  insert_posting (posting_of journal_id credit_account credit amount)
  update_account debited
  update_account credited
  writes (λ d. record d {
    journals = replace journal_id_of (record journal { is_posted = true }) d.journals;
  })

unfoldable pub post : Settlement → JournalEvent → AccountKey → AccountKey → ℕ → Session (Unit {0})
post settlement event debit_key credit_key journal_id = do
  accounts ← reads (account_pair debit_key credit_key)
  write_movement settlement event journal_id accounts

unfoldable pub reserve : Settlement → ℕ → Session (Unit {0})
reserve s =
    post s JournalEvent.reserve (s.owner_id, available) (s.owner_id, AccountPurpose.reserved)

unfoldable pub consume : Settlement → ℕ → Session (Unit {0})
consume s = post s JournalEvent.consume (s.owner_id, AccountPurpose.reserved) ("system", omnibus)

unfoldable pub release : Settlement → ℕ → Session (Unit {0})
release s =
    post s JournalEvent.release (s.owner_id, AccountPurpose.reserved) (s.owner_id, available)
