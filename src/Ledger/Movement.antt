-- ===== src/Ledger/Movement.antt =====
-- app/ledger.py: when `_post` succeeds, and the tables that it leaves.
use netaro_settlement_router.Prelude.{
  nat_eq, ℕ, ◌≡◌, ◌<◌, subst, true, false, some, List, [], ◌∷◌, ◌++◌, Memᴰ, arith, exists, ◌==◌,
}
use netaro_settlement_router.Prelude.Int.{pos, ltb_ℤ, ◌≤ℤ◌}
use netaro_settlement_router.Routing.Types.{usd}
use netaro_settlement_router.Table.{replace}
use netaro_settlement_router.Models.{
  Account, JournalEvent, JournalTransaction, Settlement, AccountKey, debit, credit, account_id_of,
  journal_id_of,
}
use netaro_settlement_router.Database.{
  Database, ok, ◌>>=◌, reads, lift-eq-ok, >>=-eq-ok, numeric_24,
}
use netaro_settlement_router.Ledger.{
  has_key, moved_balance, moved, apply_posting, get_account, locked_accounts, same_settlement_event,
  insert_journal, insert_posting, update_account, posting_of, account_pair, write_movement, post,
}
use netaro_settlement_router.Ledger.Locking.{locked_accounts-mem}

abbrev pub journal_of : Settlement → JournalEvent → ℕ → JournalTransaction
journal_of s event journal_id = record {
  id = journal_id;
  settlement_id = some s.id;
  event = event;
  is_posted = true;
}

-- The tables after a `_post` that has moved an amount between two accounts.
abbrev pub posted : Settlement → JournalEvent → ℕ → Account → Account → Database → Database
posted s event jid debit_account credit_account db = record db {
  accounts =
      replace account_id_of (moved credit_account credit s.amount_usd)
        (replace account_id_of (moved debit_account debit s.amount_usd) db.accounts);
  journals =
      replace journal_id_of (journal_of s event jid)
        (db.journals ++ record (journal_of s event jid) { is_posted = false } ∷ []);
  postings =
      (db.postings ++ posting_of jid debit_account debit s.amount_usd ∷ [])
      ++ posting_of jid credit_account credit s.amount_usd ∷ [];
}

-- What a `_post` needs of the two accounts that it has found, and of the journals.
pub record IsPostable (s : Settlement) (event : JournalEvent) (jid : ℕ)
    (debit_account credit_account : Account) (db : Database) : Type 0 where
  pub covered : pos s.amount_usd ≤ℤ debit_account.balance
  pub debit_nonneg : pos 0 ≤ℤ moved_balance debit_account debit s.amount_usd
  pub credit_nonneg : pos 0 ≤ℤ moved_balance credit_account credit s.amount_usd
  pub debit_fits : ltb_ℤ (moved_balance debit_account debit s.amount_usd) (pos numeric_24) ≡ true
  pub credit_fits : ltb_ℤ (moved_balance credit_account credit s.amount_usd) (pos numeric_24) ≡ true
  pub positive : 0 < s.amount_usd
  pub amount_fits : s.amount_usd < numeric_24
  pub fresh_journal : exists (λ k. k.id == jid) db.journals ≡ false
  pub first_event : exists (same_settlement_event (journal_of s event jid)) db.journals ≡ false

module _ (s : Settlement) (event : JournalEvent) (jid : ℕ) (d c : Account) (db : Database) where
  pub write_movement-ok :
      IsPostable s event jid d c db
      → write_movement s event jid (d, c) db ≡ (ok tt, posted s event jid d c db)
  unfolding write_movement insert_journal insert_posting update_account apply_posting ◌>>=◌
  write_movement-ok h = ground arith

  pub write_movement-IsPostable :
      {db' : Database}
      → write_movement s event jid (d, c) db ≡ (ok tt, db')
      → IsPostable s event jid d c db × (db' ≡ posted s event jid d c db)
  unfolding write_movement insert_journal insert_posting update_account apply_posting ◌>>=◌
  write_movement-IsPostable h = ground arith

account_pair-locked :
    (dk ck : AccountKey) (db : Database) (d c : Account)
    → account_pair dk ck db ≡ ok (d, c)
    → (rows : List Account) × (locked_accounts (dk ∷ ck ∷ []) db ≡ ok rows)
      × (get_account dk rows ≡ some d)
      × (get_account ck rows ≡ some c)
unfolding account_pair
account_pair-locked dk ck db d c h = ground arith

-- A row that was locked for a key.
abbrev pub Holds : AccountKey → Account → Database → Type 0
Holds key a db = Memᴰ a db.accounts × (a.currency ≡ usd) × (has_key key a ≡ true)

pub account_pair-Holds :
    (dk ck : AccountKey) (db : Database) (d c : Account)
    → account_pair dk ck db ≡ ok (d, c)
    → Holds dk d db × Holds ck c db
account_pair-Holds dk ck db d c h =
    let (rows, locked, found_d, found_c) = account_pair-locked dk ck db d c h in
    (
      locked_accounts-mem (dk ∷ ck ∷ []) db rows dk d locked found_d,
      locked_accounts-mem (dk ∷ ck ∷ []) db rows ck c locked found_c,
    )

-- A successful `_post` has found both accounts and has moved the amount between them.
pub post-IsPostable :
    (s : Settlement) (event : JournalEvent) (dk ck : AccountKey) (jid : ℕ) (db : Database)
    {db' : Database}
    → post s event dk ck jid db ≡ (ok tt, db')
    → (d c : Account) × (account_pair dk ck db ≡ ok (d, c))
      × IsPostable s event jid d c db
      × (db' ≡ posted s event jid d c db)
unfolding post
post-IsPostable s event dk ck jid db {db'} h =
    let ((d, c), db₁, found, rest) = >>=-eq-ok (reads (account_pair dk ck)) _ db h in
    let (pair, same) = lift-eq-ok _ db found in
    let (can, written) =
      write_movement-IsPostable s event jid d c db
        (subst (λ x. write_movement s event jid (d, c) x ≡ (ok tt, db')) same rest) in
    (d, c, pair, can, written)

pub post-ok :
    (s : Settlement) (event : JournalEvent) (dk ck : AccountKey) (jid : ℕ) (db : Database)
    (d c : Account)
    → account_pair dk ck db ≡ ok (d, c)
    → IsPostable s event jid d c db
    → post s event dk ck jid db ≡ (ok tt, posted s event jid d c db)
unfolding post ◌>>=◌
post-ok s event dk ck jid db d c found can = rw found (write_movement-ok s event jid d c db can)
