-- ===== src/Migration/Guards.antt =====
-- alembic/versions/0002_durable_payout_and_ledger_guards.py: the three trigger functions, and writes
-- to the journal tables under their triggers. Their exceptions have the error code of a CHECK
-- violation. A posting is named by its place in the table, for its primary key; `created_at` of a
-- journal is left out.
pub mod Immutable
pub mod Entries
use netaro_settlement_router.Prelude.{
  nat_eq, ℕ, Bool, true, false, not, ◌&&◌, ◌||◌, Option, none, some, List, [], ◌∷◌, ◌==◌, ltb,
  if◌then◌else◌, exists, select, length, get_elem?, set, remove, leb,
}
use netaro_settlement_router.Table.{lookup, replace}
use netaro_settlement_router.Models.{JournalTransaction, Posting, same_event, journal_id_of}
use netaro_settlement_router.Database.{
  Database, check, Error, integrity, Result, ok, err, Session, pure, reads, lift, writes, raise_if,
  numeric_overflow, numeric_24, transaction, ◌>>=◌, ◌>>◌,
}
use netaro_settlement_router.Ledger.{insert_journal, insert_posting}
use netaro_settlement_router.Ledger.Audit.{is_balanced}

-- COALESCE(NEW.journal_id, OLD.journal_id)
abbrev pub journal_written : Option Posting → Option Posting → Option ℕ
journal_written (some new) old = some new.journal_id
journal_written none (some old) = some old.journal_id
journal_written none none = none

-- SELECT is_posted: a journal that is not there gives NULL, which is not true.
abbrev pub parent_posted : Option ℕ → List JournalTransaction → Bool
parent_posted none journals = false
parent_posted (some i) journals = elim (lookup journal_id_of i journals) [
  | none ↦ false
  | some j ↦ j.is_posted
]

-- `guard_posting_mutation`, before an insertion (no old row), an update or a deletion (no new row).
unfoldable pub guard_posting_mutation :
    Option Posting → Option Posting → List JournalTransaction → Result (Unit {0})
guard_posting_mutation new old journals =
    if parent_posted (journal_written new old) journals then err (integrity check) else ok tt

abbrev same_id : Option ℕ → Option ℕ → Bool
same_id none none = true
same_id (some i) (some j) = i == j
same_id _ _ = false

-- `guard_journal_mutation`, before a deletion (no new row) or an update.
unfoldable pub guard_journal_mutation :
    Option JournalTransaction → JournalTransaction → Result (Unit {0})
guard_journal_mutation none old = if old.is_posted then err (integrity check) else ok tt
guard_journal_mutation (some new) old =
    if old.is_posted
    then err (integrity check)
    else if not (
        new.id == old.id
        && (same_id new.settlement_id old.settlement_id
            && (same_event new.event old.event && new.is_posted)))
    then err (integrity check)
    else ok tt

abbrev pub postings_of : ℕ → List Posting → List Posting
postings_of i = select (λ p. p.journal_id == i)

abbrev is_unposted : Option JournalTransaction → Bool
is_unposted none = false
is_unposted (some j) = not j.is_posted

-- `check_posted_journal`, at the commit of a transaction that has inserted the journal.
unfoldable pub check_posted_journal : ℕ → Database → Result (Unit {0})
check_posted_journal i db =
    if is_unposted (lookup journal_id_of i db.journals)
    then err (integrity check)
    else if ltb (length (postings_of i db.postings)) 2
    then err (integrity check)
    else if exists (λ p. not (is_balanced db.postings p)) (postings_of i db.postings)
    then err (integrity check)
    else ok tt

-- The writes that a client of the database can make to the journal tables, row by row.
pub data Write : Type 0 where
  insert_row : JournalTransaction → Write
  update_row : ℕ → JournalTransaction → Write
  delete_row : ℕ → Write
  insert_entry : Posting → Write
  update_entry : ℕ → Posting → Write
  delete_entry : ℕ → Write

abbrev update_journal : JournalTransaction → Option JournalTransaction → Session (Unit {0})
update_journal new none = pure tt
update_journal new (some old) = do
  lift (guard_journal_mutation (some new) old)
  writes (λ d. record d { journals = replace journal_id_of new d.journals })

abbrev delete_journal : ℕ → Option JournalTransaction → Session (Unit {0})
delete_journal i none = pure tt
delete_journal i (some old) = do
  lift (guard_journal_mutation none old)
  writes (λ d. record d { journals = select (λ j. not (j.id == i)) d.journals })

abbrev update_posting : ℕ → Posting → Option Posting → Session (Unit {0})
update_posting n new none = pure tt
update_posting n new (some old) = do
  reads (λ db. guard_posting_mutation (some new) (some old) db.journals)
  raise_if (leb numeric_24 new.amount) numeric_overflow
  raise_if (new.amount == 0) (integrity check)
  writes (λ d. record d { postings = set d.postings n new })

abbrev delete_posting : ℕ → Option Posting → Session (Unit {0})
delete_posting n none = pure tt
delete_posting n (some old) = do
  reads (λ db. guard_posting_mutation none (some old) db.journals)
  writes (λ d. record d { postings = remove d.postings n })

unfoldable pub apply_write : Write → Session (Unit {0})
apply_write (insert_row j) = insert_journal j
apply_write (update_row i new) = do
  old ← reads (λ db. ok (lookup journal_id_of i db.journals))
  update_journal new old
apply_write (delete_row i) = do
  old ← reads (λ db. ok (lookup journal_id_of i db.journals))
  delete_journal i old
apply_write (insert_entry p) = do
  reads (λ db. guard_posting_mutation (some p) none db.journals)
  insert_posting p
apply_write (update_entry n new) = do
  old ← reads (λ db. ok (get_elem? db.postings n))
  update_posting n new old
apply_write (delete_entry n) = do
  old ← reads (λ db. ok (get_elem? db.postings n))
  delete_posting n old
