-- ===== src/Migration/Guards/Entries.antt =====
-- app/ledger.py, alembic/versions/0002_durable_payout_and_ledger_guards.py: `_post` in a database
-- that has the triggers.
use netaro_settlement_router.Prelude.{
  nat_eq, ℕ, ◌≡◌, refl, sym, ap, ◌∙◌, subst, inl, inr, true, false, Bool-cases, not, some, List, [],
  ◌∷◌, ◌++◌, ◌==◌, ==_iff, arith, exists, select-append,
}
use netaro_settlement_router.Prelude.Int.{pos, ltb_ℤ, int_laws}
use netaro_settlement_router.Routing.Types.{Currency}
use netaro_settlement_router.Table.{lookup}
use netaro_settlement_router.Table.Updates.{replace-insert}
use netaro_settlement_router.Models.{
  Account, JournalEvent, JournalTransaction, Posting, PostingSide, Settlement, AccountKey, debit,
  credit, journal_id_of,
}
use netaro_settlement_router.Database.{
  Database, Result, ok, err, Session, reads, lift, raise_if, insufficient_funds, transaction,
  continue, ◌>>=◌, ◌>>◌,
}
use netaro_settlement_router.Ledger.{
  apply_posting, insert_journal, insert_posting, update_account, posting_of, account_pair,
  write_movement, post,
}
use netaro_settlement_router.Ledger.Movement.{journal_of, posted, write_movement-IsPostable}
use netaro_settlement_router.Ledger.Audit.{side_total, is_balanced, eq_ℤ_of_eq}
use netaro_settlement_router.Ledger.Audit.Postings.{both-balanced}
use netaro_settlement_router.Migration.Guards.{
  insert_row, update_row, insert_entry, apply_write, guard_posting_mutation, guard_journal_mutation,
  check_posted_journal, postings_of,
}

-- The writes of a movement, each under its trigger.
guarded_movement : Settlement → JournalEvent → ℕ → Account × Account → Session (Unit {0})
guarded_movement s event jid (d, c) = do
  raise_if (ltb_ℤ d.balance (pos s.amount_usd)) insufficient_funds
  apply_write (insert_row (record (journal_of s event jid) { is_posted = false }))
  debited ← lift (apply_posting d debit s.amount_usd)
  credited ← lift (apply_posting c credit s.amount_usd)
  apply_write (insert_entry (posting_of jid d debit s.amount_usd))
  apply_write (insert_entry (posting_of jid c credit s.amount_usd))
  update_account debited
  update_account credited
  apply_write (update_row jid (journal_of s event jid))

-- A `_post`, and the deferred check of its journal at the commit.
unfoldable pub guarded_post :
    Settlement → JournalEvent → AccountKey → AccountKey → ℕ → Session (Unit {0})
unfolding guarded_movement
guarded_post s event debit_key credit_key jid = do
  accounts ← reads (account_pair debit_key credit_key)
  guarded_movement s event jid accounts
  reads (check_posted_journal jid)

lookup_new :
    (journals : List JournalTransaction) (new : JournalTransaction)
    → exists (λ k. k.id == new.id) journals ≡ false
    → lookup journal_id_of new.id (journals ++ new ∷ []) ≡ some new
lookup_new [] new h = rw ((==_iff new.id new.id).1 refl) refl
lookup_new (k ∷ journals) new h = ground (arith, lookup_new journals new)

module _ (s : Settlement) (event : JournalEvent) (jid : ℕ) (d c : Account) (db : Database) where
  -- No trigger refuses a write of a movement.
  guarded_movement-eq :
      guarded_movement s event jid (d, c) db ≡ write_movement s event jid (d, c) db
  unfolding guarded_movement write_movement apply_write guard_posting_mutation
      guard_journal_mutation insert_journal insert_posting update_account ◌>>=◌
  guarded_movement-eq =
      ground (arith, lookup_new db.journals (record (journal_of s event jid) { is_posted = false }))

  module _ (fresh : exists (λ k. k.id == jid) db.journals ≡ false)
      (no_entries : postings_of jid db.postings ≡ []) where
    abbrev debited : Posting
    debited = posting_of jid d debit s.amount_usd

    abbrev credited : Posting
    credited = posting_of jid c credit s.amount_usd

    found_posted :
        lookup journal_id_of jid (posted s event jid d c db).journals
        ≡ some (journal_of s event jid)
    found_posted =
        ap (lookup journal_id_of jid) (
          replace-insert journal_id_of (journal_of s event jid)
            (record (journal_of s event jid) { is_posted = false }) db.journals refl fresh)
        ∙ lookup_new db.journals (journal_of s event jid) fresh

    two_entries : postings_of jid (posted s event jid d c db).postings ≡ debited ∷ credited ∷ []
    two_entries =
        select-append (λ (p : Posting). p.journal_id == jid) (db.postings ++ debited ∷ [])
          (credited ∷ [])
        ∙ ap (λ (l : List Posting). l ++ postings_of jid (credited ∷ []))
            (select-append (λ (p : Posting). p.journal_id == jid) db.postings (debited ∷ []))
        ∙ rw (no_entries, self) refl
      where
        self : (jid == jid) ≡ true
        self = (==_iff jid jid).1 refl

    no_total :
        (side : PostingSide) (currency : Currency) (postings : List Posting)
        → postings_of jid postings ≡ []
        → side_total side jid currency postings ≡ pos 0
    no_total side currency [] h = refl
    no_total side currency (p ∷ postings) h = elim (Bool-cases (p.journal_id == jid)) [
      | inl same ↦ cc (rw same at h)
      | inr other ↦ rw (other, no_total side currency postings (rw other at h)) (omega int_laws)
    ]

    balanced :
        (p : Posting)
        → p.journal_id ≡ jid
        → not (is_balanced (posted s event jid d c db).postings p) ≡ false
    balanced p h = eq_ℤ_of_eq (
        both-balanced d c s.amount_usd jid db.postings p.journal_id p.currency (
          subst
            (λ j.
              side_total debit j p.currency db.postings
              ≡ side_total credit j p.currency db.postings)
            (sym h)
            (no_total debit p.currency db.postings no_entries
              ∙ sym (no_total credit p.currency db.postings no_entries))))

    check_posted-ok : check_posted_journal jid (posted s event jid d c db) ≡ ok tt
    unfolding check_posted_journal
    check_posted-ok = rw (found_posted, two_entries, balanced debited refl) refl

  -- After a movement that has gone through, the check of its journal passes.
  checked :
      (r : Result (Unit {0}) × Database)
      → write_movement s event jid (d, c) db ≡ r
      → postings_of jid db.postings ≡ []
      → transaction (λ (x : Database). continue r (λ u. reads (check_posted_journal jid))) db
        ≡ transaction (λ (x : Database). r) db
  checked (err e, after) run no_entries = refl
  checked (ok tt, after) run no_entries =
      let (can, written) = write_movement-IsPostable s event jid d c db run in
      rw (ap (check_posted_journal jid) written, check_posted-ok can.fresh_journal no_entries)

-- In a database with the triggers and the deferred check, a `_post` under a new journal id does what
-- it does without them: it returns or raises the same and leaves the same tables.
pub guarded_post-eq :
    (s : Settlement) (event : JournalEvent) (dk ck : AccountKey) (jid : ℕ) (db : Database)
    → postings_of jid db.postings ≡ []
    → transaction (guarded_post s event dk ck jid) db ≡ transaction (post s event dk ck jid) db
unfolding guarded_post post ◌>>=◌
guarded_post-eq s event dk ck jid db no_entries = by_pair (account_pair dk ck db) refl
  where
    by_pair :
        (r : Result (Account × Account))
        → account_pair dk ck db ≡ r
        → transaction (guarded_post s event dk ck jid) db ≡ transaction (post s event dk ck jid) db
    by_pair (err e) found = rw found
    by_pair (ok (d, c)) found = rw found (
        rw (guarded_movement-eq s event jid d c db)
          (checked s event jid d c db (write_movement s event jid (d, c) db) refl no_entries))
