-- ===== src/Tests/Journals.antt =====
-- The journal tables under their triggers, and an upgrade.
use netaro_settlement_router.Prelude.{
  nat_eq, ◌≡◌, refl, true, false, some, [], ◌∷◌, ◌++◌, set, arith, each, Memᴰ,
}
use netaro_settlement_router.Routing.Types.{usd}
use netaro_settlement_router.Table.{lookup}
use netaro_settlement_router.Models.{
  JournalTransaction, JournalEvent, Posting, available, AccountPurpose, debit, attempt_id_of,
  journal_id_of,
}
use netaro_settlement_router.Database.{Database, ok, err, integrity, check, transaction, ◌>>=◌}
use netaro_settlement_router.Ledger.{post, insert_journal}
use netaro_settlement_router.Service.{is_due}
use netaro_settlement_router.Migration.Guards.{
  insert_row, update_entry, delete_entry, apply_write, postings_of,
}
use netaro_settlement_router.Migration.Guards.Immutable.{
  Run, done, write, Run-immutable, update_out_of_posted,
}
use netaro_settlement_router.Migration.Guards.Entries.{guarded_post, guarded_post-eq}
use netaro_settlement_router.Migration.Backfill.{upgrade, backfilled, upgrade-due}
use netaro_settlement_router.Tests.Example.{
  seeded, opening_journal, opening_postings, order, in_progress,
}

abbrev correction : JournalTransaction
correction = record {
  id = 30;
  settlement_id = some 7;
  event = JournalEvent.release;
  is_posted = false;
}

-- A journal that is not posted yet.
abbrev corrected : Database
corrected = record seeded { journals = seeded.journals ++ correction ∷ [] }

corrected-Run : Run seeded corrected
unfolding apply_write insert_journal ◌>>=◌
corrected-Run = write (insert_row correction) refl refl done

Run-immutable_example :
    (lookup journal_id_of 19 corrected.journals ≡ some opening_journal)
    × (postings_of 19 corrected.postings ≡ postings_of 19 seeded.postings)
Run-immutable_example = Run-immutable 19 opening_journal corrected-Run refl refl

abbrev old_entry : Posting
old_entry = record { journal_id = 19; account_id = 3; currency = usd; side = debit; amount = 1000 }

abbrev new_entry : Posting
new_entry = record old_entry { journal_id = 30 }

update_out_of_posted_example :
    (apply_write (update_entry 0 new_entry) corrected
      ≡ (ok tt, record corrected { postings = set opening_postings 0 new_entry }))
    × (apply_write (delete_entry 0) corrected ≡ (err (integrity check), corrected))
    × (apply_write (update_entry 0 old_entry) corrected ≡ (err (integrity check), corrected))
update_out_of_posted_example =
    update_out_of_posted corrected 0 old_entry new_entry opening_journal correction refl refl refl
      refl refl (omega arith) (omega arith)

guarded_post-eq_example :
    transaction
      (guarded_post order JournalEvent.reserve
        ("demo", available)
        ("demo", AccountPurpose.reserved)
        20)
      seeded
    ≡ transaction
        (post order JournalEvent.reserve ("demo", available) ("demo", AccountPurpose.reserved) 20)
        seeded
guarded_post-eq_example =
    guarded_post-eq order JournalEvent.reserve ("demo", available) ("demo", AccountPurpose.reserved)
      20 seeded refl

-- A settlement that was under way before the upgrade.
abbrev earlier : Database
earlier = record seeded { settlements = in_progress ∷ [] }

upgrade-due_example :
    ((upgrade 60 earlier).0 ≡ ok tt)
    × ((upgrade 60 earlier).1.settlements ≡ in_progress ∷ [])
    × (lookup attempt_id_of 7 (upgrade 60 earlier).1.attempts ≡ some (backfilled 60 in_progress))
    × ((backfilled 60 in_progress).operation_id ≡ 7)
    × (is_due (λ i. false) 70 (in_progress, backfilled 60 in_progress) ≡ true)
upgrade-due_example =
    upgrade-due 60 70 earlier in_progress refl ((λ a m. elim m [ ]), tt) (each _ _ (refl, tt))
      (Memᴰ.head refl) refl (omega arith)
