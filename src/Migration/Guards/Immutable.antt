-- ===== src/Migration/Guards/Immutable.antt =====
-- alembic/versions/0002_durable_payout_and_ledger_guards.py: posted journals under the triggers.
use netaro_settlement_router.Prelude.{
  nat_eq, Option-cases, ℕ, ◌≡◌, ◌≢◌, ◌<◌, refl, sym, ap, ◌∙◌, inl, inr, Bool, true, false, not,
  Option, none, some, List, [], ◌∷◌, ◌++◌, ◌==◌, arith, select, get_elem?, set, select-insert_none,
  select-set_none, select-remove_none,
}
use netaro_settlement_router.Table.{lookup, replace, lookup-mem}
use netaro_settlement_router.Models.{JournalTransaction, Posting, journal_id_of}
use netaro_settlement_router.Database.{Database, ok, err, integrity, check, numeric_24, ◌>>=◌}
use netaro_settlement_router.Ledger.{insert_journal, insert_posting}
use netaro_settlement_router.Migration.Guards.{
  Write, insert_row, update_row, delete_row, insert_entry, update_entry, delete_entry, apply_write,
  guard_posting_mutation, guard_journal_mutation, journal_written, postings_of,
}

-- An update that takes a posting from one journal to another.
abbrev pub moves_between : Option Posting → Posting → Bool
moves_between none new = false
moves_between (some old) new = not (old.journal_id == new.journal_id)

abbrev pub moves : Write → Database → Bool
moves (update_entry n new) db = moves_between (get_elem? db.postings n) new
moves _ db = false

-- Writes that go through, none of which moves a posting.
pub data Run : Database → Database → Type 0 where
  done : {db : Database} → Run db db
  write :
      {db after final : Database} (w : Write)
      → moves w db ≡ false
      → apply_write w db ≡ (ok tt, after)
      → Run after final
      → Run db final

lookup-append :
    (i : ℕ) (journals : List JournalTransaction) (new j : JournalTransaction)
    → lookup journal_id_of i journals ≡ some j
    → lookup journal_id_of i (journals ++ new ∷ []) ≡ some j
lookup-append i [] new j h = cc
lookup-append i (k ∷ journals) new j h = ground (arith, lookup-append i journals new j)

lookup-replace_other :
    (i : ℕ) (journals : List JournalTransaction) (new : JournalTransaction)
    → new.id ≢ i
    → lookup journal_id_of i (replace journal_id_of new journals) ≡ lookup journal_id_of i journals
lookup-replace_other i [] new h = refl
lookup-replace_other i (k ∷ journals) new h = ground (arith, lookup-replace_other i journals new h)

lookup-select_other :
    (i k : ℕ) (journals : List JournalTransaction)
    → k ≢ i
    → lookup journal_id_of i (select (λ j. not (j.id == k)) journals)
      ≡ lookup journal_id_of i journals
lookup-select_other i k [] h = refl
lookup-select_other i k (j ∷ journals) h = ground (arith, lookup-select_other i k journals h)

-- One write leaves a posted journal and its postings as they are.
module _ (i : ℕ) (j : JournalTransaction) (db after : Database)
    (found : lookup journal_id_of i db.journals ≡ some j) (posted : j.is_posted ≡ true) where
  abbrev Kept : Type 0
  Kept =
      (lookup journal_id_of i after.journals ≡ some j)
      × (postings_of i after.postings ≡ postings_of i db.postings)

  insert_row-Kept :
      (new : JournalTransaction) → apply_write (insert_row new) db ≡ (ok tt, after) → Kept
  unfolding apply_write insert_journal ◌>>=◌
  insert_row-Kept new e = ground (arith, lookup-append i db.journals new j found)

  -- A journal that a guard lets through is another one.
  other_journal :
      (k : ℕ) (old : JournalTransaction)
      → lookup journal_id_of k db.journals ≡ some old
      → old.is_posted ≡ false
      → k ≢ i
  other_journal k old there unposted p =
      differ j old posted unposted
        (sym found ∙ ap (λ n. lookup journal_id_of n db.journals) (sym p) ∙ there)
    where
      differ :
          (a b : JournalTransaction)
          → a.is_posted ≡ true
          → b.is_posted ≡ false
          → some a ≡ some b
          → ⊥
      differ a b p q e = cc

  -- A posting of a journal that a guard lets through is none of the posted journal's.
  other_entry :
      (new old : Option Posting) (k : ℕ)
      → journal_written new old ≡ some k
      → guard_posting_mutation new old db.journals ≡ ok tt
      → (k == i) ≡ false
  unfolding guard_posting_mutation
  other_entry new old k written e = ground (arith, found, posted, written)

  update_row-Kept :
      (k : ℕ) (new : JournalTransaction) → apply_write (update_row k new) db ≡ (ok tt, after) → Kept
  unfolding apply_write guard_journal_mutation ◌>>=◌
  update_row-Kept k new e = elim (Option-cases (lookup journal_id_of k db.journals)) [
    | inl missing ↦ ground (arith, missing)
    | inr (old, there) ↦
        let (_, same) = lookup-mem journal_id_of k db.journals old there in
        ground
          (arith, there, same, other_journal k old there, lookup-replace_other i db.journals new)
  ]

  delete_row-Kept : (k : ℕ) → apply_write (delete_row k) db ≡ (ok tt, after) → Kept
  unfolding apply_write guard_journal_mutation ◌>>=◌
  delete_row-Kept k e = elim (Option-cases (lookup journal_id_of k db.journals)) [
    | inl missing ↦ ground (arith, missing)
    | inr (old, there) ↦
        ground (arith, there, other_journal k old there, lookup-select_other i k db.journals)
  ]

  insert_entry-Kept : (p : Posting) → apply_write (insert_entry p) db ≡ (ok tt, after) → Kept
  unfolding apply_write insert_posting ◌>>=◌
  insert_entry-Kept p e = ground (
    arith,
    other_entry (some p) none p.journal_id refl,
    select-insert_none (λ (q : Posting). q.journal_id == i) db.postings p,
  )

  update_entry-Kept :
      (n : ℕ) (new : Posting)
      → moves_between (get_elem? db.postings n) new ≡ false
      → apply_write (update_entry n new) db ≡ (ok tt, after)
      → Kept
  unfolding apply_write ◌>>=◌
  update_entry-Kept n new stays e = elim (Option-cases (get_elem? db.postings n)) [
    | inl missing ↦ ground (arith, missing)
    | inr (old, there) ↦ ground (
      arith,
      there,
      other_entry (some new) (some old) new.journal_id refl,
      select-set_none (λ (q : Posting). q.journal_id == i) db.postings n old new there,
    )
  ]

  delete_entry-Kept : (n : ℕ) → apply_write (delete_entry n) db ≡ (ok tt, after) → Kept
  unfolding apply_write ◌>>=◌
  delete_entry-Kept n e = elim (Option-cases (get_elem? db.postings n)) [
    | inl missing ↦ ground (arith, missing)
    | inr (old, there) ↦ ground (
      arith,
      there,
      other_entry none (some old) old.journal_id refl,
      select-remove_none (λ (q : Posting). q.journal_id == i) db.postings n old there,
    )
  ]

  write-Kept : (w : Write) → moves w db ≡ false → apply_write w db ≡ (ok tt, after) → Kept
  write-Kept (insert_row new) stays e = insert_row-Kept new e
  write-Kept (update_row k new) stays e = update_row-Kept k new e
  write-Kept (delete_row k) stays e = delete_row-Kept k e
  write-Kept (insert_entry p) stays e = insert_entry-Kept p e
  write-Kept (update_entry n new) stays e = update_entry-Kept n new stays e
  write-Kept (delete_entry n) stays e = delete_entry-Kept n e

-- Whatever writes to the journal tables go through under the triggers, if none of them moves a posting
-- from one journal to another, a posted journal stays as it is, with the same postings.
pub Run-immutable :
    {db after : Database} (i : ℕ) (j : JournalTransaction)
    → Run db after
    → lookup journal_id_of i db.journals ≡ some j
    → j.is_posted ≡ true
    → (lookup journal_id_of i after.journals ≡ some j)
      × (postings_of i after.postings ≡ postings_of i db.postings)
Run-immutable i j done found posted = (found, refl)
Run-immutable i j (write {db} {after} w stays e later) found posted =
    let (kept, same) = write-Kept i j db after found posted w stays e in
    let (kept', same') = Run-immutable i j later kept posted in (kept', same' ∙ same)

-- The trigger reads the journal that the posting goes to: an update may take a posting out of a posted
-- journal into one that is not posted, though neither a deletion nor a change in place goes through.
pub update_out_of_posted :
    (db : Database) (n : ℕ) (old new : Posting) (j k : JournalTransaction)
    → get_elem? db.postings n ≡ some old
    → lookup journal_id_of old.journal_id db.journals ≡ some j
    → j.is_posted ≡ true
    → lookup journal_id_of new.journal_id db.journals ≡ some k
    → k.is_posted ≡ false
    → 0 < new.amount
    → new.amount < numeric_24
    → (apply_write (update_entry n new) db
        ≡ (ok tt, record db { postings = set db.postings n new }))
      × (apply_write (delete_entry n) db ≡ (err (integrity check), db))
      × (apply_write (update_entry n (record new { journal_id = old.journal_id })) db
          ≡ (err (integrity check), db))
unfolding apply_write guard_posting_mutation ◌>>=◌
update_out_of_posted db n old new j k there parent posted target unposted positive fits = (
  ground (arith, there, parent, target),
  ground (arith, there, parent),
  ground (arith, there, parent),
)
