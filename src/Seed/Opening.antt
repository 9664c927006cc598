-- ===== src/Seed/Opening.antt =====
-- app/seed.py: the seed of an empty database.
use netaro_settlement_router.Prelude.{
  nat_eq, ℕ, ◌≡◌, ◌≢◌, ◌<◌, refl, sym, String, true, false, List, [], ◌∷◌, Memᴰ, arith, each,
  exists-of_mem, ◌∙◌, eq_iff, ◌==◌, ==_iff,
}
use netaro_settlement_router.Prelude.Int.{pos, ◌+ℤ◌, ◌-ℤ◌}
use netaro_settlement_router.Routing.Types.{usd, usdc}
use netaro_settlement_router.Table.{Distinct}
use netaro_settlement_router.Models.{
  Account, AccountPurpose, available, omnibus, asset, liability, debit, credit, Posting,
  account_id_of, identity_of,
}
use netaro_settlement_router.Database.{Database, ok, numeric_24, ◌>>=◌, ◌>>◌, Session, reads}
use netaro_settlement_router.Ledger.{
  insert_journal, insert_posting, update_account, apply_posting, moved_balance, posting_of,
}
use netaro_settlement_router.Ledger.Invariant.{IsLedger}
use netaro_settlement_router.Ledger.Audit.{IsAudited, audit-passes, assert_ledger_invariants}
use netaro_settlement_router.Service.Recording.{events}
use netaro_settlement_router.Service.Soundness.{IsSound}
use netaro_settlement_router.Seed.Validation.{IsSeeded, validate-ok}
use netaro_settlement_router.Seed.{
  SeedIds, same_identity, seed, seed_demo_accounts, create_seed, open_balances, insert_account,
  new_account, opening_journal, load_seed_accounts, validate_existing_seed, sorted_rows, same_rows,
  same_row, PostingRow, expected_rows,
}

-- No table has a row.
abbrev pub empty : Database
empty = record { accounts = []; settlements = []; journals = []; postings = []; attempts = [] }

-- The four accounts have four ids.
pub record AreDistinct (ids : SeedIds) : Type 0 where
  pub usd_usdc : ids.omnibus_usd ≢ ids.omnibus_usdc
  pub usd_available : ids.omnibus_usd ≢ ids.available
  pub usd_reserved : ids.omnibus_usd ≢ ids.reserved
  pub usdc_available : ids.omnibus_usdc ≢ ids.available
  pub usdc_reserved : ids.omnibus_usdc ≢ ids.reserved
  pub available_reserved : ids.available ≢ ids.reserved

-- The rows that are added, with no balance.
abbrev pub omnibus_usd : SeedIds → Account
omnibus_usd ids = new_account ids.omnibus_usd ("system", usd, omnibus) asset

abbrev pub omnibus_usdc : SeedIds → Account
omnibus_usdc ids = new_account ids.omnibus_usdc ("system", usdc, omnibus) asset

abbrev pub available_of : SeedIds → String → Account
available_of ids owner_id = new_account ids.available (owner_id, usd, available) liability

abbrev pub reserved_of : SeedIds → String → Account
reserved_of ids owner_id =
    new_account ids.reserved (owner_id, usd, AccountPurpose.reserved) liability

module _ (ids : SeedIds) (owner_id : String) (amount : ℕ) where
  abbrev pub opened_accounts : List Account
  opened_accounts =
      record (omnibus_usd ids) { balance = pos amount }
      ∷ omnibus_usdc ids
      ∷ record (available_of ids owner_id) { balance = pos amount }
      ∷ reserved_of ids owner_id
      ∷ []

  abbrev pub opening_postings : List Posting
  opening_postings =
      posting_of ids.journal (omnibus_usd ids) debit amount
      ∷ posting_of ids.journal (available_of ids owner_id) credit amount
      ∷ []

  -- The tables that the seed leaves.
  abbrev pub opened : Database
  opened = record {
    accounts = opened_accounts;
    settlements = [];
    journals = opening_journal ids.journal ∷ [];
    postings = opening_postings;
    attempts = [];
  }

pub self_eq : (n : ℕ) → (n == n) ≡ true
self_eq n = (==_iff n n).1 refl

pub ne_test : {n m : ℕ} → n ≢ m → (n == m) ≡ false
ne_test {n} {m} h = ground (arith, ==_iff n m)

-- The balances before the opening entry.
abbrev unopened : SeedIds → String → Database
unopened ids owner_id = record empty {
  accounts =
      omnibus_usd ids
      ∷ omnibus_usdc ids
      ∷ available_of ids owner_id
      ∷ reserved_of ids owner_id
      ∷ [];
}

module _ (ids : SeedIds) (owner_id : String) (amount : ℕ) (apart : AreDistinct ids)
    (positive : 0 < amount) (fits : amount < numeric_24) where
  open_balances-opened :
      open_balances ids (omnibus_usd ids) (available_of ids owner_id) amount (unopened ids owner_id)
      ≡ (ok tt, opened ids owner_id amount)
  unfolding open_balances insert_journal insert_posting update_account apply_posting moved_balance
      ◌+ℤ◌ ◌-ℤ◌ ◌>>=◌
  open_balances-opened = ground arith

same_row_self : (r : PostingRow) → same_row r r ≡ true
same_row_self (a, c, s, n) = ground (arith, self_eq a, self_eq n)

pub same_rows_self : (rows : List PostingRow) → same_rows rows rows ≡ true
same_rows_self [] = refl
same_rows_self (r ∷ rows) = rw (same_row_self r) (same_rows_self rows)

module _ (ids : SeedIds) (owner_id : String) (amount : ℕ) (apart : AreDistinct ids) where
  opened-ids : Distinct account_id_of (opened_accounts ids owner_id amount)
  opened-ids = (
    each _ _ (
      (λ p. apart.usd_usdc (sym p)),
      ((λ p. apart.usd_available (sym p)), ((λ p. apart.usd_reserved (sym p)), tt)),
    ),
    (
      each _ _ ((λ p. apart.usdc_available (sym p)), ((λ p. apart.usdc_reserved (sym p)), tt)),
      (each _ _ ((λ p. apart.available_reserved (sym p)), tt), ((λ a m. elim m [ ]), tt)),
    ),
  )

  opened-identities : Distinct identity_of (opened_accounts ids owner_id amount)
  opened-identities = (
    each _ _ ((λ p. ground arith), ((λ p. ground arith), ((λ p. ground arith), tt))),
    (
      each _ _ ((λ p. ground arith), ((λ p. ground arith), tt)),
      (each _ _ ((λ p. ground arith), tt), ((λ a m. elim m [ ]), tt)),
    ),
  )

  opened-IsLedger : amount < numeric_24 → IsLedger (opened_accounts ids owner_id amount)
  unfolding ◌+ℤ◌ ◌-ℤ◌
  opened-IsLedger fits = record {
    ids = opened-ids;
    identities = opened-identities;
    nonneg = each _ _ (omega arith, (omega arith, (omega arith, (omega arith, tt))));
    classes = each _ _ (refl, (refl, (refl, (refl, tt))));
    omnibus_owner = each _ _ ((λ p. refl), ((λ p. refl), ((λ p. cc), ((λ p. cc), tt))));
    balanced = ground arith;
    bounded = ground arith;
  }

  pub opened-IsSound : amount < numeric_24 → IsSound (opened ids owner_id amount)
  unfolding events
  opened-IsSound fits = record {
    backed = record {
      ledger = opened-IsLedger fits;
      settlement_ids = tt;
      amounts = λ s m. elim m [ ];
      has_available = λ s m. elim m [ ];
      has_reserved = λ s m. elim m [ ];
      has_omnibus = (record (omnibus_usd ids) { balance = pos amount }, Memᴰ.head refl, refl);
      reserved = each _ _ ((λ u r. cc), ((λ u r. cc), ((λ u r. cc), ((λ u r. refl), tt))));
    };
    recorded = record { recorded = λ s m. elim m [ ]; unrecorded = λ i h. refl };
    submitted = record {
      operations = λ s m. elim m [ ];
      unsubmitted = λ s m. elim m [ ];
      submitted = λ s m. elim m [ ];
      orphans = λ i h. refl;
      attempt_ids = tt;
      attempt_rows = λ a m. elim m [ ];
    };
    keys = tt;
  }

  pub opened-IsAudited :
      IsAudited (opened_accounts ids owner_id amount) (opening_postings ids owner_id amount)
  unfolding ◌+ℤ◌ ◌-ℤ◌
  opened-IsAudited =
      let usd_self = self_eq ids.omnibus_usd in
      let available_self = self_eq ids.available in
      let not_available = ne_test apart.usd_available in
      let not_usd = ne_test (λ p. apart.usd_available (sym p)) in
      record {
        balances = each _ _ (
          rw (usd_self, not_usd) (ground arith),
          (
            rw (ne_test apart.usd_usdc, ne_test (λ p. apart.usdc_available (sym p))) refl,
            (
              rw (available_self, not_available) (ground arith),
              (rw (ne_test apart.usd_reserved, ne_test apart.available_reserved) refl, tt),
            ),
          ),
        );
        balanced = λ journal currency. ground arith;
        accounted = each _ _ (
          rw usd_self refl,
          (
            exists-of_mem (λ (a : Account). a.id == ids.available)
                (opened_accounts ids owner_id amount) (Memᴰ.tail (Memᴰ.tail (Memᴰ.head refl)))
                available_self,
            tt,
          ),
        );
      }

  pub load-opened :
      load_seed_accounts owner_id (opened ids owner_id amount) ≡ opened_accounts ids owner_id amount
  unfolding load_seed_accounts same_identity
  load-opened = rw ((eq_iff owner_id owner_id).1 refl) refl

  module _ (fits : amount < numeric_24) where
    audit-opened : assert_ledger_invariants (opened ids owner_id amount) ≡ ok tt
    audit-opened =
        audit-passes (opened ids owner_id amount) opened-IsAudited (opened-IsLedger fits).nonneg

    pub opened-IsSeeded :
        IsSeeded owner_id amount (opened_accounts ids owner_id amount) (opened ids owner_id amount)
    unfolding same_identity
    opened-IsSeeded =
        let self = (eq_iff owner_id owner_id).1 refl in
        record {
          available_row = record (available_of ids owner_id) { balance = pos amount };
          reserved_row = reserved_of ids owner_id;
          omnibus_usd = record (omnibus_usd ids) { balance = pos amount };
          omnibus_usdc = omnibus_usdc ids;
          journal = opening_journal ids.journal;
          found_available = ground (arith, self);
          found_reserved = ground (arith, self);
          found_usd = refl;
          found_usdc = refl;
          available_class = refl;
          reserved_class = refl;
          usd_class = refl;
          usdc_class = refl;
          one_opening = refl;
          entry = rw (self_eq ids.journal) (
              same_rows_self
                (sorted_rows (expected_rows (omnibus_usd ids) (available_of ids owner_id) amount)));
          audited = audit-opened;
        }

  insert_accounts :
      (rest : Session (Unit {0}))
      → (insert_account (omnibus_usd ids)
            >> (insert_account (omnibus_usdc ids)
                >> (insert_account (available_of ids owner_id)
                    >> (insert_account (reserved_of ids owner_id) >> rest))))
          empty
        ≡ rest (unopened ids owner_id)
  unfolding insert_account same_identity ◌>>=◌
  insert_accounts rest = ground arith

  -- Seeding an empty database with a positive amount that fits the column.
  module _ (positive : 0 < amount) (fits : amount < numeric_24) where
    create-opened : create_seed ids owner_id amount [] empty ≡ (ok tt, opened ids owner_id amount)
    unfolding create_seed ◌>>=◌
    create-opened =
        insert_accounts (do
          open_balances ids (omnibus_usd ids) (available_of ids owner_id) amount
          created ← reads (λ db. ok (load_seed_accounts owner_id db))
          validate_existing_seed owner_id amount created)
        ∙ rw (open_balances-opened ids owner_id amount apart positive fits)
            (rw load-opened (validate-ok owner_id amount _ _ (opened-IsSeeded fits)))

    pub seed-opened : seed ids owner_id amount empty ≡ (ok tt, opened ids owner_id amount)
    unfolding seed seed_demo_accounts load_seed_accounts ◌>>=◌
    seed-opened = rw create-opened refl

    -- Seeding an empty database with a positive amount that fits the column, under four ids, goes
    -- through: it leaves the two omnibus accounts and the customer's two, the customer's available
    -- balance and the USD omnibus balance at the amount, and one posted opening journal with its two
    -- postings. Those tables are sound, and pass the audit.
    pub seed-IsSound :
        (seed ids owner_id amount empty ≡ (ok tt, opened ids owner_id amount))
        × IsSound (opened ids owner_id amount)
        × IsAudited (opened_accounts ids owner_id amount) (opening_postings ids owner_id amount)
    seed-IsSound = (seed-opened, opened-IsSound fits, opened-IsAudited)
