-- ===== src/Seed/Kept.antt =====
-- app/seed.py, app/ledger.py: the rows of a seed, and a movement of the ledger.
use netaro_settlement_router.Prelude.{
  nat_eq, ℕ, ◌≡◌, ◌≢◌, ◌↔◌, refl, sym, ap, ◌∙◌, subst, String, Bool, true, false, none, some, List,
  [], ◌∷◌, ◌++◌, Memᴰ, arith, eq_iff, ==_iff, ◌==◌, select, select-insert_none, exists,
  mem_of_mem-select, exists-of_mem,
}
use netaro_settlement_router.Routing.Types.{usd, usdc, same_currency_iff}
use netaro_settlement_router.Table.{replace, Distinct}
use netaro_settlement_router.Table.Updates.{replace-insert}
use netaro_settlement_router.Models.{
  Account, AccountPurpose, available, omnibus, JournalTransaction, Posting, AccountIdentity,
  AccountKey, identity_of, JournalEvent, opening, same_event, Settlement, journal_id_of, debit,
  credit,
}
use netaro_settlement_router.Database.{Database, ok}
use netaro_settlement_router.Ledger.{post, posting_of}
use netaro_settlement_router.Ledger.Movement.{journal_of, account_pair-Holds, post-IsPostable}
use netaro_settlement_router.Ledger.Invariant.{
  IsLedger, shifted, mem-shifted, ids_differ, has_key-eq, same_purpose→eq,
}
use netaro_settlement_router.Service.Entries.{Books, books}
use netaro_settlement_router.Seed.{same_identity, account_at, is_opening, postings_of}
use netaro_settlement_router.Seed.Opening.{ne_test}

pub same_identity_iff : (a b : AccountIdentity) → (same_identity a b ≡ true) ↔ (a ≡ b)
unfolding same_identity
same_identity_iff (o, c, p) (q, d, r) =
    ground (arith, eq_iff o q, same_currency_iff c d, same_purpose→eq p r)

account_at-none :
    (key : AccountIdentity) (p : Account → Bool) (rows : List Account)
    → ((q : Account) → Memᴰ q rows → identity_of q ≢ key)
    → account_at key (select p rows) ≡ none
account_at-none key p [] h = refl
account_at-none key p (r ∷ rows) h = ground (
  arith,
  account_at-none key p rows (λ q m. h q (Memᴰ.tail m)),
  same_identity_iff (identity_of r) key,
  h r (Memᴰ.head refl),
)

-- The row of an identity is found among the rows that are selected.
pub account_at-select :
    (p : Account → Bool) (rows : List Account) {b : Account}
    → Distinct identity_of rows
    → Memᴰ b rows
    → p b ≡ true
    → account_at (identity_of b) (select p rows) ≡ some b
account_at-select p [] d m h = elim m [ ]
account_at-select p (r ∷ rows) {b} d (Memᴰ.head e) h =
    let none_later : account_at (identity_of b) (select p rows) ≡ none =
      account_at-none (identity_of b) p rows (λ q m t. d.0 q m (t ∙ ap identity_of e)) in
    let passes : p r ≡ true = subst (λ (q : Account). p q ≡ true) e h in
    let same : same_identity (identity_of r) (identity_of b) ≡ true =
      (same_identity_iff (identity_of r) (identity_of b)).1 (ap identity_of (sym e)) in
    ground (arith, none_later, passes, same, e)
account_at-select p (r ∷ rows) {b} d (Memᴰ.tail m) h =
    ground (arith, account_at-select p rows d.1 m h)

-- The row of an identity, under an id.
abbrev pub HasRow : AccountIdentity → ℕ → List Account → Type 0
HasRow key i accounts = (a : Account) × Memᴰ a accounts × (identity_of a ≡ key) × (a.id ≡ i)

-- What identifies a seed: the ids of its rows, the opening journal, and its postings.
pub record SeedRows : Type 0 where
  pub owner_id : String
  pub available_id : ℕ
  pub reserved_id : ℕ
  pub usd_id : ℕ
  pub usdc_id : ℕ
  pub journal : JournalTransaction
  pub entry : List Posting

-- What every entry of the service leaves of a seed: its accounts, and its opening journal as the
-- only one, with its postings.
pub record KeepsSeed (o : SeedRows) (b : Books) : Type 0 where
  pub available_row : HasRow (o.owner_id, usd, available) o.available_id b.0
  pub reserved_row : HasRow (o.owner_id, usd, AccountPurpose.reserved) o.reserved_id b.0
  pub usd_row : HasRow ("system", usd, omnibus) o.usd_id b.0
  pub usdc_row : HasRow ("system", usdc, omnibus) o.usdc_id b.0
  pub one_opening : select is_opening b.1 ≡ o.journal ∷ []
  pub opening_entry : postings_of o.journal.id b.2 ≡ o.entry

HasRow-shifted :
    (accounts : List Account) (d c : Account) (n : ℕ) (led : IsLedger accounts)
    (md : Memᴰ d accounts) (mc : Memᴰ c accounts) (ud : d.currency ≡ usd) (uc : c.currency ≡ usd)
    (ne : d.id ≢ c.id) (key : AccountIdentity) (i : ℕ)
    → HasRow key i accounts
    → HasRow key i (shifted accounts d c n)
HasRow-shifted accounts d c n led md mc ud uc ne key i (a, m, identity, id) =
    let (b, there, same, same_id) = mem-shifted accounts d c n led md mc ud uc ne m in
    (b, there, same ∙ identity, same_id ∙ id)

-- The journal of a movement is no opening one.
select-movement :
    (s : Settlement) (event : JournalEvent) (jid : ℕ) (journals : List JournalTransaction)
    → same_event event opening ≡ false
    → exists (λ k. k.id == jid) journals ≡ false
    → select is_opening (
        replace journal_id_of
          (journal_of s event jid)
          (journals ++ record (journal_of s event jid) { is_posted = false } ∷ []))
      ≡ select is_opening journals
select-movement s event jid journals other fresh =
    ap (select is_opening) (
      replace-insert journal_id_of (journal_of s event jid)
        (record (journal_of s event jid) { is_posted = false }) journals refl fresh)
    ∙ select-insert_none is_opening journals (journal_of s event jid) (ground arith)

module _ (o : SeedRows) where
  pub post-KeepsSeed :
      (s : Settlement) (event : JournalEvent) (dk ck : AccountKey) (jid : ℕ) (opened : Database)
      {db' : Database}
      → IsLedger opened.accounts
      → same_event event opening ≡ false
      → dk.1 ≢ ck.1
      → post s event dk ck jid opened ≡ (ok tt, db')
      → KeepsSeed o (books opened)
      → KeepsSeed o (books db')
  post-KeepsSeed s event dk ck jid opened led other apart e k =
      let (d, c, pair, can, written) = post-IsPostable s event dk ck jid opened e in
      let ((md, ud, kd), (mc, uc, kc)) = account_pair-Holds dk ck opened d c pair in
      let (_, pd) = has_key-eq dk.0 dk.1 d kd in
      let (_, pc) = has_key-eq ck.0 ck.1 c kc in
      let ne = ids_differ opened.accounts d c led.ids md mc (λ p. apart (sym pd ∙ p ∙ pc)) in
      let moves = HasRow-shifted opened.accounts d c s.amount_usd led md mc ud uc ne in
      let (in_opening, _) = mem_of_mem-select is_opening opened.journals (
        subst (λ (l : List JournalTransaction). Memᴰ o.journal l) (sym k.one_opening)
          (Memᴰ.head refl)) in
      let fresh : jid ≢ o.journal.id = λ p. cc (
        exists-of_mem (λ (k : JournalTransaction). k.id == jid) opened.journals in_opening
            ((==_iff o.journal.id jid).1 (sym p)),
        can.fresh_journal,
      ) in
      let not_j = ne_test fresh in
      subst (λ (x : Database). KeepsSeed o (books x)) (sym written)
        (record {
          available_row = moves _ _ k.available_row;
          reserved_row = moves _ _ k.reserved_row;
          usd_row = moves _ _ k.usd_row;
          usdc_row = moves _ _ k.usdc_row;
          one_opening =
              select-movement s event jid opened.journals other can.fresh_journal ∙ k.one_opening;
          opening_entry =
              select-insert_none (λ (p : Posting). p.journal_id == o.journal.id) _
                (posting_of jid c credit s.amount_usd) not_j
              ∙ select-insert_none (λ (p : Posting). p.journal_id == o.journal.id) _
                  (posting_of jid d debit s.amount_usd) not_j
              ∙ k.opening_entry;
        })
