-- ===== src/Service/Entries.antt =====
-- app/service.py: what each transaction does to the tables of the ledger, one movement at most.
use netaro_settlement_router.Prelude.{
  nat_eq, ℕ, ◌+◌, ◌≡◌, ◌≢◌, refl, sym, ap, ◌∙◌, inl, inr, Bool, false, Option, none, some, List, [],
  ◌∷◌, arith,
}
use netaro_settlement_router.Table.{replace}
use netaro_settlement_router.Models.{
  Account, AccountKey, Posting, Settlement, PayoutAttempt, JournalEvent, JournalTransaction,
  attempt_id_of, opening, same_event,
}
use netaro_settlement_router.Database.{Database, Result, ok, ◌>>=◌, >>=-eq-ok}
use netaro_settlement_router.Ledger.{post, reserve, consume, release}
use netaro_settlement_router.Provider.{ProviderResult, ambiguous}
use netaro_settlement_router.Schemas.{SettlementRead}
use netaro_settlement_router.Service.{
  PayoutClaim, claim_of, reclaimed, insert_settlement, insert_and_reserve, create_reserved,
  submit_reserved, insert_attempt, claim_reserved_locked, claim_reserved, claim_attempt,
  claim_locked, claim_for_reconciliation, claim_rows, claim_due_rows, due_rows, claim_due_batch,
  apply_result, finalize_locked, finalize_attempt,
}
use netaro_settlement_router.Service.Leases.{continue-pure}
use netaro_settlement_router.Service.Lifecycle.Results.{finalize_locked-runs}
use netaro_settlement_router.Service.Soundness.{transaction-keeps}

-- The tables of the ledger.
abbrev pub Books : Type 0
Books = List Account × List JournalTransaction × List Posting

abbrev pub books : Database → Books
books db = (db.accounts, db.journals, db.postings)

-- The books are left as they are, or one `_post` between accounts of two purposes has gone through.
pub data Enters (before after : Database) : Type 0 where
  unchanged : books after ≡ books before → Enters before after
  movement :
      (s : Settlement) (event : JournalEvent) (dk ck : AccountKey) (jid : ℕ)
      (opened posted : Database)
      → books opened ≡ books before
      → same_event event opening ≡ false
      → dk.1 ≢ ck.1
      → post s event dk ck jid opened ≡ (ok tt, posted)
      → books after ≡ books posted
      → Enters before after

insert_settlement-books :
    (s : Settlement) (db : Database) {u : Unit {0}} {db' : Database}
    → insert_settlement s db ≡ (ok u, db')
    → books db' ≡ books db
unfolding insert_settlement ◌>>=◌
insert_settlement-books s db e = ground arith

pub create_reserved-Enters :
    (s : Settlement) (jid : ℕ) (db : Database) → Enters db (create_reserved s jid db).1
unfolding create_reserved insert_and_reserve reserve
create_reserved-Enters s jid db =
    transaction-keeps (Enters db) (insert_and_reserve s jid) db (unchanged refl) (λ u db' e.
      let (u₁, db₁, e₁, rest) = >>=-eq-ok (insert_settlement s) _ db e in
      movement s _ _ _ jid db₁ db' (insert_settlement-books s db e₁) refl (λ p. cc) rest refl)

claim_reserved_locked-books :
    (i deadline : ℕ) (db : Database) (r : Option PayoutClaim) (db' : Database)
    → claim_reserved_locked i deadline db ≡ (ok r, db')
    → books db' ≡ books db
unfolding claim_reserved_locked submit_reserved insert_attempt ◌>>=◌
claim_reserved_locked-books i deadline db r db' e = ground arith

pub claim_reserved-Enters :
    (i deadline : ℕ) (db : Database) → Enters db (claim_reserved i deadline db).1
unfolding claim_reserved
claim_reserved-Enters i deadline db =
    transaction-keeps (Enters db) (claim_reserved_locked i deadline) db (unchanged refl)
      (λ r db' e. unchanged (claim_reserved_locked-books i deadline db r db' e))

claim_locked-books :
    (i : ℕ) (respect : Bool) (now deadline : ℕ) (db : Database) (r : Option PayoutClaim)
    (db' : Database)
    → claim_locked i respect now deadline db ≡ (ok r, db')
    → books db' ≡ books db
unfolding claim_locked claim_attempt insert_attempt ◌>>=◌
claim_locked-books i respect now deadline db r db' e = ground arith

pub claim_for_reconciliation-Enters :
    (i : ℕ) (respect : Bool) (now deadline : ℕ) (db : Database)
    → Enters db (claim_for_reconciliation i respect now deadline db).1
unfolding claim_for_reconciliation
claim_for_reconciliation-Enters i respect now deadline db =
    transaction-keeps (Enters db) (claim_locked i respect now deadline) db (unchanged refl)
      (λ r db' e. unchanged (claim_locked-books i respect now deadline db r db' e))

claim_rows-books :
    (deadline : ℕ → ℕ) (rows : List (Settlement × PayoutAttempt)) (db : Database)
    → books (claim_rows deadline rows db).1 ≡ books db
unfolding claim_rows ◌>>=◌
claim_rows-books deadline [] db = refl
claim_rows-books deadline ((s, a) ∷ rows) db =
    let later : Database = record db {
      attempts = replace attempt_id_of (reclaimed a (deadline s.id)) db.attempts;
    } in
    ap books (
      continue-pure (claim_rows deadline rows later)
        (λ claims. claim_of s (a.attempt_token + 1) ∷ claims))
    ∙ claim_rows-books deadline rows later

pub claim_due_batch-Enters :
    (is_locked : ℕ → Bool) (now : ℕ) (deadline : ℕ → ℕ) (limit : ℕ) (db : Database)
    → Enters db (claim_due_batch is_locked now deadline limit db).1
unfolding claim_due_batch claim_due_rows ◌>>=◌
claim_due_batch-Enters is_locked now deadline limit db =
    transaction-keeps (Enters db) (claim_due_rows is_locked now deadline limit) db (unchanged refl)
      (λ claims db' e. unchanged (
        ap (λ (q : Result (List PayoutClaim) × Database). books q.1) (sym e)
        ∙ claim_rows-books deadline (due_rows is_locked now limit db) db))

apply_result-Enters :
    (s : Settlement) (a : PayoutAttempt) (result : Option ProviderResult) (jid now : ℕ)
    (db : Database) {r : SettlementRead} {db' : Database}
    → apply_result s a result jid now db ≡ (ok r, db')
    → Enters db db'
unfolding apply_result consume release ◌>>=◌
apply_result-Enters s a (some ProviderResult.paid) jid now db e =
    let (u, db₁, posting, rest) = >>=-eq-ok (consume s jid) _ db e in
    movement s _ _ _ jid db db₁ refl refl (λ p. cc) posting
      (ap (λ (q : Result SettlementRead × Database). books q.1) (sym rest))
apply_result-Enters s a (some ProviderResult.unpaid) jid now db e =
    let (u, db₁, posting, rest) = >>=-eq-ok (release s jid) _ db e in
    movement s _ _ _ jid db db₁ refl refl (λ p. cc) posting
      (ap (λ (q : Result SettlementRead × Database). books q.1) (sym rest))
apply_result-Enters s a (some ambiguous) jid now db e =
    unchanged (ap (λ (q : Result SettlementRead × Database). books q.1) (sym e))
apply_result-Enters s a none jid now db e =
    unchanged (ap (λ (q : Result SettlementRead × Database). books q.1) (sym e))

pub finalize_attempt-Enters :
    (i token : ℕ) (result : Option ProviderResult) (jid now : ℕ) (db : Database)
    → Enters db (finalize_attempt i token result jid now db).1
unfolding finalize_attempt
finalize_attempt-Enters i token result jid now db =
    transaction-keeps (Enters db) (finalize_locked i token result jid now) db (unchanged refl)
      (λ r db' e.
        let (s, a, _, _, cases) = finalize_locked-runs i token result jid now db r db' e in
        elim cases [
          | inl same ↦ unchanged (ap books same)
          | inr (_, applied) ↦ apply_result-Enters s a result jid now db applied
        ])
