-- ===== src/Tests/Example.antt =====
-- A seeded database, one request, and the tables along its settlement.
use netaro_settlement_router.Prelude.{
  true, each, ◌++◌, ◌≡◌, ap, nat_eq, Option, some, none, ℕ, arith, subst, refl, List, [], ◌∷◌, Memᴰ,
  String,
}
use netaro_settlement_router.Prelude.Int.{pos, ◌+ℤ◌, ◌-ℤ◌}
use netaro_settlement_router.Routing.Types.{Currency, usd, usdc, php}
use netaro_settlement_router.Table.{Distinct}
use netaro_settlement_router.Models.{
  opening, JournalTransaction, Posting, success, completed, PayoutAttempt, JournalEvent, debit,
  credit, submitting, payout_in_progress, account_id_of, identity_of, Account, AccountClass, asset,
  liability, AccountPurpose, available, omnibus, Settlement, SettlementStatus,
}
use netaro_settlement_router.Ledger.Audit.{IsAudited}
use netaro_settlement_router.Ledger.Movement.{journal_of}
use netaro_settlement_router.Ledger.{
  consume, reserve, post, account_pair, locked_accounts, locked_rows, order_by_id, write_movement,
  insert_journal, insert_posting, update_account, apply_posting, moved_balance, posting_of,
}
use netaro_settlement_router.Database.{◌>>=◌, Result, ok, Database}
use netaro_settlement_router.Ledger.Invariant.{IsLedger}
use netaro_settlement_router.Schemas.{SettlementRead, from_orm_settlement}
use netaro_settlement_router.Provider.{ProviderResult}
use netaro_settlement_router.Service.{
  finalize_attempt, finalize_locked, apply_result, create_reserved, insert_and_reserve,
  insert_settlement, claim_reserved, claim_reserved_locked, submit_reserved, insert_attempt,
  claim_of, reclaimed, PayoutClaim,
}
use netaro_settlement_router.Service.Recording.{events}
use netaro_settlement_router.Service.Soundness.{
  finalize_attempt-IsSound, IsSound, create_reserved-IsSound, claim_reserved-IsSound,
}

abbrev pub account : ℕ → String → Currency → AccountClass → AccountPurpose → ℕ → Account
account id owner currency class purpose balance = record {
  id = id;
  owner_id = owner;
  currency = currency;
  account_class = class;
  purpose = purpose;
  balance = pos balance;
}

-- The accounts of the seed, in an order that is not that of their ids.
abbrev pub seeded_accounts : List Account
seeded_accounts =
    account 3 "system" usd asset omnibus 1000
    ∷ account 4 "system" usdc asset omnibus 0
    ∷ account 1 "demo" usd liability available 1000
    ∷ account 2 "demo" usd liability AccountPurpose.reserved 0
    ∷ []

-- The opening balance: a debit of the omnibus account, and a credit of the customer's.
abbrev pub opening_journal : JournalTransaction
opening_journal = record { id = 19; settlement_id = none; event = opening; is_posted = true }

abbrev pub opening_postings : List Posting
opening_postings =
    posting_of 19 (account 3 "system" usd asset omnibus 0) debit 1000
    ∷ posting_of 19 (account 1 "demo" usd liability available 0) credit 1000
    ∷ []

abbrev pub seeded : Database
seeded = record {
  accounts = seeded_accounts;
  settlements = [];
  journals = opening_journal ∷ [];
  postings = opening_postings;
  attempts = [];
}

abbrev pub order : Settlement
order = record {
  id = 7;
  owner_id = "demo";
  idempotency_key = "first";
  request_fingerprint = "demo";
  amount_usd = 400;
  target_currency = php;
  route = [];
  snapshot_version = 1;
  aggregate_rate = 5;
  quoted_amount = 2000;
  provider_operation_id = 7;
  status = SettlementStatus.reserved;
}

seeded-ids : Distinct account_id_of seeded_accounts
seeded-ids = (
  each _ _ ((λ p. omega (arith, p)), ((λ p. omega (arith, p)), ((λ p. omega (arith, p)), tt))),
  (
    each _ _ ((λ p. omega (arith, p)), ((λ p. omega (arith, p)), tt)),
    (each _ _ ((λ p. omega (arith, p)), tt), ((λ a m. elim m [ ]), tt)),
  ),
)

seeded-identities : Distinct identity_of seeded_accounts
seeded-identities = (
  each _ _ ((λ p. ground arith), ((λ p. ground arith), ((λ p. ground arith), tt))),
  (
    each _ _ ((λ p. ground arith), ((λ p. ground arith), tt)),
    (each _ _ ((λ p. ground arith), tt), ((λ a m. elim m [ ]), tt)),
  ),
)

seeded-IsLedger : IsLedger seeded_accounts
unfolding ◌+ℤ◌ ◌-ℤ◌
seeded-IsLedger = record {
  ids = seeded-ids;
  identities = seeded-identities;
  nonneg = each _ _ (ground arith, (ground arith, (ground arith, (ground arith, tt))));
  classes = each _ _ (refl, (refl, (refl, (refl, tt))));
  omnibus_owner = each _ _ ((λ p. refl), ((λ p. refl), ((λ p. cc), ((λ p. cc), tt))));
  balanced = refl;
  bounded = refl;
}

-- The only account with a reserved balance is the customer's, and it is empty.
pub seeded-IsSound : IsSound seeded
unfolding events
seeded-IsSound = record {
  backed = record {
    ledger = seeded-IsLedger;
    settlement_ids = tt;
    amounts = λ s m. elim m [ ];
    has_available = λ s m. elim m [ ];
    has_reserved = λ s m. elim m [ ];
    has_omnibus = (account 3 "system" usd asset omnibus 1000, Memᴰ.head refl, refl);
    reserved = each _ _ ((λ u r. cc), ((λ u r. cc), ((λ u r. cc), ((λ u r. refl), tt))));
  };
  recorded = record { recorded = λ s m. elim m [ ]; unrecorded = λ i h. refl };
  submitted = record {
    operations = λ s m. elim m [ ];
    unsubmitted = λ s m. elim m [ ];
    submitted = λ s m. elim m [ ];
    orphans = λ i h. refl;
    attempt_ids = tt;
    attempt_rows = λ a m. elim m [ ];
  };
  keys = tt;
}

-- Its balances are those of the opening postings.
pub seeded-IsAudited : IsAudited seeded.accounts seeded.postings
unfolding ◌+ℤ◌ ◌-ℤ◌
seeded-IsAudited = record {
  balances = each _ _ (refl, (refl, (refl, (refl, tt))));
  balanced = λ journal currency. ground arith;
  accounted = each _ _ (refl, (refl, tt));
}

-- The tables after the transaction of `create`.
abbrev pub created : Database
created = record {
  accounts =
      account 3 "system" usd asset omnibus 1000
      ∷ account 4 "system" usdc asset omnibus 0
      ∷ account 1 "demo" usd liability available 600
      ∷ account 2 "demo" usd liability AccountPurpose.reserved 400
      ∷ [];
  settlements = order ∷ [];
  journals = opening_journal ∷ journal_of order JournalEvent.reserve 20 ∷ [];
  postings =
      opening_postings
      ++ posting_of 20 (account 1 "demo" usd liability available 1000) debit 400
        ∷ posting_of 20 (account 2 "demo" usd liability AccountPurpose.reserved 0) credit 400
        ∷ [];
  attempts = [];
}

created-run : create_reserved order 20 seeded ≡ (ok tt, created)
unfolding create_reserved insert_and_reserve insert_settlement reserve post account_pair
    locked_accounts locked_rows order_by_id write_movement insert_journal insert_posting
    update_account apply_posting moved_balance ◌+ℤ◌ ◌-ℤ◌ ◌>>=◌
created-run = refl

pub created-IsSound : IsSound created
created-IsSound =
    subst IsSound (ap (λ (q : Result (Unit {0}) × Database). q.1) created-run)
      (create_reserved-IsSound order 20 seeded refl seeded-IsSound)

abbrev pub in_progress : Settlement
in_progress = record order { status = payout_in_progress }

abbrev pub first_attempt : PayoutAttempt
first_attempt = record {
  settlement_id = 7;
  operation_id = 7;
  state = submitting;
  attempt_token = 1;
  lease_expires_at = 50;
  last_outcome = none;
}

-- The tables after `_claim_reserved`.
abbrev pub submitted : Database
submitted = record created { settlements = in_progress ∷ []; attempts = first_attempt ∷ [] }

submitted-run : claim_reserved 7 50 created ≡ (ok (some (claim_of in_progress 1)), submitted)
unfolding claim_reserved claim_reserved_locked submit_reserved insert_attempt ◌>>=◌
submitted-run = refl

pub submitted-IsSound : IsSound submitted
submitted-IsSound =
    subst IsSound (ap (λ (q : Result (Option PayoutClaim) × Database). q.1) submitted-run)
      (claim_reserved-IsSound 7 50 created created-IsSound)

-- The tables after a later `_claim_for_reconciliation`.
abbrev pub taken : Database
taken = record submitted { attempts = reclaimed first_attempt 90 ∷ [] }

abbrev pub paid_order : Settlement
paid_order = record order { status = success }

-- The tables after the result of the first attempt.
abbrev pub paid : Database
paid = record {
  accounts =
      account 3 "system" usd asset omnibus 600
      ∷ account 4 "system" usdc asset omnibus 0
      ∷ account 1 "demo" usd liability available 600
      ∷ account 2 "demo" usd liability AccountPurpose.reserved 0
      ∷ [];
  settlements = paid_order ∷ [];
  journals = created.journals ++ journal_of order JournalEvent.consume 21 ∷ [];
  postings =
      created.postings
      ++ posting_of 21 (account 2 "demo" usd liability AccountPurpose.reserved 400) debit 400
        ∷ posting_of 21 (account 3 "system" usd asset omnibus 1000) credit 400
        ∷ [];
  attempts = record first_attempt { state = completed; last_outcome = some "PAID" } ∷ [];
}

paid-run :
    finalize_attempt 7 1 (some ProviderResult.paid) 21 70 submitted
    ≡ (ok (from_orm_settlement paid_order), paid)
unfolding finalize_attempt finalize_locked apply_result consume post account_pair locked_accounts
    locked_rows order_by_id write_movement insert_journal insert_posting update_account
    apply_posting moved_balance ◌+ℤ◌ ◌-ℤ◌ ◌>>=◌
paid-run = refl

pub paid-IsSound : IsSound paid
paid-IsSound =
    subst IsSound (ap (λ (q : Result SettlementRead × Database). q.1) paid-run)
      (finalize_attempt-IsSound 7 1 (some ProviderResult.paid) 21 70 submitted submitted-IsSound)
