-- ===== src/Http/Refused.antt =====
-- app/main.py, app/service.py, app/ledger.py: a new settlement for which the customer's balance is too small.
use netaro_settlement_router.Prelude.{
  nat_eq, ℕ, ◌≡◌, refl, ◌∙◌, String, true, false, List, [], ◌∷◌, ◌++◌, arith, exists, ◌==◌,
}
use netaro_settlement_router.Prelude.Int.{pos, ltb_ℤ}
use netaro_settlement_router.Models.{
  Account, Settlement, AccountKey, JournalEvent, available, AccountPurpose, idempotency_of,
  idempotency_eq,
}
use netaro_settlement_router.Schemas.{SettlementCreate}
use netaro_settlement_router.Database.{Database, ok, err, insufficient_funds, ◌>>=◌}
use netaro_settlement_router.Ledger.{account_pair, locked_accounts, write_movement, post, reserve}
use netaro_settlement_router.Provider.{PayoutProvider}
use netaro_settlement_router.Http.{reply_of_call, handle, respond, detail}
use netaro_settlement_router.Service.{create_reserved, insert_and_reserve, insert_settlement}
use netaro_settlement_router.Service.Tasks.{World, Inputs, inserting, done, step}
use netaro_settlement_router.Service.Tasks.Replay.{IsInsertable}

insert_settlement-ok :
    (s : Settlement) (db : Database)
    → IsInsertable s
    → exists (λ q. q.id == s.id) db.settlements ≡ false
    → exists (λ q. idempotency_eq.beq (idempotency_of q) (idempotency_of s)) db.settlements ≡ false
    → insert_settlement s db ≡ (ok tt, record db { settlements = db.settlements ++ s ∷ [] })
unfolding insert_settlement ◌>>=◌
insert_settlement-ok s db fits fresh_id fresh_key =
    ground (arith, fits.amount, fits.rate, fits.quoted, fits.version, fits.operation)

account_pair-accounts :
    (dk ck : AccountKey) (settlements : List Settlement) (db : Database)
    → account_pair dk ck (record db { settlements = settlements }) ≡ account_pair dk ck db
unfolding account_pair locked_accounts
account_pair-accounts dk ck settlements db = refl

write_movement-poor :
    (s : Settlement) (event : JournalEvent) (jid : ℕ) (d c : Account) (db : Database)
    → ltb_ℤ d.balance (pos s.amount_usd) ≡ true
    → write_movement s event jid (d, c) db ≡ (err insufficient_funds, db)
unfolding write_movement ◌>>=◌
write_movement-poor s event jid d c db poor = ground arith

post-poor :
    (s : Settlement) (event : JournalEvent) (dk ck : AccountKey) (jid : ℕ) (d c : Account)
    (db : Database)
    → account_pair dk ck db ≡ ok (d, c)
    → ltb_ℤ d.balance (pos s.amount_usd) ≡ true
    → post s event dk ck jid db ≡ (err insufficient_funds, db)
unfolding post ◌>>=◌
post-poor s event dk ck jid d c db pair poor =
    rw (pair, write_movement-poor s event jid d c db poor) refl

create_reserved-poor :
    (s : Settlement) (jid : ℕ) (db : Database) (d c : Account)
    → IsInsertable s
    → exists (λ q. q.id == s.id) db.settlements ≡ false
    → exists (λ q. idempotency_eq.beq (idempotency_of q) (idempotency_of s)) db.settlements ≡ false
    → account_pair (s.owner_id, available) (s.owner_id, AccountPurpose.reserved) db ≡ ok (d, c)
    → ltb_ℤ d.balance (pos s.amount_usd) ≡ true
    → create_reserved s jid db ≡ (err insufficient_funds, db)
unfolding create_reserved insert_and_reserve reserve ◌>>=◌
create_reserved-poor s jid db d c fits fresh_id fresh_key pair poor =
    rw
      (
        insert_settlement-ok s db fits fresh_id fresh_key,
        post-poor s JournalEvent.reserve (s.owner_id, available)
            (s.owner_id, AccountPurpose.reserved) jid d c
            (record db { settlements = db.settlements ++ s ∷ [] })
            (account_pair-accounts (s.owner_id, available) (s.owner_id, AccountPurpose.reserved)
                (db.settlements ++ s ∷ []) db
              ∙ pair)
            poor,
      )
      refl

module _ {P : Type 0} (provider : PayoutProvider P)
    (request_fingerprint : String → SettlementCreate → String) where
  -- A new settlement for more than the customer's available balance ends the call in
  -- InsufficientFunds, whose reply is 409, and leaves no trace: neither the settlement nor a journal
  -- is there.
  pub insert-poor :
      (inputs : Inputs) (s : Settlement) (w : World P) (d c : Account)
      → IsInsertable s
      → exists (λ q. q.id == s.id) w.db.settlements ≡ false
      → exists (λ q. idempotency_eq.beq (idempotency_of q) (idempotency_of s)) w.db.settlements
        ≡ false
      → account_pair (s.owner_id, available) (s.owner_id, AccountPurpose.reserved) w.db ≡ ok (d, c)
      → ltb_ℤ d.balance (pos s.amount_usd) ≡ true
      → (step provider request_fingerprint inputs (inserting s) w
          ≡ (done (err insufficient_funds), w))
        × (reply_of_call (err insufficient_funds) ≡ respond 409 (detail "insufficient funds"))
  unfolding step reply_of_call handle
  insert-poor inputs s w d c fits fresh_id fresh_key pair poor = (
    rw (create_reserved-poor s inputs.journal_id w.db d c fits fresh_id fresh_key pair poor) refl,
    refl,
  )
