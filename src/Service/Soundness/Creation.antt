-- ===== src/Service/Soundness/Creation.antt =====
-- app/service.py: the transaction of `create` on a sound database.
use netaro_settlement_router.Prelude.{
  nat_eq, ℕ, ◌≡◌, ◌≢◌, ◌<◌, refl, ap, subst, true, false, ◌==◌, none, List, [], ◌∷◌, ◌++◌, Memᴰ,
  arith, exists, exists-of_mem,
}
use netaro_settlement_router.Table.{lookup, lookup_none}
use netaro_settlement_router.Table.Updates.{Distinct-insert}
use netaro_settlement_router.Models.{
  Settlement, SettlementStatus, JournalEvent, available, AccountPurpose, idempotency_of,
  idempotency_eq, settlement_id_of, is_open, is_reserved,
}
use netaro_settlement_router.Database.{Database, ok, ◌>>=◌, >>=-eq-ok, numeric_24}
use netaro_settlement_router.Ledger.{reserve}
use netaro_settlement_router.Ledger.Invariant.{has_key-eq}
use netaro_settlement_router.Ledger.Movement.{post-IsPostable, account_pair-Holds}
use netaro_settlement_router.Service.{insert_settlement, insert_and_reserve, create_reserved}
use netaro_settlement_router.Service.Backing.Moves.{reserve-IsBacked}
use netaro_settlement_router.Service.Recording.{reserve-IsRecorded}
use netaro_settlement_router.Service.Submission.{create-IsSubmitted}
use netaro_settlement_router.Service.Soundness.Defs.{IsSound, transaction-keeps}

-- What the constraints have ensured of a row that is inserted.
pub record IsInsertable (s : Settlement) (db : Database) : Type 0 where
  pub positive : 0 < s.amount_usd
  pub fits : s.amount_usd < numeric_24
  pub operation : s.provider_operation_id ≡ s.id
  pub fresh_id : exists (λ q. q.id == s.id) db.settlements ≡ false
  pub fresh_key :
      exists (λ q. idempotency_eq.beq (idempotency_of q) (idempotency_of s)) db.settlements ≡ false

pub insert_settlement-eq-ok :
    (s : Settlement) (db : Database) {u : Unit {0}} {db₁ : Database}
    → insert_settlement s db ≡ (ok u, db₁)
    → IsInsertable s db × (db₁ ≡ record db { settlements = db.settlements ++ s ∷ [] })
unfolding insert_settlement ◌>>=◌
insert_settlement-eq-ok s db h = ground arith

not_there :
    (i : ℕ) (settlements : List Settlement)
    → exists (λ q. q.id == i) settlements ≡ false
    → lookup settlement_id_of i settlements ≡ none
not_there i [] h = refl
not_there i (s ∷ rest) h = ground (arith, not_there i rest)

insert_and_reserve-IsSound :
    (s : Settlement) (jid : ℕ) (db : Database)
    → is_reserved s.status ≡ true
    → IsSound db
    → (u : Unit {0}) (db' : Database) → insert_and_reserve s jid db ≡ (ok u, db')
    → IsSound db'
unfolding insert_and_reserve reserve
insert_and_reserve-IsSound s jid db was h u db' e =
    let (_, db₁, e₁, posting) = >>=-eq-ok (insert_settlement s) _ db e in
    let (can_insert, inserted) = insert_settlement-eq-ok s db e₁ in
    let (d, c, pair, can, written) =
      post-IsPostable s JournalEvent.reserve (s.owner_id, available)
        (s.owner_id, AccountPurpose.reserved) jid db₁ posting in
    let ((md, ud, kd), (mc, uc, kc)) =
      account_pair-Holds (s.owner_id, available) (s.owner_id, AccountPurpose.reserved) db₁ d c
        pair in
    let (od, pd) = has_key-eq s.owner_id available d kd in
    let (oc, pc) = has_key-eq s.owner_id AccountPurpose.reserved c kc in
    let same_accounts = ap (λ (x : Database). x.accounts) inserted in
    let same_journals = ap (λ (x : Database). x.journals) inserted in
    let new = not_there s.id db.settlements can_insert.fresh_id in
    rw written (
      rw inserted (record {
        backed =
            reserve-IsBacked h.backed s d c (subst (Memᴰ d) same_accounts md)
              (subst (Memᴰ c) same_accounts mc) ud uc can.debit_nonneg can.credit_nonneg pd pc od oc
              (opened s.status was) (lookup_none settlement_id_of s.id db.settlements new)
              (can_insert.positive, can_insert.fits);
        recorded =
            reserve-IsRecorded s JournalEvent.reserve jid db.journals
              (subst (λ l. exists (λ k. k.id == jid) l ≡ false) same_journals can.fresh_journal)
              h.recorded new refl (opened s.status was);
        submitted = create-IsSubmitted h.submitted s new was can_insert.operation;
        keys = Distinct-insert idempotency_of s db.settlements h.keys (λ q m p. key_free q m p);
      }))
  where
    opened : (st : SettlementStatus) → is_reserved st ≡ true → is_open st ≡ true
    opened st p = ground arith

    key_free : (q : Settlement) → Memᴰ q db.settlements → idempotency_of q ≢ idempotency_of s
    key_free q m p =
        let (_, db₁, e₁, _) = >>=-eq-ok (insert_settlement s) _ db e in
        cc (
          (insert_settlement-eq-ok s db e₁).0.fresh_key,
          exists-of_mem
              (λ (x : Settlement). idempotency_eq.beq (idempotency_of x) (idempotency_of s))
              db.settlements m ((idempotency_eq.beq_iff (idempotency_of q) (idempotency_of s)).1 p),
        )

-- The transaction of `create`, for a settlement in RESERVED, leaves a sound database sound.
pub create_reserved-IsSound :
    (s : Settlement) (jid : ℕ) (db : Database)
    → is_reserved s.status ≡ true
    → IsSound db
    → IsSound (create_reserved s jid db).1
unfolding create_reserved
create_reserved-IsSound s jid db was h =
    transaction-keeps IsSound (insert_and_reserve s jid) db h
      (insert_and_reserve-IsSound s jid db was h)
