-- ===== src/Service/Settling.antt =====
-- app/service.py: what `_finalize_attempt` ends in, for a current and for a stale token.
use netaro_settlement_router.Prelude.{
  if◌then◌else◌, ◌&&◌, Bool-cases, inl, inr, nat_eq, ℕ, ◌≡◌, ◌≢◌, refl, sym, ap, ◌∙◌, subst, true,
  false, ◌==◌, ==_iff, Option, none, some, Memᴰ, arith, String, exists,
}
use netaro_settlement_router.Prelude.Int.{pos, ◌≤ℤ◌, int_laws, parts_of_eq}
use netaro_settlement_router.Routing.Types.{usd}
use netaro_settlement_router.Table.{lookup, lookup_of_mem}
use netaro_settlement_router.Table.Sums.{le-sum_by}
use netaro_settlement_router.Models.{
  Account, AccountPurpose, available, omnibus, Settlement, SettlementStatus, success, failed,
  pending_reconciliation, PayoutAttempt, JournalEvent, settlement_id_of, identity_of, is_open,
  same_event, AccountKey,
}
use netaro_settlement_router.Database.{
  Database, stale_attempt_token, Result, ok, err, ◌>>=◌, result-transaction,
}
use netaro_settlement_router.Ledger.{post, consume, release, account_pair}
use netaro_settlement_router.Ledger.Movement.{post-ok, posted, account_pair-Holds}
use netaro_settlement_router.Ledger.Invariant.{has_key-eq}
use netaro_settlement_router.Ledger.Payable.{account_pair_total, movement-IsPostable}
use netaro_settlement_router.Provider.{ProviderResult, ambiguous}
use netaro_settlement_router.Schemas.{SettlementRead, from_orm_settlement}
use netaro_settlement_router.Service.{apply_result, finalize_locked, finalize_attempt}
use netaro_settlement_router.Service.Backing.{
  HasAccount, open_amount, open_total, open_amount_nonneg, open_amount_self,
}
use netaro_settlement_router.Service.Recording.{events, lifecycle, first_event_of}
use netaro_settlement_router.Service.Submission.{attempt_for}
use netaro_settlement_router.Service.Soundness.{IsSound}

currency_of :
    (a : Account) {o : String} {p : AccountPurpose} → identity_of a ≡ (o, usd, p) → a.currency ≡ usd
currency_of a k = cc

key_of :
    (a : Account) {o : String} {p : AccountPurpose}
    → identity_of a ≡ (o, usd, p)
    → ◌≡◌ {A = AccountKey} (a.owner_id, a.purpose) (o, p)
key_of a k = cc

module _ {db : Database} (h : IsSound db) (s : Settlement) (m : Memᴰ s db.settlements)
    (was : is_open s.status ≡ true) where
  -- The reserved account of the owner of an open settlement covers its amount.
  covered :
      (d : Account)
      → Memᴰ d db.accounts
      → d.currency ≡ usd
      → d.purpose ≡ AccountPurpose.reserved
      → d.owner_id ≡ s.owner_id
      → pos s.amount_usd ≤ℤ d.balance
  covered d md ud pd od = omega (
    int_laws,
    parts_of_eq (h.backed.reserved d md ud pd),
    parts_of_eq (ap (λ o. open_total o db.settlements) od),
    parts_of_eq (open_amount_self s was),
    le-sum_by (open_amount s.owner_id) db.settlements s (λ q n. open_amount_nonneg s.owner_id q) m,
  )

  -- A payout result of an open settlement can be posted.
  post-settles :
      (event : JournalEvent) (o : String) (p : AccountPurpose) (jid : ℕ)
      → HasAccount o p db.accounts
      → p ≢ AccountPurpose.reserved
      → exists (same_event event) (events s.id db.journals) ≡ false
      → exists (λ k. k.id == jid) db.journals ≡ false
      → (db₁ : Database) × (post s event (s.owner_id, AccountPurpose.reserved) (o, p) jid db
          ≡ (ok tt, db₁))
  post-settles event o p jid (c₀, mc₀, kc₀) other first fresh =
      let (d₀, md₀, kd₀) = h.backed.has_reserved s m in
      let (d, c, pair₀) =
        account_pair_total db d₀ c₀ md₀ mc₀ (currency_of d₀ kd₀) (currency_of c₀ kc₀) in
      let pair : account_pair (s.owner_id, AccountPurpose.reserved) (o, p) db ≡ ok (d, c) =
        subst (λ k. account_pair k (o, p) db ≡ ok (d, c)) (key_of d₀ kd₀)
          (subst (λ k. account_pair (d₀.owner_id, d₀.purpose) k db ≡ ok (d, c)) (key_of c₀ kc₀)
            pair₀) in
      let ((md, ud, kd), (mc, uc, kc)) =
        account_pair-Holds (s.owner_id, AccountPurpose.reserved) (o, p) db d c pair in
      let (od, pd) = has_key-eq s.owner_id AccountPurpose.reserved d kd in
      let (oc, pc) = has_key-eq o p c kc in
      let (positive, fits) = h.backed.amounts s m in
      (
        posted s event jid d c db,
        post-ok s event (s.owner_id, AccountPurpose.reserved) (o, p) jid db d c pair
            (movement-IsPostable s event jid db h.backed.ledger d c md mc ud uc pd
              (λ r. other (sym pc ∙ r)) (covered d md ud pd od) positive fits fresh
              (first_event_of s event jid db.journals first)),
      )

-- What a result makes of an open settlement.
abbrev pub concluded_status : Option ProviderResult → SettlementStatus
concluded_status (some ProviderResult.paid) = success
concluded_status (some ProviderResult.unpaid) = failed
concluded_status _ = pending_reconciliation

no_consume :
    (st : SettlementStatus)
    → is_open st ≡ true
    → exists (same_event JournalEvent.consume) (lifecycle st) ≡ false
no_consume st h = ground arith

no_release :
    (st : SettlementStatus)
    → is_open st ≡ true
    → exists (same_event JournalEvent.release) (lifecycle st) ≡ false
no_release st h = ground arith

apply_result-concludes :
    {db : Database} (h : IsSound db) (s : Settlement) (a : PayoutAttempt)
    (m : Memᴰ s db.settlements) (was : is_open s.status ≡ true) (result : Option ProviderResult)
    (jid now : ℕ)
    → exists (λ k. k.id == jid) db.journals ≡ false
    → (apply_result s a result jid now db).0
      ≡ ok (from_orm_settlement (record s { status = concluded_status result }))
unfolding apply_result consume release ◌>>=◌
apply_result-concludes {db} h s a m was (some ProviderResult.paid) jid now fresh =
    let first : exists (same_event JournalEvent.consume) (events s.id db.journals) ≡ false =
      ap (exists (same_event JournalEvent.consume)) (h.recorded.recorded s m)
      ∙ no_consume s.status was in
    let (db₁, posting) =
      post-settles h s m was JournalEvent.consume "system" omnibus jid h.backed.has_omnibus
        (λ p. cc) first fresh in
    rw posting
apply_result-concludes {db} h s a m was (some ProviderResult.unpaid) jid now fresh =
    let first : exists (same_event JournalEvent.release) (events s.id db.journals) ≡ false =
      ap (exists (same_event JournalEvent.release)) (h.recorded.recorded s m)
      ∙ no_release s.status was in
    let (db₁, posting) =
      post-settles h s m was JournalEvent.release s.owner_id available jid
        (h.backed.has_available s m) (λ p. cc) first fresh in
    rw posting
apply_result-concludes h s a m was (some ambiguous) jid now fresh = refl
apply_result-concludes h s a m was none jid now fresh = refl

-- With the current token, the block gets to the result.
finalize_locked-current :
    (db : Database) (s : Settlement) (a : PayoutAttempt) (result : Option ProviderResult)
    (jid now : ℕ)
    → lookup settlement_id_of s.id db.settlements ≡ some s
    → attempt_for s.id db.attempts ≡ some a
    → is_open s.status ≡ true
    → finalize_locked s.id a.attempt_token result jid now db ≡ apply_result s a result jid now db
unfolding finalize_locked ◌>>=◌
finalize_locked-current db s a result jid now found attempted was =
    rw found (rw attempted (rw ((==_iff a.attempt_token a.attempt_token).1 refl) (rw was)))

-- In a sound database `_finalize_attempt`, called with the attempt's current token for an open
-- settlement and with an id that no journal has, does not raise: no account lacks the funds, no
-- constraint is violated and no balance leaves its column. The settlement is SUCCESS after a paid
-- result, FAILED after an unpaid one, and PENDING_RECONCILIATION after any other.
pub finalize_attempt-concludes :
    (db : Database) (s : Settlement) (a : PayoutAttempt) (result : Option ProviderResult)
    (jid now : ℕ)
    → IsSound db
    → Memᴰ s db.settlements
    → attempt_for s.id db.attempts ≡ some a
    → is_open s.status ≡ true
    → exists (λ k. k.id == jid) db.journals ≡ false
    → (finalize_attempt s.id a.attempt_token result jid now db).0
      ≡ ok (from_orm_settlement (record s { status = concluded_status result }))
unfolding finalize_attempt
finalize_attempt-concludes db s a result jid now h m attempted was fresh =
    result-transaction (finalize_locked s.id a.attempt_token result jid now) db
    ∙ ap (λ (q : Result SettlementRead × Database). q.0)
        (finalize_locked-current db s a result jid now
          (lookup_of_mem settlement_id_of db.settlements h.backed.settlement_ids m) attempted was)
    ∙ apply_result-concludes h s a m was result jid now fresh

-- Fencing: if the token is not the attempt's current one, or the settlement is closed,
-- `_finalize_attempt` changes nothing, whatever the result: with another token it raises
-- StaleAttemptToken, with the current one it returns the settlement as it is.
pub finalize_attempt-fenced :
    (db : Database) (s : Settlement) (a : PayoutAttempt) (token : ℕ)
    (result : Option ProviderResult) (jid now : ℕ)
    → lookup settlement_id_of s.id db.settlements ≡ some s
    → attempt_for s.id db.attempts ≡ some a
    → (a.attempt_token == token && is_open s.status) ≡ false
    → finalize_attempt s.id token result jid now db ≡ (
      if a.attempt_token == token then ok (from_orm_settlement s) else err stale_attempt_token,
      db,
    )
unfolding finalize_attempt finalize_locked ◌>>=◌
finalize_attempt-fenced db s a token result jid now found attempted out = rw found (
    rw attempted (elim (Bool-cases (a.attempt_token == token)) [
      | inl same ↦ rw same (rw (rw same at out))
      | inr differs ↦ rw differs
    ]))
