-- ===== src/Service/Soundness/Results.antt =====
-- app/service.py: `_finalize_attempt` on a sound database.
use netaro_settlement_router.Prelude.{
  nat_eq, ℕ, ◌≡◌, ◌≢◌, refl, sym, ap, ◌∙◌, subst, inl, inr, String, Bool, true, false, not, ◌==◌,
  Option, none, some, [], ◌∷◌, ◌++◌, Memᴰ, arith, Bool-cases,
}
use netaro_settlement_router.Table.{replace, lookup-mem}
use netaro_settlement_router.Models.{
  Settlement, SettlementStatus, success, failed, pending_reconciliation, PayoutAttempt,
  JournalEvent, AccountPurpose, available, omnibus, completed, settlement_id_of, attempt_id_of,
  is_open, is_reserved,
}
use netaro_settlement_router.Database.{
  Database, Result, ok, ◌>>=◌, >>=-eq-ok, lift-eq-ok, or_raise, or_raise-eq-ok,
  settlement_not_found, stale_attempt_token, Error, reads, raise_if,
}
use netaro_settlement_router.Ledger.{post, consume, release}
use netaro_settlement_router.Ledger.Invariant.{has_key-eq}
use netaro_settlement_router.Ledger.Movement.{post-IsPostable, account_pair-Holds}
use netaro_settlement_router.Provider.{ProviderResult, ambiguous}
use netaro_settlement_router.Schemas.{SettlementRead}
use netaro_settlement_router.Service.{
  set_status, locked_settlement, apply_result, finalize_locked, finalize_attempt, finished,
  left_pending, outcome_of,
}
use netaro_settlement_router.Service.Backing.Moves.{move_on-IsBacked, settle-IsBacked}
use netaro_settlement_router.Service.Recording.{lifecycle, move_on-IsRecorded, settle-IsRecorded}
use netaro_settlement_router.Service.Submission.{
  attempt_for, update-IsSubmitted, move_on-IsSubmitted,
}
use netaro_settlement_router.Service.Soundness.Defs.{IsSound, transaction-keeps, keys-replace}

-- The tables after the settlement's status and the attempt's row are written.
abbrev concluded : Settlement → SettlementStatus → PayoutAttempt → Database → Database
concluded s status attempt db = record (set_status s status db) {
  attempts = replace attempt_id_of attempt db.attempts;
}

module _ {db : Database} (h : IsSound db) (s : Settlement) (a b : PayoutAttempt)
    (m : Memᴰ s db.settlements) (found : attempt_for s.id db.attempts ≡ some a)
    (same : b.settlement_id ≡ a.settlement_id) (op : b.operation_id ≡ a.operation_id)
    (token : b.attempt_token ≡ a.attempt_token) where
  left : is_reserved s.status ≡ false
  left = elim (Bool-cases (is_reserved s.status)) [
    | inl r ↦ cc (found, h.submitted.unsubmitted s m r)
    | inr r ↦ r
  ]

  row : Memᴰ a db.attempts × (a.settlement_id ≡ s.id)
  row = lookup-mem attempt_id_of s.id db.attempts a found

  -- The result of an attempt that posts one journal.
  settle-IsSound :
      (event : JournalEvent) (status : SettlementStatus) (o : String) (p : AccountPurpose) (jid : ℕ)
      {db₁ : Database}
      → post s event (s.owner_id, AccountPurpose.reserved) (o, p) jid db ≡ (ok tt, db₁)
      → p ≢ AccountPurpose.reserved
      → is_open s.status ≡ true
      → is_open status ≡ false
      → is_reserved status ≡ false
      → (lifecycle s.status ++ event ∷ []) ≡ lifecycle status
      → IsSound (concluded s status b db₁)
  settle-IsSound event status o p jid posting other was is away next =
      let (d, c, pair, can, written) =
        post-IsPostable s event (s.owner_id, AccountPurpose.reserved) (o, p) jid db posting in
      let ((md, ud, kd), (mc, uc, kc)) =
        account_pair-Holds (s.owner_id, AccountPurpose.reserved) (o, p) db d c pair in
      let (od, pd) = has_key-eq s.owner_id AccountPurpose.reserved d kd in
      let (oc, pc) = has_key-eq o p c kc in
      rw written (record {
        backed =
            settle-IsBacked h.backed s d c md mc ud uc can.debit_nonneg can.credit_nonneg m status
              pd (λ r. other (sym pc ∙ r)) od was is;
        recorded =
            settle-IsRecorded s event jid db.journals can.fresh_journal h.recorded m status next;
        submitted =
            move_on-IsSubmitted
              (update-IsSubmitted h.submitted a b
                (ap (λ i. attempt_for i db.attempts) (same ∙ row.1) ∙ found) op
                (rw token (h.submitted.attempt_rows a row.0).1))
              s status m left away;
        keys = keys-replace db.settlements s status h.backed.settlement_ids h.keys m;
      })

  -- A result that leaves the settlement open.
  wait-IsSound :
      (status : SettlementStatus)
      → is_open s.status ≡ true
      → is_open status ≡ true
      → is_reserved status ≡ false
      → IsSound (concluded s status b db)
  wait-IsSound status was is away = record {
    backed = move_on-IsBacked h.backed s m status was is;
    recorded = move_on-IsRecorded s h.recorded m status was is;
    submitted =
        move_on-IsSubmitted
          (update-IsSubmitted h.submitted a b
            (ap (λ i. attempt_for i db.attempts) (same ∙ row.1) ∙ found) op
            (rw token (h.submitted.attempt_rows a row.0).1))
          s status m left away;
    keys = keys-replace db.settlements s status h.backed.settlement_ids h.keys m;
  }

completed_row : PayoutAttempt → String → PayoutAttempt
completed_row a outcome = record a { state = completed; last_outcome = some outcome }

finished-eq :
    (s : Settlement) (a : PayoutAttempt) (status : SettlementStatus) (outcome : String)
    (db : Database) {r : SettlementRead} {db' : Database}
    → finished s a status outcome db ≡ (ok r, db')
    → db' ≡ concluded s status (completed_row a outcome) db
unfolding ◌>>=◌ completed_row
finished-eq s a status outcome db h = sym (ap (λ (q : Result SettlementRead × Database). q.1) h)

consumed :
    (st : SettlementStatus)
    → is_open st ≡ true
    → (lifecycle st ++ JournalEvent.consume ∷ []) ≡ lifecycle success
consumed st h = ground arith

released :
    (st : SettlementStatus)
    → is_open st ≡ true
    → (lifecycle st ++ JournalEvent.release ∷ []) ≡ lifecycle failed
released st h = ground arith

pending-IsSound :
    {db : Database} (h : IsSound db) (s : Settlement) (a : PayoutAttempt)
    (m : Memᴰ s db.settlements) (found : attempt_for s.id db.attempts ≡ some a)
    (was : is_open s.status ≡ true) (outcome : String) (now : ℕ) {r : SettlementRead}
    {db' : Database}
    → left_pending s a outcome now db ≡ (ok r, db')
    → IsSound db'
unfolding ◌>>=◌
pending-IsSound {db} h s a m found was outcome now e =
    subst IsSound (ap (λ (q : Result SettlementRead × Database). q.1) e)
      (wait-IsSound h s a _ m found refl refl refl pending_reconciliation was refl refl)

raise_if_state :
    (t : Bool) (x : Error) (db : Database) {u : Unit {0}} {db₁ : Database}
    → raise_if t x db ≡ (ok u, db₁)
    → db₁ ≡ db
raise_if_state t x db h = sym (ap (λ (q : Result (Unit {0}) × Database). q.1) h)

apply_result-IsSound :
    {db : Database} (h : IsSound db) (s : Settlement) (a : PayoutAttempt)
    (m : Memᴰ s db.settlements) (found : attempt_for s.id db.attempts ≡ some a)
    (was : is_open s.status ≡ true) (result : Option ProviderResult) (jid now : ℕ)
    {r : SettlementRead} {db' : Database}
    → apply_result s a result jid now db ≡ (ok r, db')
    → IsSound db'
unfolding apply_result consume release completed_row
apply_result-IsSound {db} h s a m found was (some ProviderResult.paid) jid now e =
    let (u, db₁, posting, rest) = >>=-eq-ok (consume s jid) _ db e in
    rw (finished-eq s a success "PAID" db₁ rest) (
      settle-IsSound h s a (completed_row a "PAID") m found refl refl refl JournalEvent.consume
        success "system" omnibus jid posting (λ p. cc) was refl refl (consumed s.status was))
apply_result-IsSound {db} h s a m found was (some ProviderResult.unpaid) jid now e =
    let (u, db₁, posting, rest) = >>=-eq-ok (release s jid) _ db e in
    rw (finished-eq s a failed "UNPAID" db₁ rest) (
      settle-IsSound h s a (completed_row a "UNPAID") m found refl refl refl JournalEvent.release
        failed s.owner_id available jid posting (λ p. cc) was refl refl (released s.status was))
apply_result-IsSound {db} h s a m found was (some ambiguous) jid now e =
    pending-IsSound h s a m found was (outcome_of (some ambiguous)) now e
apply_result-IsSound {db} h s a m found was none jid now e =
    pending-IsSound h s a m found was (outcome_of none) now e

finalize_locked-IsSound :
    (i token : ℕ) (result : Option ProviderResult) (jid now : ℕ) (db : Database)
    → IsSound db
    → (r : SettlementRead) (db' : Database)
    → finalize_locked i token result jid now db ≡ (ok r, db')
    → IsSound db'
unfolding finalize_locked
finalize_locked-IsSound i token result jid now db h r db' e =
    let (s, db₁, e₁, rest₁) = >>=-eq-ok (reads (locked_settlement i)) _ db e in
    let (found_s, same₁) = lift-eq-ok _ db e₁ in
    let (a, db₂, e₂, rest₂) =
      >>=-eq-ok (reads (λ (d : Database). or_raise (attempt_for i d.attempts) settlement_not_found))
        _ db₁ rest₁ in
    let (found_a, same₂) = lift-eq-ok _ db₁ e₂ in
    let (u, db₃, e₃, rest₃) =
      >>=-eq-ok (raise_if (not (a.attempt_token == token)) stale_attempt_token) _ db₂ rest₂ in
    let same : db₃ ≡ db = raise_if_state _ _ db₂ e₃ ∙ same₂ ∙ same₁ in
    let in_table = lookup-mem settlement_id_of i db.settlements s (or_raise-eq-ok _ _ found_s) in
    let attempted : attempt_for s.id db.attempts ≡ some a =
      ap (λ k. attempt_for k db.attempts) in_table.1
      ∙ ap (λ (d : Database). attempt_for i d.attempts) (sym same₁)
      ∙ or_raise-eq-ok _ _ found_a in
    elim (Bool-cases (is_open s.status)) [
      | inl was ↦
          apply_result-IsSound h s a in_table.0 attempted was result jid now
            (subst (λ d. apply_result s a result jid now d ≡ (ok r, db')) same (rw was at rest₃))
      | inr closed ↦
          subst IsSound (ap (λ (q : Result SettlementRead × Database). q.1) (rw closed at rest₃))
            (subst IsSound (sym same) h)
    ]

-- Whatever token and result `_finalize_attempt` is called with, and whether it returns or raises,
-- it leaves a sound database sound.
pub finalize_attempt-IsSound :
    (i token : ℕ) (result : Option ProviderResult) (jid now : ℕ) (db : Database)
    → IsSound db
    → IsSound (finalize_attempt i token result jid now db).1
unfolding finalize_attempt
finalize_attempt-IsSound i token result jid now db h =
    transaction-keeps IsSound (finalize_locked i token result jid now) db h
      (finalize_locked-IsSound i token result jid now db h)
