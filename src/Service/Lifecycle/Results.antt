-- ===== src/Service/Lifecycle/Results.antt =====
-- app/service.py: results and new settlements, as moves of the state machine.
use mathlib.Core.List.Memᴰ
use netaro_settlement_router.Prelude.{
  nat_eq, ℕ, ◌≡◌, ◌⊎◌, refl, sym, ap, ◌∙◌, subst, inl, inr, true, false, Option, none, some, List,
  [], ◌∷◌, ◌++◌, Memᴰ, arith, Bool-cases,
}
use netaro_settlement_router.Table.{lookup, replace, lookup-mem}
use netaro_settlement_router.Models.{
  Settlement, SettlementStatus, payout_in_progress, success, failed, pending_reconciliation,
  PayoutAttempt, settlement_id_of, is_open, is_reserved,
}
use netaro_settlement_router.Database.{Database, Result, ok, ◌>>=◌, >>=-eq-ok}
use netaro_settlement_router.Ledger.{reserve, consume, release}
use netaro_settlement_router.Provider.{ProviderResult, ambiguous}
use netaro_settlement_router.Schemas.{SettlementRead}
use netaro_settlement_router.Service.{
  apply_result, finalize_locked, finalize_attempt, insert_settlement, insert_and_reserve,
  create_reserved,
}
use netaro_settlement_router.Service.Settling.{concluded_status}
use netaro_settlement_router.Service.Submission.{attempt_for}
use netaro_settlement_router.Service.Soundness.{IsSound, transaction-keeps}
use netaro_settlement_router.Service.Lifecycle.{
  Becomes, stays, moves, pay, refuse, park, pay_later, refuse_later, Evolves, Evolves-refl,
  Evolves-replace, post-rows,
}

unfoldable pub with_status : SettlementStatus → Settlement → List Settlement → List Settlement
with_status status s rows = replace settlement_id_of (record s { status = status }) rows

pub apply_result-rows :
    (s : Settlement) (a : PayoutAttempt) (result : Option ProviderResult) (jid now : ℕ)
    (db : Database) {r : SettlementRead} {db' : Database}
    → apply_result s a result jid now db ≡ (ok r, db')
    → db'.settlements ≡ with_status (concluded_status result) s db.settlements
unfolding apply_result consume release with_status ◌>>=◌
apply_result-rows s a (some ProviderResult.paid) jid now db e =
    let (u, db₁, posting, rest) = >>=-eq-ok (consume s jid) _ db e in
    ap (λ (q : Result SettlementRead × Database). q.1.settlements) (sym rest)
    ∙ ap (with_status success s) (post-rows s _ _ _ jid db posting)
apply_result-rows s a (some ProviderResult.unpaid) jid now db e =
    let (u, db₁, posting, rest) = >>=-eq-ok (release s jid) _ db e in
    ap (λ (q : Result SettlementRead × Database). q.1.settlements) (sym rest)
    ∙ ap (with_status failed s) (post-rows s _ _ _ jid db posting)
apply_result-rows s a (some ambiguous) jid now db e =
    ap (λ (q : Result SettlementRead × Database). q.1.settlements) (sym e)
apply_result-rows s a none jid now db e =
    ap (λ (q : Result SettlementRead × Database). q.1.settlements) (sym e)

pub finalize_locked-runs :
    (i token : ℕ) (result : Option ProviderResult) (jid now : ℕ) (db : Database)
    (r : SettlementRead) (db' : Database)
    → finalize_locked i token result jid now db ≡ (ok r, db')
    → (s : Settlement) × (a : PayoutAttempt) × (lookup settlement_id_of i db.settlements ≡ some s)
      × (attempt_for i db.attempts ≡ some a)
      × ((db' ≡ db)
          ⊎ ((is_open s.status ≡ true) × (apply_result s a result jid now db ≡ (ok r, db'))))
unfolding finalize_locked ◌>>=◌
finalize_locked-runs i token result jid now db r db' e = ground arith

-- A settlement that has left RESERVED and is open goes to the status of any result.
concludes :
    (st : SettlementStatus) (result : Option ProviderResult)
    → is_open st ≡ true
    → is_reserved st ≡ false
    → Becomes st (concluded_status result)
concludes SettlementStatus.reserved result o r = cc
concludes success result o r = cc
concludes failed result o r = cc
concludes payout_in_progress (some ProviderResult.paid) o r = moves stays pay
concludes payout_in_progress (some ProviderResult.unpaid) o r = moves stays refuse
concludes payout_in_progress (some ambiguous) o r = moves stays park
concludes payout_in_progress none o r = moves stays park
concludes pending_reconciliation (some ProviderResult.paid) o r = moves stays pay_later
concludes pending_reconciliation (some ProviderResult.unpaid) o r = moves stays refuse_later
concludes pending_reconciliation (some ambiguous) o r = stays
concludes pending_reconciliation none o r = stays

attempted-unreserved :
    (db : Database) (i : ℕ) (s : Settlement) (a : PayoutAttempt)
    → IsSound db
    → lookup settlement_id_of i db.settlements ≡ some s
    → attempt_for i db.attempts ≡ some a
    → is_reserved s.status ≡ false
attempted-unreserved db i s a h found attempted =
    let (m, key) = lookup-mem settlement_id_of i db.settlements s found in
    elim (Bool-cases (is_reserved s.status)) [
      | inl was ↦ absurd (
          differ (
            sym (ap (λ j. attempt_for j db.attempts) key ∙ attempted)
            ∙ h.submitted.unsubmitted s m was))
      | inr left ↦ left
    ]
  where
    differ : some a ≡ none → ⊥
    differ p = cc

pub finalize_attempt-Evolves :
    (i token : ℕ) (result : Option ProviderResult) (jid now : ℕ) (db : Database)
    → IsSound db
    → Evolves db (finalize_attempt i token result jid now db).1
unfolding finalize_attempt with_status
finalize_attempt-Evolves i token result jid now db h =
    transaction-keeps (Evolves db) (finalize_locked i token result jid now) db (Evolves-refl db)
      (λ r db' e.
        let (s, a, found, attempted, cases) =
          finalize_locked-runs i token result jid now db r db' e in
        elim cases [
          | inl same ↦ subst (Evolves db) (sym same) (Evolves-refl db)
          | inr (was, applied) ↦
              Evolves-replace db db' i s (concluded_status result) h found
                (concludes s.status result was (attempted-unreserved db i s a h found attempted))
                (apply_result-rows s a result jid now db applied)
        ])

insert_settlement-rows :
    (s : Settlement) (db : Database) {u : Unit {0}} {db' : Database}
    → insert_settlement s db ≡ (ok u, db')
    → db'.settlements ≡ db.settlements ++ s ∷ []
unfolding insert_settlement ◌>>=◌
insert_settlement-rows s db e = ground arith

pub create_reserved-Evolves :
    (s : Settlement) (jid : ℕ) (db : Database) → Evolves db (create_reserved s jid db).1
unfolding create_reserved insert_and_reserve reserve
create_reserved-Evolves s jid db =
    transaction-keeps (Evolves db) (insert_and_reserve s jid) db (Evolves-refl db) (λ u db' e.
      let (u₁, db₁, e₁, rest) = >>=-eq-ok (insert_settlement s) _ db e in
      let rows = post-rows s _ _ _ jid db₁ rest ∙ insert_settlement-rows s db e₁ in
      λ t m. (
        t,
        subst (λ (q : List Settlement). Memᴰ t q) (sym rows) (Memᴰ.append_left (s ∷ []) m),
        refl,
        stays,
      ))
