-- ===== src/Service/Lifecycle.antt =====
-- app/service.py: the state machine of a settlement, and the claims as moves of it.
pub mod Results
use mathlib.Core.List.Memᴰ
use netaro_settlement_router.Prelude.{
  nat_eq, ℕ, ◌+◌, ◌==◌, ==_iff, ◌⊎◌, ◌≡◌, ◌≢◌, refl, sym, ap, ◌∙◌, subst, inl, inr, Bool, true,
  false, Option, none, some, List, [], ◌∷◌, ◌++◌, Memᴰ, arith, Bool-cases,
}
use netaro_settlement_router.Table.{lookup, replace, lookup-mem, lookup_of_mem, mem_unique}
use netaro_settlement_router.Table.Updates.{mem-replace_self, mem-replace_ne}
use netaro_settlement_router.Models.{
  JournalEvent, AccountKey, Settlement, SettlementStatus, payout_in_progress, success, failed,
  pending_reconciliation, PayoutAttempt, attempt_id_of, settlement_id_of, in_flight, is_open,
  is_reserved,
}
use netaro_settlement_router.Database.{
  Database, Result, ok, err, Session, pure, continue, ◌>>=◌, >>=-eq-ok, lift-eq-ok, or_raise-eq-ok,
}
use netaro_settlement_router.Service.Soundness.{IsSound, transaction-keeps}
use netaro_settlement_router.Ledger.{post, reserve, consume, release}
use netaro_settlement_router.Ledger.Movement.{post-IsPostable}
use netaro_settlement_router.Service.Leases.{continue-pure}
use netaro_settlement_router.Service.Settling.{concluded_status}
use netaro_settlement_router.Provider.{ProviderResult, ambiguous}
use netaro_settlement_router.Schemas.{SettlementRead}
use netaro_settlement_router.Service.{
  claim_locked, claim_attempt, claim_rows, claim_due_rows, due_rows, claim_of, reclaimed,
  apply_result, finalize_locked, finished, left_pending, insert_settlement, insert_and_reserve,
  PayoutClaim, claim_reserved_locked, submit_reserved, insert_attempt, claim_reserved,
  claim_for_reconciliation, claim_due_batch, finalize_attempt, create_reserved,
}

-- The arrows of the state machine.
pub data Transition : SettlementStatus → SettlementStatus → Type 0 where
  submit : Transition SettlementStatus.reserved payout_in_progress
  pay : Transition payout_in_progress success
  refuse : Transition payout_in_progress failed
  park : Transition payout_in_progress pending_reconciliation
  pay_later : Transition pending_reconciliation success
  refuse_later : Transition pending_reconciliation failed

pub data Becomes : SettlementStatus → SettlementStatus → Type 0 where
  stays : {a : SettlementStatus} → Becomes a a
  moves : {a b c : SettlementStatus} → Becomes a b → Transition b c → Becomes a c

pub Becomes-trans : {a b c : SettlementStatus} → Becomes a b → Becomes b c → Becomes a c
Becomes-trans p stays = p
Becomes-trans p (moves q t) = moves (Becomes-trans p q) t

pub left-open : {a b : SettlementStatus} → Transition a b → is_open a ≡ true
left-open submit = refl
left-open pay = refl
left-open refuse = refl
left-open park = refl
left-open pay_later = refl
left-open refuse_later = refl

pub closed-stays : {a b : SettlementStatus} → Becomes a b → is_open a ≡ false → a ≡ b
closed-stays stays h = refl
closed-stays (moves p t) h = cc (left-open t, ap is_open (closed-stays p h), h)

-- A settlement that is there stays there, with all its columns but the status.
abbrev pub Evolves : Database → Database → Type 0
Evolves before after =
    (s : Settlement)
    → Memᴰ s before.settlements
    → (t : Settlement) × Memᴰ t after.settlements
      × (t ≡ record s { status = t.status })
      × Becomes s.status t.status

pub Evolves-refl : (db : Database) → Evolves db db
Evolves-refl db s m = (s, m, refl, stays)

pub Evolves-trans : (d e f : Database) → Evolves d e → Evolves e f → Evolves d f
Evolves-trans d e f p q s m =
    let (t, in_e, same, along) = p s m in
    let (u, in_f, same', further) = q t in_e in
    (
      u,
      in_f,
      same' ∙ ap (λ (x : Settlement). record x { status = u.status }) same,
      Becomes-trans along further,
    )

-- An UPDATE of one settlement's status along the machine.
pub Evolves-replace :
    (before after : Database) (i : ℕ) (s : Settlement) (status : SettlementStatus)
    → IsSound before
    → lookup settlement_id_of i before.settlements ≡ some s
    → Becomes s.status status
    → after.settlements ≡ replace settlement_id_of (record s { status = status }) before.settlements
    → Evolves before after
Evolves-replace before after i s status h found along e t m =
    let (in_table, _) = lookup-mem settlement_id_of i before.settlements s found in
    subst
      (λ (rows : List Settlement).
        (u : Settlement) × Memᴰ u rows
        × (u ≡ record t { status = u.status })
        × Becomes t.status u.status)
      (sym e)
      (elim (Bool-cases (t.id == s.id)) [
        | inl same ↦
            let p : t ≡ s =
              mem_unique settlement_id_of before.settlements h.backed.settlement_ids m in_table
                ((==_iff t.id s.id).0 same) in
            (
              record s { status = status },
              mem-replace_self settlement_id_of (record s { status = status }) before.settlements
                  in_table refl,
              ap (λ (x : Settlement). record x { status = status }) (sym p),
              subst (λ (x : Settlement). Becomes x.status status) (sym p) along,
            )
        | inr differs ↦ (
          t,
          mem-replace_ne settlement_id_of (record s { status = status }) before.settlements m
              (λ q. cc (differs, (==_iff t.id s.id).1 q)),
          refl,
          stays,
        )
      ])

pub claim_reserved_locked-runs :
    (i deadline : ℕ) (db : Database) (r : Option PayoutClaim) (db' : Database)
    → claim_reserved_locked i deadline db ≡ (ok r, db')
    → (s : Settlement) × (lookup settlement_id_of i db.settlements ≡ some s)
      × ((db' ≡ db)
          ⊎ ((is_reserved s.status ≡ true)
              × (db'.settlements
                  ≡ replace settlement_id_of
                      (record s { status = payout_in_progress })
                      db.settlements)))
unfolding claim_reserved_locked submit_reserved insert_attempt ◌>>=◌
claim_reserved_locked-runs i deadline db r db' e = ground arith

reserved-submits : (st : SettlementStatus) → is_reserved st ≡ true → Becomes st payout_in_progress
reserved-submits SettlementStatus.reserved h = moves stays submit
reserved-submits payout_in_progress h = stays
reserved-submits success h = cc
reserved-submits failed h = cc
reserved-submits pending_reconciliation h = cc

pub claim_reserved-Evolves :
    (i deadline : ℕ) (db : Database) → IsSound db → Evolves db (claim_reserved i deadline db).1
unfolding claim_reserved
claim_reserved-Evolves i deadline db h =
    transaction-keeps (Evolves db) (claim_reserved_locked i deadline) db (Evolves-refl db)
      (λ r db' e.
        let (s, found, cases) = claim_reserved_locked-runs i deadline db r db' e in
        elim cases [
          | inl same ↦ subst (Evolves db) (sym same) (Evolves-refl db)
          | inr (was, rows) ↦
              Evolves-replace db db' i s payout_in_progress h found (reserved-submits s.status was)
                rows
        ])

-- A write to another table changes no settlement.
pub same_rows-Evolves :
    (before after : Database) → after.settlements ≡ before.settlements → Evolves before after
same_rows-Evolves before after e s m = (s, subst (λ rows. Memᴰ s rows) (sym e) m, refl, stays)

claim_locked-rows :
    (i : ℕ) (respect : Bool) (now deadline : ℕ) (db : Database) (r : Option PayoutClaim)
    (db' : Database)
    → claim_locked i respect now deadline db ≡ (ok r, db')
    → db'.settlements ≡ db.settlements
unfolding claim_locked claim_attempt insert_attempt ◌>>=◌
claim_locked-rows i respect now deadline db r db' e = ground arith

pub claim_for_reconciliation-Evolves :
    (i : ℕ) (respect : Bool) (now deadline : ℕ) (db : Database)
    → Evolves db (claim_for_reconciliation i respect now deadline db).1
unfolding claim_for_reconciliation
claim_for_reconciliation-Evolves i respect now deadline db =
    transaction-keeps (Evolves db) (claim_locked i respect now deadline) db (Evolves-refl db)
      (λ r db' e. same_rows-Evolves db db' (claim_locked-rows i respect now deadline db r db' e))

claim_rows-rows :
    (deadline : ℕ → ℕ) (rows : List (Settlement × PayoutAttempt)) (db : Database)
    → (claim_rows deadline rows db).1.settlements ≡ db.settlements
unfolding claim_rows ◌>>=◌
claim_rows-rows deadline [] db = refl
claim_rows-rows deadline ((s, a) ∷ rows) db =
    let later : Database = record db {
      attempts = replace attempt_id_of (reclaimed a (deadline s.id)) db.attempts;
    } in
    ap (λ (d : Database). d.settlements)
      (continue-pure (claim_rows deadline rows later)
        (λ claims. claim_of s (a.attempt_token + 1) ∷ claims))
    ∙ claim_rows-rows deadline rows later

pub claim_due_batch-Evolves :
    (is_locked : ℕ → Bool) (now : ℕ) (deadline : ℕ → ℕ) (limit : ℕ) (db : Database)
    → Evolves db (claim_due_batch is_locked now deadline limit db).1
unfolding claim_due_batch claim_due_rows ◌>>=◌
claim_due_batch-Evolves is_locked now deadline limit db =
    transaction-keeps (Evolves db) (claim_due_rows is_locked now deadline limit) db
      (Evolves-refl db)
      (λ claims db' e. same_rows-Evolves db db' (
        ap (λ (q : Result (List PayoutClaim) × Database). q.1.settlements) (sym e)
        ∙ claim_rows-rows deadline (due_rows is_locked now limit db) db))

pub post-rows :
    (s : Settlement) (event : JournalEvent) (dk ck : AccountKey) (jid : ℕ) (db : Database)
    {u : Unit {0}} {db' : Database}
    → post s event dk ck jid db ≡ (ok u, db')
    → db'.settlements ≡ db.settlements
post-rows s event dk ck jid db e =
    let (d, c, _, _, written) = post-IsPostable s event dk ck jid db e in
    ap (λ (x : Database). x.settlements) written
