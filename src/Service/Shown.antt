-- ===== src/Service/Shown.antt =====
-- app/service.py: the views that transactions return, against the rows that they leave.
use netaro_settlement_router.Prelude.{
  nat_eq, ℕ, ◌≡◌, ◌⊎◌, refl, sym, ap, subst, inl, inr, String, true, Option, none, some, Memᴰ,
  arith,
}
use netaro_settlement_router.Table.{lookup, lookup-mem}
use netaro_settlement_router.Table.Updates.{mem-replace_self}
use netaro_settlement_router.Models.{
  Settlement, PayoutAttempt, settlement_id_of, attempt_id_of, idempotency_of, idempotency_eq,
  is_open,
}
use netaro_settlement_router.Schemas.{SettlementRead, from_orm_settlement}
use netaro_settlement_router.Database.{Database, Result, ok, err, Session, transaction, ◌>>=◌}
use netaro_settlement_router.Provider.{ProviderResult, ambiguous}
use netaro_settlement_router.Service.{
  get, find_by_key, apply_result, finalize_locked, finalize_attempt,
}
use netaro_settlement_router.Service.Settling.{concluded_status}
use netaro_settlement_router.Service.Lifecycle.Results.{apply_result-rows, with_status}

-- A view is that of a row of the table.
abbrev pub Shown : SettlementRead → Database → Type 0
Shown read db = (s : Settlement) × Memᴰ s db.settlements × (from_orm_settlement s ≡ read)

committed {ℓ} :
    {A : Type ℓ} (m : Session A) (db : Database) {a : A} {db' : Database}
    → transaction m db ≡ (ok a, db')
    → m db ≡ (ok a, db')
committed {A = A} m db {a} {db'} h = from (m db) h
  where
    from :
        (r : Result A × Database)
        → transaction (λ (x : Database). r) db ≡ (ok a, db')
        → r ≡ (ok a, db')
    from (ok b, after) h = h
    from (err e, after) h = cc (ap (λ (q : Result A × Database). q.0) h)

pub get-Shown :
    (i : ℕ) (db : Database) {read : SettlementRead} {db' : Database}
    → get i db ≡ (ok read, db')
    → (db' ≡ db)
      × ((s : Settlement) × (lookup settlement_id_of i db.settlements ≡ some s)
          × (from_orm_settlement s ≡ read))
unfolding get ◌>>=◌
get-Shown i db h = ground arith

finalized :
    (i token : ℕ) (result : Option ProviderResult) (jid now : ℕ) (db : Database)
    (read : SettlementRead) (db' : Database)
    → finalize_locked i token result jid now db ≡ (ok read, db')
    → (s : Settlement) × (a : PayoutAttempt) × (lookup settlement_id_of i db.settlements ≡ some s)
      × (lookup attempt_id_of i db.attempts ≡ some a)
      × (((db' ≡ db) × (from_orm_settlement s ≡ read))
          ⊎ ((is_open s.status ≡ true) × (apply_result s a result jid now db ≡ (ok read, db'))))
unfolding finalize_locked ◌>>=◌
finalized i token result jid now db read db' h = ground arith

apply_result-reads :
    (s : Settlement) (a : PayoutAttempt) (result : Option ProviderResult) (jid now : ℕ)
    (db : Database) {read : SettlementRead} {db' : Database}
    → apply_result s a result jid now db ≡ (ok read, db')
    → from_orm_settlement (record s { status = concluded_status result }) ≡ read
unfolding apply_result ◌>>=◌
apply_result-reads s a (some ProviderResult.paid) jid now db h = ground arith
apply_result-reads s a (some ProviderResult.unpaid) jid now db h = ground arith
apply_result-reads s a (some ambiguous) jid now db h = ground arith
apply_result-reads s a none jid now db h = ground arith

pub finalize_attempt-Shown :
    (i token : ℕ) (result : Option ProviderResult) (jid now : ℕ) (db : Database)
    {read : SettlementRead} {db' : Database}
    → finalize_attempt i token result jid now db ≡ (ok read, db')
    → Shown read db'
unfolding finalize_attempt with_status
finalize_attempt-Shown i token result jid now db {read} {db'} h =
    let run = committed (finalize_locked i token result jid now) db h in
    let (s, a, found, _, cases) = finalized i token result jid now db read db' run in
    let (m, _) = lookup-mem settlement_id_of i db.settlements s found in
    elim cases [
      | inl (kept, same) ↦ (s, subst (λ (x : Database). Memᴰ s x.settlements) (sym kept) m, same)
      | inr (_, applied) ↦ (
        record s { status = concluded_status result },
        subst (Memᴰ (record s { status = concluded_status result }))
            (sym (apply_result-rows s a result jid now db applied))
            (mem-replace_self settlement_id_of (record s { status = concluded_status result })
              db.settlements m refl),
        apply_result-reads s a result jid now db applied,
      )
    ]

pub find-Shown :
    (owner_id key : String) (db : Database) (s : Settlement)
    → find_by_key owner_id key db ≡ some s
    → Memᴰ s db.settlements
unfolding find_by_key
find-Shown owner_id key db s h = (lookup-mem idempotency_of (owner_id, key) db.settlements s h).0
