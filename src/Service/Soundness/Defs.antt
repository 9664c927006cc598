-- ===== src/Service/Soundness/Defs.antt =====
-- app/service.py: what holds of the database between two transactions.
use netaro_settlement_router.Prelude.{◌≡◌, refl, ap, List, Memᴰ, nat_eq}
use netaro_settlement_router.Table.{replace, Distinct, mem_unique}
use netaro_settlement_router.Table.Updates.{Distinct-replace}
use netaro_settlement_router.Models.{Settlement, SettlementStatus, settlement_id_of, idempotency_of}
use netaro_settlement_router.Database.{Database, Result, ok, err, Session, transaction}
use netaro_settlement_router.Service.Backing.{IsBacked}
use netaro_settlement_router.Service.Recording.{IsRecorded}
use netaro_settlement_router.Service.Submission.{IsSubmitted}

pub record IsSound (db : Database) : Type 0 where
  pub backed : IsBacked db.accounts db.settlements
  pub recorded : IsRecorded db.settlements db.journals
  pub submitted : IsSubmitted db.settlements db.attempts
  pub keys : Distinct idempotency_of db.settlements

after_commit :
    {A : Type 0} (P : Database → Type 0) (before : Database) (r : Result A × Database)
    → P before
    → ((a : A) (after : Database) → r ≡ (ok a, after) → P after)
    → P (transaction (λ (db : Database). r) before).1
after_commit P before (ok a, after) h k = k a after refl
after_commit P before (err e, after) h k = h

-- A transaction keeps what its successful runs keep.
pub transaction-keeps :
    {A : Type 0} (P : Database → Type 0) (m : Session A) (db : Database)
    → P db
    → ((a : A) (after : Database) → m db ≡ (ok a, after) → P after)
    → P (transaction m db).1
transaction-keeps P m db h k = after_commit P db (m db) h k

pub keys-replace :
    (settlements : List Settlement) (s : Settlement) (status : SettlementStatus)
    → Distinct settlement_id_of settlements
    → Distinct idempotency_of settlements
    → Memᴰ s settlements
    → Distinct idempotency_of (replace settlement_id_of (record s { status = status }) settlements)
keys-replace settlements s status ids keys m =
    Distinct-replace settlement_id_of idempotency_of (record s { status = status }) settlements
      (λ r n p. ap idempotency_of (mem_unique settlement_id_of settlements ids n m p)) keys
