-- ===== src/Tests/Runs.antt =====
-- A request that arrives, is quoted, is reserved and is submitted, as a run of the system.
use netaro_settlement_router.Prelude.{true, Memᴰ, ◌≡◌, arith, ℕ, ◌+◌, String, refl, [], ◌∷◌}
use netaro_settlement_router.Database.{Database}
use netaro_settlement_router.Decimal.{one}
use netaro_settlement_router.Routing.Types.{Currency, php, RouteQuote}
use netaro_settlement_router.Schemas.{SettlementCreate}
use netaro_settlement_router.Database.{ok, pure}
use netaro_settlement_router.Provider.{PayoutProvider, ProviderResult, not_found}
use netaro_settlement_router.Models.{Settlement, SettlementStatus}
use netaro_settlement_router.Service.Soundness.{IsSound}
use netaro_settlement_router.Service.Tasks.{World, Inputs, Task, creating, step}
use netaro_settlement_router.Service.Tasks.System.{
  System, create, read, run, Reach, here, next, Reach-IsSound,
}
use netaro_settlement_router.Service.{find_by_key}
use netaro_settlement_router.Service.Tasks.{fetching, claiming, inserting, resolving}
use netaro_settlement_router.Ledger.Audit.{assert_ledger_invariants}
use netaro_settlement_router.Service.Tasks.Audits.{Reach-audit}
use netaro_settlement_router.Service.Tasks.Settles.{steps, reconcile-settles}
use netaro_settlement_router.Service.Tasks.{reconciling, done}
use netaro_settlement_router.Schemas.{from_orm_settlement}
use netaro_settlement_router.Provider.{ProviderLookup}
use netaro_settlement_router.Tests.Example.{
  submitted, submitted-IsSound, in_progress, first_attempt,
}
use netaro_settlement_router.Service.Tasks.History.{Reach-history, Reach-closed}
use netaro_settlement_router.Service.Tasks.Replay.{IsInsertable, repeated_key}
use netaro_settlement_router.Service.Lifecycle.{Becomes}
use netaro_settlement_router.Tests.Example.{
  seeded, seeded-IsSound, seeded-IsAudited, order, created, created-IsSound, paid, paid_order,
  paid-IsSound,
}

-- A provider that pays, and counts its calls.
abbrev pub paying_provider : PayoutProvider ℕ
paying_provider = record {
  initiate = λ operation amount currency quoted calls. (ok ProviderResult.paid, 1 + calls);
  lookup = λ operation. pure not_found;
}

abbrev pub fingerprint : String → SettlementCreate → String
fingerprint owner_id command = owner_id

abbrev at_par : Currency → RouteQuote
at_par target = record { snapshot_version = 1; target = target; aggregate_rate = one; hops = [] }

abbrev pub inputs : Inputs
inputs = record {
  settlement_id = 7;
  journal_id = 21;
  now = 10;
  deadline = 50;
  quote = λ target. ok (at_par target);
}

abbrev pub command : SettlementCreate
command = record { amount_usd = 400; target_currency = php }

abbrev pub request : Task
request = creating "demo" "first" command

abbrev pub idle : System ℕ
idle = record { world = record { db = seeded; provider = 0 }; tasks = [] }

-- One task, run to its next await.
abbrev pub advance : Task × World ℕ → Task × World ℕ
advance (t, w) = step paying_provider fingerprint inputs t w

abbrev pub system_of : Task × World ℕ → System ℕ
system_of (t, w) = record { world = w; tasks = t ∷ [] }

abbrev arrived : Task × World ℕ
arrived = (request, idle.world)

-- Quoted, and inserted.
abbrev stored : Task × World ℕ
stored = advance (advance arrived)

arrived-Reach : Reach paying_provider fingerprint idle (system_of arrived)
arrived-Reach = next here (create idle "demo" "first" command)

stored-Reach : Reach paying_provider fingerprint idle (system_of stored)
stored-Reach =
    next (next arrived-Reach (run idle.world [] [] request inputs))
      (run _ [] [] (advance arrived).0 inputs)

Reach-IsSound_example : IsSound stored.1.db
Reach-IsSound_example = Reach-IsSound paying_provider fingerprint stored-Reach seeded-IsSound refl

Reach-audit_example : assert_ledger_invariants stored.1.db ≡ ok tt
Reach-audit_example =
    Reach-audit paying_provider fingerprint stored-Reach seeded-IsSound seeded-IsAudited refl

-- A later process finds the reserved settlement, and takes a repeated request to its end.
abbrev pub restarted : Database → System ℕ
restarted db = record { world = record { db = db; provider = 0 }; tasks = [] }

abbrev repeated : Task × World ℕ
repeated = (request, (restarted created).world)

abbrev concluded : Task × World ℕ
concluded = advance (advance (advance (advance repeated)))

concluded-Reach : Reach paying_provider fingerprint (restarted created) (system_of concluded)
concluded-Reach =
    next
      (next
        (next
          (next (next here (create (restarted created) "demo" "first" command))
            (run _ [] [] request inputs))
          (run _ [] [] (advance repeated).0 inputs))
        (run _ [] [] (advance (advance repeated)).0 inputs))
      (run _ [] [] (advance (advance (advance repeated))).0 inputs)

Reach-history_example :
    (t : Settlement) × Memᴰ t concluded.1.db.settlements
    × (t ≡ record order { status = t.status })
    × Becomes SettlementStatus.reserved t.status
Reach-history_example =
    Reach-history paying_provider fingerprint here concluded-Reach created-IsSound refl order
      (Memᴰ.head refl)

abbrev looked_at : Task × World ℕ
looked_at = advance (fetching 7, (restarted paid).world)

looked_at-Reach : Reach paying_provider fingerprint (restarted paid) (system_of looked_at)
looked_at-Reach = next (next here (read (restarted paid) 7)) (run _ [] [] (fetching 7) inputs)

Reach-closed_example : Memᴰ paid_order looked_at.1.db.settlements
Reach-closed_example =
    Reach-closed paying_provider fingerprint here looked_at-Reach paid-IsSound refl paid_order
      (Memᴰ.head refl) refl

abbrev rival : Settlement
rival = record order { id = 9; provider_operation_id = 9 }

rival-IsInsertable : IsInsertable rival
rival-IsInsertable = record {
  amount = (omega arith, omega arith);
  rate = (omega arith, omega arith);
  quoted = (omega arith, omega arith);
  version = omega arith;
  operation = refl;
}

repeated_key_example :
    (step paying_provider fingerprint inputs request (restarted created).world
      ≡ (claiming 7, (restarted created).world))
    × (step paying_provider fingerprint inputs (inserting rival) (restarted created).world
        ≡ (resolving rival, (restarted created).world))
    × (step paying_provider fingerprint inputs (resolving rival) (restarted created).world
        ≡ (claiming 7, (restarted created).world))
unfolding find_by_key
repeated_key_example =
    repeated_key paying_provider fingerprint inputs inputs rival order command
      (restarted created).world refl refl rival-IsInsertable refl

-- A provider that knows the operation as paid.
abbrev knowing_provider : PayoutProvider ℕ
knowing_provider = record paying_provider { lookup = λ operation. pure ProviderLookup.paid }

abbrev advance_knowing : Task × World ℕ → Task × World ℕ
advance_knowing = steps knowing_provider fingerprint inputs

reconcile-settles_example :
    (advance_knowing (
      advance_knowing
        (advance_knowing (advance_knowing (reconciling 7, (restarted submitted).world))))).0
    ≡ done (ok (from_orm_settlement paid_order))
reconcile-settles_example =
    reconcile-settles knowing_provider fingerprint inputs inputs inputs inputs
      (restarted submitted).world 0 in_progress first_attempt true submitted-IsSound
      (Memᴰ.head refl) refl refl refl refl refl
