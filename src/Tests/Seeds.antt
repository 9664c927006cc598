-- ===== src/Tests/Seeds.antt =====
-- Seeds of an empty and of a seeded database, and a request after one.
use netaro_settlement_router.Prelude.{ℕ, ◌≡◌, ◌↔◌, refl, arith, []}
use netaro_settlement_router.Database.{ok}
use netaro_settlement_router.Ledger.Audit.{IsAudited, assert_ledger_invariants}
use netaro_settlement_router.Service.Soundness.{IsSound}
use netaro_settlement_router.Service.Tasks.{World, Task}
use netaro_settlement_router.Service.Tasks.System.{System, create, run, Reach, here, next}
use netaro_settlement_router.Seed.{SeedIds, seed, load_seed_accounts, same_identity}
use netaro_settlement_router.Seed.Validation.{IsSeeded}
use netaro_settlement_router.Seed.Opening.{
  empty, AreDistinct, opened, opened_accounts, opening_postings, seed-IsSound,
}
use netaro_settlement_router.Seed.Existing.{seed_existing}
use netaro_settlement_router.Seed.Runs.{Reach-reseed}
use netaro_settlement_router.Tests.Example.{seeded}
use netaro_settlement_router.Tests.Runs.{
  paying_provider, fingerprint, inputs, request, advance, system_of, restarted,
}

abbrev ids : SeedIds
ids = record { omnibus_usd = 3; omnibus_usdc = 4; available = 1; reserved = 2; journal = 19 }

ids-AreDistinct : AreDistinct ids
ids-AreDistinct = record {
  usd_usdc = λ p. omega (arith, p);
  usd_available = λ p. omega (arith, p);
  usd_reserved = λ p. omega (arith, p);
  usdc_available = λ p. omega (arith, p);
  usdc_reserved = λ p. omega (arith, p);
  available_reserved = λ p. omega (arith, p);
}

seed-IsSound_example :
    (seed ids "demo" 1000 empty ≡ (ok tt, opened ids "demo" 1000))
    × IsSound (opened ids "demo" 1000)
    × IsAudited (opened_accounts ids "demo" 1000) (opening_postings ids "demo" 1000)
seed-IsSound_example = seed-IsSound ids "demo" 1000 ids-AreDistinct (omega arith) (omega arith)

seed_existing_example :
    ((seed ids "demo" 1000 seeded).1 ≡ seeded)
    × (((seed ids "demo" 1000 seeded).0 ≡ ok tt)
        ↔ IsSeeded "demo" 1000 (load_seed_accounts "demo" seeded) seeded)
unfolding load_seed_accounts same_identity
seed_existing_example = seed_existing ids "demo" 1000 seeded refl

-- The seeded system, and a request in it that is quoted and inserted.
abbrev fresh : System ℕ
fresh = restarted (seed ids "demo" 1000 empty).1

abbrev inserted : Task × World ℕ
inserted = advance (advance (request, fresh.world))

inserted-Reach : Reach paying_provider fingerprint fresh (system_of inserted)
inserted-Reach =
    next (next (next here (create fresh "demo" "first" _)) (run fresh.world [] [] request inputs))
      (run _ [] [] (advance (request, fresh.world)).0 inputs)

Reach-reseed_example :
    IsSound inserted.1.db
    × (assert_ledger_invariants inserted.1.db ≡ ok tt)
    × (seed ids "demo" 1000 inserted.1.db ≡ (ok tt, inserted.1.db))
Reach-reseed_example =
    Reach-reseed paying_provider fingerprint ids ids "demo" 1000 ids-AreDistinct (omega arith)
      (omega arith) refl refl inserted-Reach
