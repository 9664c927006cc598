-- ===== src/Tests/Payouts.antt =====
-- The mock provider on its first operation.
use netaro_settlement_router.Prelude.{ℕ, List, arith, nat_eq, ◌≡◌, refl, false, some, [], ◌∷◌}
use netaro_settlement_router.Database.{ok, ◌>>=◌}
use netaro_settlement_router.Provider.{ProviderResult, ProviderLookup, unknown}
use netaro_settlement_router.Provider.Mock.{
  Outcome, MockConfig, outcome_for_position, MockMemory, Operations, read_outcome, allocate, decide,
  durable_block, durable_outcome, lookup_durably, lookup_in_memory,
}
use netaro_settlement_router.Provider.Mock.Refinement.{
  Agrees, submit_all_in_memory, submit_all-refines,
}
use netaro_settlement_router.Provider.Mock.Durable.{submit_all}
use netaro_settlement_router.Provider.Mock.Repeats.{durable_outcome-stable}

abbrev cycling : MockConfig
cycling = record { outcomes = []; timeout_lookup = unknown; load_mode = false }

abbrev empty : MockMemory
empty = record { operations = []; operation_count = 0 }

abbrev no_rows : Operations
no_rows = []

abbrev paid_outcome : Outcome
paid_outcome = (some ProviderResult.paid, ProviderLookup.paid, false)

abbrev paid_rows : Operations
paid_rows =
    record {
      operation_id = 5;
      ordinal = 1;
      submission_outcome = "PAID";
      authoritative_outcome = "PAID";
    }
    ∷ []

-- Another operation, then a repeated one, for which the sequence advances too.
abbrev others : List (ℕ × ℕ)
others = (6, 2) ∷ (5, 3) ∷ (7, 4) ∷ []

durable_outcome-stable_example :
    (durable_outcome cycling 5 5 (submit_all cycling others paid_rows).1
      ≡ (ok paid_outcome, (submit_all cycling others paid_rows).1))
    × (lookup_durably 5 (submit_all cycling others paid_rows).1
        ≡ (ok ProviderLookup.paid, (submit_all cycling others paid_rows).1))
unfolding durable_outcome durable_block allocate decide outcome_for_position read_outcome ◌>>=◌
durable_outcome-stable_example =
    durable_outcome-stable cycling 5 1 5 no_rows paid_outcome paid_rows others refl

submit_all-refines_example :
    ((submit_all cycling others no_rows).0 ≡ (submit_all_in_memory cycling others empty).0)
    × Agrees (submit_all_in_memory cycling others empty).1 (submit_all cycling others no_rows).1
    × ((lookup_durably 7 (submit_all cycling others no_rows).1).0
        ≡ (lookup_in_memory 7 (submit_all_in_memory cycling others empty).1).0)
submit_all-refines_example =
    submit_all-refines cycling others empty no_rows 7
      (omega arith, (omega arith, (omega arith, tt))) (λ i. refl)
