-- ===== src/Tests/Settlements.antt =====
-- The theorems on the service, at the tables of one settlement.
use netaro_settlement_router.Prelude.{
  All, ◌⊎◌, inl, ◌+◌, nat_eq, ◌≡◌, ◌≤◌, arith, refl, false, ◌&&◌, none, some, Memᴰ, ltb, length,
}
use netaro_settlement_router.Models.{success, submitting}
use netaro_settlement_router.Schemas.{from_orm_settlement}
use netaro_settlement_router.Database.{ok, err, stale_attempt_token, ◌>>=◌}
use netaro_settlement_router.Provider.{ProviderResult}
use netaro_settlement_router.Service.{
  claim_due_batch, reclaimed, claim_of, claim_reserved, claim_for_reconciliation, finalize_attempt,
  due_rows, order_due, is_claimed, claim_locked, claim_attempt,
}
use netaro_settlement_router.Service.Due.Complete.{ComesNoLater, claimable-due_rows}
use netaro_settlement_router.Service.Due.{IsClaimable, due_rows-IsClaimable}
use netaro_settlement_router.Service.Leases.{claimed_only_by_call}
use netaro_settlement_router.Service.Submission.{attempt_for}
use netaro_settlement_router.Service.Settling.{finalize_attempt-concludes, finalize_attempt-fenced}
use netaro_settlement_router.Service.Claiming.{
  submitted_db, claim_reserved-once, claim_for_reconciliation-fences,
}
use netaro_settlement_router.Tests.Example.{
  in_progress, first_attempt, taken, order, created, submitted, created-IsSound, submitted-IsSound,
}

claim_reserved-once_example :
    (claim_reserved 7 50 created
      ≡ (ok (some (claim_of in_progress 1)), submitted_db order 50 created))
    × (claim_reserved 7 60 (submitted_db order 50 created)
        ≡ (ok none, submitted_db order 50 created))
claim_reserved-once_example =
    claim_reserved-once created order 50 60 created-IsSound (Memᴰ.head refl) refl

finalize_attempt-concludes_example :
    (finalize_attempt 7 1 (some ProviderResult.paid) 21 70 submitted).0
    ≡ ok (from_orm_settlement (record order { status = success }))
finalize_attempt-concludes_example =
    finalize_attempt-concludes submitted in_progress first_attempt (some ProviderResult.paid) 21 70
      submitted-IsSound (Memᴰ.head refl) refl refl refl

claim_for_reconciliation-fences_example :
    (2 ≡ 1 + 1)
    × ((is_claimed submitting && ltb 60 50) ≡ false)
    × (finalize_attempt 7 1 (some ProviderResult.paid) 21 70 taken
        ≡ (err stale_attempt_token, taken))
unfolding claim_for_reconciliation claim_locked claim_attempt ◌>>=◌
claim_for_reconciliation-fences_example =
    claim_for_reconciliation-fences submitted in_progress first_attempt false 60 90 taken
      (claim_of in_progress 2) 1 (some ProviderResult.paid) 21 70 refl refl refl (omega arith)

finalize_attempt-fenced_example :
    finalize_attempt 7 4 none 21 70 submitted ≡ (err stale_attempt_token, submitted)
finalize_attempt-fenced_example =
    finalize_attempt-fenced submitted in_progress first_attempt 4 none 21 70 refl refl refl

due_rows-IsClaimable_example :
    (length (due_rows (λ i. false) 60 10 submitted) ≤ 10)
    × IsClaimable (λ i. false) 60 submitted (in_progress, first_attempt)
unfolding due_rows order_due
due_rows-IsClaimable_example =
    due_rows-IsClaimable (λ i. false) 60 10 submitted (in_progress, first_attempt) (Memᴰ.head refl)

claimed_only_by_call_example :
    (attempt_for 7 (claim_due_batch (λ i. false) 95 (λ i. 120) 10 taken).1.attempts
      ≡ some (reclaimed first_attempt 90))
    × ((claim_for_reconciliation 7 false 95 120 taken).0 ≡ ok (some (claim_of in_progress (2 + 1))))
claimed_only_by_call_example =
    claimed_only_by_call taken in_progress (reclaimed first_attempt 90) (λ i. false) 95 10
      (λ i. 120) refl refl refl refl (omega arith)

first-IsClaimable : IsClaimable (λ i. false) 60 submitted (in_progress, first_attempt)
first-IsClaimable = record {
  stored = Memᴰ.head refl;
  attempt = refl;
  flies = inl refl;
  expired = omega arith;
  waits = inl refl;
  free = refl;
}

claimable-due_rows_example :
    Memᴰ (in_progress, first_attempt) (due_rows (λ i. false) 60 1 submitted)
    ⊎ ((length (due_rows (λ i. false) 60 1 submitted) ≡ 1)
        × All
            (λ q. ComesNoLater q (in_progress, first_attempt))
            (due_rows (λ i. false) 60 1 submitted))
claimable-due_rows_example =
    claimable-due_rows (λ i. false) 60 1 submitted (in_progress, first_attempt) first-IsClaimable
