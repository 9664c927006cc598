-- ===== src/Service/Claiming.antt =====
-- app/service.py: `_claim_reserved` and `_claim_for_reconciliation`, and the calls that come after
-- them.
use netaro_settlement_router.Prelude.{
  none_exists, nat_eq, ℕ, ◌+◌, ◌≡◌, ◌≢◌, ◌≤◌, sym, ap, ◌∙◌, Bool, true, false, ◌==◌, ==_iff, ◌&&◌,
  ltb, Option, none, some, [], ◌∷◌, ◌++◌, Memᴰ, arith, exists,
}
use netaro_settlement_router.Table.{lookup, replace, lookup_of_mem, lookup_none, lookup-mem}
use netaro_settlement_router.Table.Updates.{lookup-replace_self}
use netaro_settlement_router.Models.{
  Settlement, payout_in_progress, PayoutAttempt, settlement_id_of, attempt_id_of, is_reserved,
  submitting,
}
use netaro_settlement_router.Database.{Database, stale_attempt_token, ok, err, ◌>>=◌}
use netaro_settlement_router.Provider.{ProviderResult}
use netaro_settlement_router.Service.{
  PayoutClaim, claim_of, set_status, reclaimed, is_claimed, insert_attempt, submit_reserved,
  claim_reserved_locked, claim_reserved, claim_attempt, claim_locked, claim_for_reconciliation,
  finalize_attempt,
}
use netaro_settlement_router.Service.Submission.{attempt_for}
use netaro_settlement_router.Service.Soundness.{IsSound}
use netaro_settlement_router.Service.Settling.{finalize_attempt-fenced}

first_attempt : Settlement → ℕ → PayoutAttempt
first_attempt s deadline = record {
  settlement_id = s.id;
  operation_id = s.provider_operation_id;
  state = submitting;
  attempt_token = 1;
  lease_expires_at = deadline;
  last_outcome = none;
}

-- The tables after a successful `_claim_reserved`.
abbrev pub submitted_db : Settlement → ℕ → Database → Database
unfolding first_attempt
submitted_db s deadline db = record (set_status s payout_in_progress db) {
  attempts = db.attempts ++ first_attempt s deadline ∷ [];
}

module _ (db : Database) (h : IsSound db) (s : Settlement) (m : Memᴰ s db.settlements)
    (was : is_reserved s.status ≡ true) where
  no_attempt : (a : PayoutAttempt) → Memᴰ a db.attempts → a.settlement_id ≢ s.id
  no_attempt = lookup_none attempt_id_of s.id db.attempts (h.submitted.unsubmitted s m was)

  claims_first :
      (deadline : ℕ)
      → claim_reserved s.id deadline db ≡ (
        ok (some (claim_of (record s { status = payout_in_progress }) 1)),
        submitted_db s deadline db,
      )
  unfolding claim_reserved claim_reserved_locked submit_reserved insert_attempt ◌>>=◌ first_attempt
  claims_first deadline =
      let found = lookup_of_mem settlement_id_of db.settlements h.backed.settlement_ids m in
      let no_row : exists (λ a. a.settlement_id == s.id) db.attempts ≡ false =
        none_exists _ db.attempts (λ a n p. no_attempt a n ((==_iff _ _).0 p)) in
      let no_operation : exists (λ a. a.operation_id == s.provider_operation_id) db.attempts
          ≡ false =
        none_exists _ db.attempts (λ a n p.
          no_attempt a n (
            sym (h.submitted.attempt_rows a n).0
            ∙ (==_iff _ _).0 p
            ∙ h.submitted.operations s m)) in
      rw found (rw was (rw no_row (rw no_operation)))

  claims_never_again :
      (deadline later : ℕ)
      → claim_reserved s.id later (submitted_db s deadline db)
        ≡ (ok none, submitted_db s deadline db)
  unfolding claim_reserved claim_reserved_locked ◌>>=◌ first_attempt
  claims_never_again deadline later = rw (
      lookup-replace_self settlement_id_of (record s { status = payout_in_progress }) db.settlements
        (lookup_of_mem settlement_id_of db.settlements h.backed.settlement_ids m))

-- Only one caller gets to call the provider's first `initiate`: in a sound database `_claim_reserved`
-- of a RESERVED settlement returns the claim with token 1 and moves the settlement on, and a second
-- `_claim_reserved` on the tables that it leaves returns no claim and changes nothing.
pub claim_reserved-once :
    (db : Database) (s : Settlement) (deadline later : ℕ)
    → IsSound db
    → Memᴰ s db.settlements
    → is_reserved s.status ≡ true
    → (claim_reserved s.id deadline db ≡ (
      ok (some (claim_of (record s { status = payout_in_progress }) 1)),
      submitted_db s deadline db,
    ))
      × (claim_reserved s.id later (submitted_db s deadline db)
          ≡ (ok none, submitted_db s deadline db))
claim_reserved-once db s deadline later h m was =
    (claims_first db h s m was deadline, claims_never_again db h s m was deadline later)

claim_attempt-some :
    (s : Settlement) (a : PayoutAttempt) (respect : Bool) (now deadline : ℕ) (db db' : Database)
    (claim : PayoutClaim)
    → claim_attempt s (some a) respect now deadline db ≡ (ok (some claim), db')
    → (claim.attempt_token ≡ a.attempt_token + 1)
      × (db' ≡ record db { attempts = replace attempt_id_of (reclaimed a deadline) db.attempts })
      × ((is_claimed a.state && ltb now a.lease_expires_at) ≡ false)
unfolding claim_attempt ◌>>=◌
claim_attempt-some s a respect now deadline db db' claim h = ground arith

claim_for_reconciliation-runs :
    (db : Database) (s : Settlement) (a : PayoutAttempt) (respect : Bool) (now deadline : ℕ)
    (db' : Database) (claim : PayoutClaim)
    → lookup settlement_id_of s.id db.settlements ≡ some s
    → attempt_for s.id db.attempts ≡ some a
    → claim_for_reconciliation s.id respect now deadline db ≡ (ok (some claim), db')
    → claim_attempt s (some a) respect now deadline db ≡ (ok (some claim), db')
unfolding claim_for_reconciliation claim_locked ◌>>=◌
claim_for_reconciliation-runs db s a respect now deadline db' claim found attempted h = ground arith

-- A claim for reconciliation takes the next token, never while another claim's lease runs; from then
-- on `_finalize_attempt` with any token up to the old one raises StaleAttemptToken and changes
-- nothing.
pub claim_for_reconciliation-fences :
    (db : Database) (s : Settlement) (a : PayoutAttempt) (respect : Bool) (now deadline : ℕ)
    (db' : Database) (claim : PayoutClaim) (token : ℕ) (result : Option ProviderResult) (jid at : ℕ)
    → lookup settlement_id_of s.id db.settlements ≡ some s
    → attempt_for s.id db.attempts ≡ some a
    → claim_for_reconciliation s.id respect now deadline db ≡ (ok (some claim), db')
    → token ≤ a.attempt_token
    → (claim.attempt_token ≡ a.attempt_token + 1)
      × ((is_claimed a.state && ltb now a.lease_expires_at) ≡ false)
      × (finalize_attempt s.id token result jid at db' ≡ (err stale_attempt_token, db'))
claim_for_reconciliation-fences db s a respect now deadline db' claim token result jid at found
      attempted h old =
    let (next, written, free) =
      claim_attempt-some s a respect now deadline db db' claim
        (claim_for_reconciliation-runs db s a respect now deadline db' claim found attempted h) in
    let (_, same) = lookup-mem attempt_id_of s.id db.attempts a attempted in
    let stale : (a.attempt_token + 1 == token) ≡ false = stale_token old in
    (
      next,
      free,
      rw written (
          finalize_attempt-fenced _ s (reclaimed a deadline) token result jid at found
            (current same) (rw stale)
          ∙ rw stale),
    )
  where
    stale_token : {n m : ℕ} → m ≤ n → (n + 1 == m) ≡ false
    stale_token h = ground arith

    current :
        a.settlement_id ≡ s.id
        → attempt_for s.id (replace attempt_id_of (reclaimed a deadline) db.attempts)
          ≡ some (reclaimed a deadline)
    current same =
        ap (λ k. attempt_for k (replace attempt_id_of (reclaimed a deadline) db.attempts))
          (sym same)
        ∙ lookup-replace_self attempt_id_of (reclaimed a deadline) db.attempts {old = a}
            (ap (λ k. attempt_for k db.attempts) same ∙ attempted)
