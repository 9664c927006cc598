-- ===== src/Service/Soundness/Claims.antt =====
-- app/service.py: `_claim_reserved` and `_claim_for_reconciliation` on a sound database.
use netaro_settlement_router.Prelude.{
  nat_eq, ℕ, ◌≡◌, refl, sym, ap, ◌∙◌, subst, inl, inr, Bool, true, false, Option, none, some, [],
  ◌∷◌, ◌++◌, Memᴰ, arith, Bool-cases, ◌&&◌, ltb,
}
use netaro_settlement_router.Table.{replace, lookup-mem}
use netaro_settlement_router.Models.{
  Settlement, payout_in_progress, PayoutAttempt, settlement_id_of, attempt_id_of, is_open,
  in_flight, is_reserved,
}
use netaro_settlement_router.Database.{
  Database, Result, ok, ◌>>=◌, >>=-eq-ok, lift-eq-ok, or_raise-eq-ok, reads, writes,
}
use netaro_settlement_router.Service.{
  PayoutClaim, set_status, insert_attempt, locked_settlement, reclaimed, is_claimed,
  submit_reserved, claim_reserved_locked, claim_reserved, claim_attempt, claim_locked,
  claim_for_reconciliation,
}
use netaro_settlement_router.Service.Backing.Moves.{move_on-IsBacked}
use netaro_settlement_router.Service.Recording.{move_on-IsRecorded}
use netaro_settlement_router.Service.Submission.{
  attempt_for, submit-IsSubmitted, update-IsSubmitted,
}
use netaro_settlement_router.Service.Soundness.Defs.{IsSound, transaction-keeps, keys-replace}

pub insert_attempt-eq-ok :
    (a : PayoutAttempt) (db : Database) {u : Unit {0}} {db₁ : Database}
    → insert_attempt a db ≡ (ok u, db₁)
    → db₁ ≡ record db { attempts = db.attempts ++ a ∷ [] }
unfolding insert_attempt ◌>>=◌
insert_attempt-eq-ok a db h = ground arith

is_open_of_reserved : (s : Settlement) → is_reserved s.status ≡ true → is_open s.status ≡ true
is_open_of_reserved s h = ground arith

submit_reserved-IsSound :
    {db : Database} (h : IsSound db) (s : Settlement) (deadline : ℕ) (m : Memᴰ s db.settlements)
    (was : is_reserved s.status ≡ true) {r : Option PayoutClaim} {db' : Database}
    → submit_reserved s deadline db ≡ (ok r, db')
    → IsSound db'
unfolding submit_reserved
submit_reserved-IsSound {db} h s deadline m was e =
    let (u, db₁, e₁, rest) = >>=-eq-ok (writes (set_status s payout_in_progress)) _ db e in
    let (u₂, db₂, e₂, rest₂) = >>=-eq-ok (insert_attempt _) _ db₁ rest in
    let written = insert_attempt-eq-ok _ db₁ e₂ in
    let status_set : db₁ ≡ set_status s payout_in_progress db =
      sym (ap (λ (q : Result (Unit {0}) × Database). q.1) e₁) in
    let last : db₂ ≡ _ = ap (λ (q : Result (Option PayoutClaim) × Database). q.1) rest₂ in
    subst IsSound last (
      rw written (
        rw status_set (record {
          backed =
              move_on-IsBacked h.backed s m payout_in_progress (is_open_of_reserved s was) refl;
          recorded =
              move_on-IsRecorded s h.recorded m payout_in_progress (is_open_of_reserved s was) refl;
          submitted =
              submit-IsSubmitted h.submitted s _ payout_in_progress m was refl refl
                (h.submitted.operations s m) (omega arith);
          keys = keys-replace db.settlements s payout_in_progress h.backed.settlement_ids h.keys m;
        })))

claim_reserved_locked-IsSound :
    (i deadline : ℕ) (db : Database)
    → IsSound db
    → (r : Option PayoutClaim) (db' : Database) → claim_reserved_locked i deadline db ≡ (ok r, db')
    → IsSound db'
unfolding claim_reserved_locked
claim_reserved_locked-IsSound i deadline db h r db' e =
    let (s, db₁, e₁, rest) = >>=-eq-ok (reads (locked_settlement i)) _ db e in
    let (found, same) = lift-eq-ok _ db e₁ in
    let (m, _) = lookup-mem settlement_id_of i db.settlements s (or_raise-eq-ok _ _ found) in
    elim (Bool-cases (is_reserved s.status)) [
      | inl was ↦
          submit_reserved-IsSound h s deadline m was
            (subst (λ d. submit_reserved s deadline d ≡ (ok r, db')) same (rw was at rest))
      | inr left ↦
          subst IsSound (ap (λ (q : Result (Option PayoutClaim) × Database). q.1) (rw left at rest))
            (subst IsSound (sym same) h)
    ]

-- `_claim_reserved` leaves a sound database sound.
pub claim_reserved-IsSound :
    (i deadline : ℕ) (db : Database) → IsSound db → IsSound (claim_reserved i deadline db).1
unfolding claim_reserved
claim_reserved-IsSound i deadline db h =
    transaction-keeps IsSound (claim_reserved_locked i deadline) db h
      (claim_reserved_locked-IsSound i deadline db h)

-- A claim on an attempt keeps its settlement and its operation.
pub reclaim-IsSound :
    {db : Database} (h : IsSound db) (a b : PayoutAttempt) (deadline : ℕ)
    → attempt_for a.settlement_id db.attempts ≡ some b
    → a.operation_id ≡ a.settlement_id
    → IsSound (record db { attempts = replace attempt_id_of (reclaimed a deadline) db.attempts })
reclaim-IsSound {db} h a b deadline found op =
    let (m, same) = lookup-mem attempt_id_of a.settlement_id db.attempts b found in
    record {
      backed = h.backed;
      recorded = h.recorded;
      submitted =
          update-IsSubmitted h.submitted b (reclaimed a deadline) found
            (op ∙ sym same ∙ sym (h.submitted.attempt_rows b m).0) (omega arith);
      keys = h.keys;
    }

not_reserved : (s : Settlement) → in_flight s.status ≡ true → is_reserved s.status ≡ false
not_reserved s h = ground arith

claim_attempt-IsSound :
    {db : Database} (h : IsSound db) (s : Settlement) (o : Option PayoutAttempt) (respect : Bool)
    (now deadline : ℕ) (m : Memᴰ s db.settlements) (flies : in_flight s.status ≡ true)
    (at_s : attempt_for s.id db.attempts ≡ o) {r : Option PayoutClaim} {db' : Database}
    → claim_attempt s o respect now deadline db ≡ (ok r, db')
    → IsSound db'
unfolding claim_attempt ◌>>=◌
claim_attempt-IsSound h s none respect now deadline m flies at_s e =
    let (a, found) = h.submitted.submitted s m (not_reserved s flies) in cc (at_s, found)
claim_attempt-IsSound {db} h s (some a) respect now deadline m flies at_s e =
    elim (Bool-cases (is_claimed a.state && ltb now a.lease_expires_at)) [
      | inl leased ↦
          subst IsSound (ap (λ (q : Result (Option PayoutClaim) × Database). q.1) (rw leased at e))
            h
      | inr free ↦ elim (Bool-cases (respect && ltb now a.lease_expires_at)) [
        | inl early ↦
            subst IsSound
              (ap (λ (q : Result (Option PayoutClaim) × Database). q.1)
                (rw early at (rw free at e)))
              h
        | inr due ↦
            let (row, same) = lookup-mem attempt_id_of s.id db.attempts a at_s in
            subst IsSound
              (ap (λ (q : Result (Option PayoutClaim) × Database). q.1) (rw due at (rw free at e)))
              (reclaim-IsSound h a a deadline (ap (λ i. attempt_for i db.attempts) same ∙ at_s)
                (h.submitted.attempt_rows a row).0)
      ]
    ]

claim_locked-IsSound :
    (i : ℕ) (respect : Bool) (now deadline : ℕ) (db : Database)
    → IsSound db
    → (r : Option PayoutClaim) (db' : Database)
    → claim_locked i respect now deadline db ≡ (ok r, db')
    → IsSound db'
unfolding claim_locked
claim_locked-IsSound i respect now deadline db h r db' e =
    let (s, db₁, e₁, rest) = >>=-eq-ok (reads (locked_settlement i)) _ db e in
    let (found, same) = lift-eq-ok _ db e₁ in
    let (o, db₂, e₂, rest₂) =
      >>=-eq-ok (reads (λ (d : Database). ok (attempt_for i d.attempts))) _ db₁ rest in
    let (found₂, same₂) = lift-eq-ok _ db₁ e₂ in
    let (m, at_i) = lookup-mem settlement_id_of i db.settlements s (or_raise-eq-ok _ _ found) in
    let at_s : attempt_for s.id db.attempts ≡ o =
      ap (λ k. attempt_for k db.attempts) at_i
      ∙ ap (λ (d : Database). attempt_for i d.attempts) (sym same)
      ∙ ok-injective found₂ in
    elim (Bool-cases (in_flight s.status)) [
      | inl flies ↦ claim_attempt-IsSound h s o respect now deadline m flies at_s (
          subst (λ d. claim_attempt s o respect now deadline d ≡ (ok r, db')) (same₂ ∙ same)
            (rw flies at rest₂))
      | inr settled ↦
          subst IsSound
            (ap (λ (q : Result (Option PayoutClaim) × Database). q.1) (rw settled at rest₂))
            (subst IsSound (sym (same₂ ∙ same)) h)
    ]
  where
    ok-injective : {x y : Option PayoutAttempt} → ok x ≡ ok y → x ≡ y
    ok-injective p = cc

-- `_claim_for_reconciliation` leaves a sound database sound.
pub claim_for_reconciliation-IsSound :
    (i : ℕ) (respect : Bool) (now deadline : ℕ) (db : Database)
    → IsSound db
    → IsSound (claim_for_reconciliation i respect now deadline db).1
unfolding claim_for_reconciliation
claim_for_reconciliation-IsSound i respect now deadline db h =
    transaction-keeps IsSound (claim_locked i respect now deadline) db h
      (claim_locked-IsSound i respect now deadline db h)
