-- ===== src/Service/Tasks/System.antt =====
-- app/service.py: any number of calls and workers over one database and one provider, in any
-- interleaving.
use mathlib.Core.List.Memᴰ
use netaro_settlement_router.Prelude.{
  ℕ, String, ◌≡◌, refl, subst, inl, inr, Bool, true, false, none, List, [], ◌∷◌, ◌++◌, map, Memᴰ,
  arith,
}
use netaro_settlement_router.Models.{is_reserved}
use netaro_settlement_router.Schemas.{SettlementCreate}
use netaro_settlement_router.Database.{Database, Result, ok, err, ◌>>=◌}
use netaro_settlement_router.Provider.{PayoutProvider}
use netaro_settlement_router.Service.{PayoutClaim, claim_due_batch, get}
use netaro_settlement_router.Service.Tasks.{
  World, Inputs, Task, creating, inserting, claiming, finalizing, fetching, reconciling, reclaiming,
  looking_up, concluding, recovering, step,
}
use netaro_settlement_router.Service.Soundness.{
  IsSound, create_reserved-IsSound, claim_reserved-IsSound, claim_for_reconciliation-IsSound,
  claim_due_batch-IsSound, finalize_attempt-IsSound,
}

pub record System (P : Type 0) : Type 0 where
  pub world : World P
  pub tasks : List Task

-- `asyncio.gather` starts one `_reconcile_claim` for each claim of a batch.
abbrev pub gathered : Result (List PayoutClaim) → List Task
gathered (ok claims) = map (λ claim. looking_up claim false) claims
gathered (err e) = []

module _ {P : Type 0} (provider : PayoutProvider P)
    (request_fingerprint : String → SettlementCreate → String) where
  pub data Step : System P → System P → Type 0 where
    -- a request arrives
    create :
        (s : System P) (owner_id key : String) (command : SettlementCreate)
        → Step s (record s { tasks = creating owner_id key command ∷ s.tasks })
    read : (s : System P) (i : ℕ) → Step s (record s { tasks = fetching i ∷ s.tasks })
    reconcile : (s : System P) (i : ℕ) → Step s (record s { tasks = reconciling i ∷ s.tasks })
    -- a task runs to its next await
    run :
        (w : World P) (before after : List Task) (t : Task) (inputs : Inputs)
        → Step
            (record { world = w; tasks = before ++ t ∷ after })
            (record {
              world = (step provider request_fingerprint inputs t w).1;
              tasks = before ++ (step provider request_fingerprint inputs t w).0 ∷ after;
            })
    -- `run_reconciliation_once` claims a batch
    batch :
        (s : System P) (is_locked : ℕ → Bool) (now : ℕ) (deadline : ℕ → ℕ) (limit : ℕ)
        → Step s (record s {
          world = record (s.world) {
            db = (claim_due_batch is_locked now deadline limit s.world.db).1;
          };
          tasks = gathered (claim_due_batch is_locked now deadline limit s.world.db).0 ++ s.tasks;
        })
    -- a process stops: the tasks are lost, the database is not
    crash : (s : System P) → Step s (record s { tasks = [] })

  pub data Reach (start : System P) : System P → Type 0 where
    here : Reach start start
    next : {s t : System P} → Reach start s → Step s t → Reach start t

-- A task that is about to insert a settlement inserts one in RESERVED.
abbrev pub is_ready : Task → Bool
is_ready (inserting s) = is_reserved s.status
is_ready _ = true

abbrev pub IsReady : Task → Type 0
IsReady t = is_ready t ≡ true

pub get-db : (i : ℕ) (db : Database) → (get i db).1 ≡ db
unfolding get ◌>>=◌
get-db i db = ground arith

gathered-IsReady : (r : Result (List PayoutClaim)) (t : Task) → Memᴰ t (gathered r) → IsReady t
gathered-IsReady (ok []) t m = elim m [ ]
gathered-IsReady (ok (claim ∷ claims)) t m = elim (Memᴰ.cases_cons m) [
  | inl p ↦ rw p
  | inr later ↦ gathered-IsReady (ok claims) t later
]
gathered-IsReady (err e) t m = elim m [ ]

module _ {P : Type 0} (provider : PayoutProvider P)
    (request_fingerprint : String → SettlementCreate → String) where
  step-IsReady :
      (inputs : Inputs) (t : Task) (w : World P)
      → IsReady (step provider request_fingerprint inputs t w).0
  unfolding step
  step-IsReady inputs (creating o k c) w = ground arith
  step-IsReady inputs t w = ground arith

  pub step-IsSound :
      (inputs : Inputs) (t : Task) (w : World P)
      → IsReady t
      → IsSound w.db
      → IsSound (step provider request_fingerprint inputs t w).1.db
  unfolding step
  step-IsSound inputs (inserting s) w r h = create_reserved-IsSound s inputs.journal_id w.db r h
  step-IsSound inputs (claiming i) w r h = claim_reserved-IsSound i inputs.deadline w.db h
  step-IsSound inputs (finalizing claim result) w r h =
      finalize_attempt-IsSound claim.settlement.id claim.attempt_token result inputs.journal_id
        inputs.now w.db h
  step-IsSound inputs (concluding claim result p) w r h =
      finalize_attempt-IsSound claim.settlement.id claim.attempt_token result inputs.journal_id
        inputs.now w.db h
  step-IsSound inputs (recovering claim e p) w r h =
      finalize_attempt-IsSound claim.settlement.id claim.attempt_token none inputs.journal_id
        inputs.now w.db h
  step-IsSound inputs (reclaiming i) w r h =
      claim_for_reconciliation-IsSound i false inputs.now inputs.deadline w.db h
  step-IsSound inputs (fetching i) w r h = rw (get-db i w.db) h
  step-IsSound inputs (reconciling i) w r h = rw (get-db i w.db) h
  step-IsSound inputs _ w r h = h

  abbrev pub IsRunning : System P → Type 0
  IsRunning s = IsSound s.world.db × ((t : Task) → Memᴰ t s.tasks → IsReady t)

  pub Step-IsRunning :
      {s t : System P} → Step provider request_fingerprint s t → IsRunning s → IsRunning t
  Step-IsRunning (create s o k c) h =
      (h.0, λ t m. elim (Memᴰ.cases_cons m) [ inl p ↦ rw p | inr old ↦ h.1 t old ])
  Step-IsRunning (read s i) h =
      (h.0, λ t m. elim (Memᴰ.cases_cons m) [ inl p ↦ rw p | inr old ↦ h.1 t old ])
  Step-IsRunning (reconcile s i) h =
      (h.0, λ t m. elim (Memᴰ.cases_cons m) [ inl p ↦ rw p | inr old ↦ h.1 t old ])
  Step-IsRunning (run w before after t inputs) h = (
    step-IsSound inputs t w (h.1 t (Memᴰ.append_right before (Memᴰ.head refl))) h.0,
    λ q m. elim (Memᴰ.append_cases before m) [
      | inl b ↦ h.1 q (Memᴰ.append_left (t ∷ after) b)
      | inr rest ↦ elim (Memᴰ.cases_cons rest) [
        | inl p ↦ rw p (step-IsReady inputs t w)
        | inr later ↦ h.1 q (Memᴰ.append_right before (Memᴰ.tail later))
      ]
    ],
  )
  Step-IsRunning (batch s is_locked now deadline limit) h = (
    claim_due_batch-IsSound is_locked now deadline limit s.world.db h.0,
    λ q m.
        elim (Memᴰ.append_cases
          (gathered (claim_due_batch is_locked now deadline limit s.world.db).0) m) [
            | inl new ↦ gathered-IsReady _ q new
            | inr old ↦ h.1 q old
          ],
  )
  Step-IsRunning (crash s) h = (h.0, λ q m. elim m [ ])

  pub Reach-IsRunning :
      {s t : System P} → Reach provider request_fingerprint s t → IsRunning s → IsRunning t
  Reach-IsRunning here h = h
  Reach-IsRunning (next r st) h = Step-IsRunning st (Reach-IsRunning r h)

  -- From a sound database with no call in progress, whatever requests arrive, however the calls, the
  -- background batches and crashes interleave, and whatever the provider answers or raises, the
  -- database is sound after every step: in particular no balance is negative, assets equal
  -- liabilities, each customer's reserved balance is the sum of the customer's open settlements, and
  -- each settlement's journals are those of its status.
  pub Reach-IsSound :
      {start s : System P}
      → Reach provider request_fingerprint start s
      → IsSound start.world.db
      → start.tasks ≡ []
      → IsSound s.world.db
  Reach-IsSound r h idle = (Reach-IsRunning r (h, λ t m. elim (subst (Memᴰ t) idle m) [ ])).0
