-- ===== src/Http/Replies.antt =====
-- app/main.py, app/service.py: the replies to the calls of the service, against the tables.
use netaro_settlement_router.Prelude.{
  nat_eq, ◌≡◌, ◌≤◌, refl, sym, ap, String, true, Memᴰ, arith, if◌then◌else◌,
}
use netaro_settlement_router.Models.{Settlement, in_flight, idempotency_eq}
use netaro_settlement_router.Schemas.{SettlementCreate, SettlementRead, from_orm_settlement}
use netaro_settlement_router.Database.{ok, err, Error}
use netaro_settlement_router.Provider.{PayoutProvider}
use netaro_settlement_router.Service.Tasks.{World, Inputs, Task, done, step}
use netaro_settlement_router.Service.Tasks.Views.{is_running, step-Shown}
use netaro_settlement_router.Service.Tasks.Errors.{is_at_work, step-err}
use netaro_settlement_router.Http.{view, respond, reply_of_call, reply_of_get, handle}

handle-failure : (e : Error) → 400 ≤ (handle e).status
unfolding handle
handle-failure e = ground arith

module _ {P : Type 0} (provider : PayoutProvider P)
    (request_fingerprint : String → SettlementCreate → String) where
  -- A call that returns shows a row of the table as its last step leaves it. The reply to a creation
  -- or a reconciliation has status 202 if the settlement of the row is in flight and 200 if not, the
  -- reply to a read has 200, and the body is the view of the row.
  pub reply-row :
      (inputs : Inputs) (t : Task) (w w' : World P) (read : SettlementRead)
      → is_running t ≡ true
      → step provider request_fingerprint inputs t w ≡ (done (ok read), w')
      → (s : Settlement) × Memᴰ s w'.db.settlements
        × (reply_of_call (ok read)
            ≡ respond (if in_flight s.status then 202 else 200) (view (from_orm_settlement s)))
        × (reply_of_get (ok read) ≡ respond 200 (view (from_orm_settlement s)))
  unfolding reply_of_call reply_of_get
  reply-row inputs t w w' read h run =
      let (s, m, shown) = step-Shown provider request_fingerprint inputs t w w' read h run in
      (
        s,
        m,
        ap (λ (r : SettlementRead). respond (if in_flight r.status then 202 else 200) (view r))
            (sym shown),
        ap (λ (r : SettlementRead). respond 200 (view r)) (sym shown),
      )

  -- A call that raises, but for one whose handler has parked its settlement, leaves the database in
  -- that step as it was, and the reply, the same for every endpoint, has a status of 400 or more.
  pub error-reply :
      (inputs : Inputs) (t : Task) (w w' : World P) (e : Error)
      → is_at_work t ≡ true
      → step provider request_fingerprint inputs t w ≡ (done (err e), w')
      → (w'.db ≡ w.db)
        × (reply_of_call (err e) ≡ handle e)
        × (reply_of_get (err e) ≡ handle e)
        × (400 ≤ (handle e).status)
  unfolding reply_of_call reply_of_get
  error-reply inputs t w w' e h run =
      (step-err provider request_fingerprint inputs t w w' e h run, refl, refl, handle-failure e)
