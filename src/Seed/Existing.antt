-- ===== src/Seed/Existing.antt =====
-- app/seed.py: the seed of a database that has one of its rows already.
use netaro_settlement_router.Prelude.{
  nat_eq, ℕ, ◌≡◌, ◌↔◌, refl, sym, ap, ◌∙◌, inl, inr, String, Bool, true, false, not, ◌&&◌, arith,
  exists, Bool-cases,
}
use netaro_settlement_router.Models.{opening, same_event}
use netaro_settlement_router.Database.{
  Database, Result, ok, err, runtime_error, ◌>>=◌, transaction, Session, result-transaction,
}
use netaro_settlement_router.Service.Soundness.{transaction-keeps}
use netaro_settlement_router.Seed.{
  SeedIds, seed, seed_demo_accounts, create_seed, load_seed_accounts, is_at, customer_keys,
  is_empty, validate_existing_seed,
}
use netaro_settlement_router.Seed.Validation.{IsSeeded, validate-ok, validate-IsSeeded}

module _ (ids : SeedIds) (owner_id : String) (amount : ℕ) (db : Database) where
  abbrev missing : Bool
  missing =
      exists (λ key. not (is_at (load_seed_accounts owner_id db) key)) (customer_keys owner_id)

  abbrev check : Session (Unit {0})
  check = validate_existing_seed owner_id amount (load_seed_accounts owner_id db)

  seed-check : missing ≡ false → seed ids owner_id amount db ≡ transaction check db
  unfolding seed seed_demo_accounts ◌>>=◌
  seed-check h = ground (arith, h)

  seed-refused :
      missing ≡ true
      → (is_empty (load_seed_accounts owner_id db)
          && not (exists (λ j. same_event j.event opening) db.journals))
        ≡ false
      → seed ids owner_id amount db ≡ (err runtime_error, db)
  unfolding seed seed_demo_accounts create_seed ◌>>=◌
  seed-refused h partial = ground (arith, h)

  check-keeps : (transaction check db).1 ≡ db
  check-keeps =
      transaction-keeps (λ x. x ≡ db) check db refl
        (λ u after e. (validate-IsSeeded owner_id amount (load_seed_accounts owner_id db) db e).1)

  check_iff :
      ((transaction check db).0 ≡ ok tt)
      ↔ IsSeeded owner_id amount (load_seed_accounts owner_id db) db
  check_iff = (
    λ h.
        (validate-IsSeeded owner_id amount (load_seed_accounts owner_id db) db {db' = (check db).1}
          (ap (λ (r : Result (Unit {0})). (r, (check db).1))
            (sym (result-transaction check db) ∙ h))).0,
    λ h.
        result-transaction check db
        ∙ ap (λ (q : Result (Unit {0}) × Database). q.0)
            (validate-ok owner_id amount (load_seed_accounts owner_id db) db h),
  )

  missing-IsSeeded : IsSeeded owner_id amount (load_seed_accounts owner_id db) db → missing ≡ false
  missing-IsSeeded h = ground (arith, h.found_available, h.found_reserved)

  -- Where one of the four accounts or an opening journal is there, the seed changes nothing. It returns
  -- exactly if the four accounts are there with their classes, the opening journal is one and has the
  -- two expected postings, and the tables pass the audit; else it raises.
  pub seed_existing :
      (is_empty (load_seed_accounts owner_id db)
          && not (exists (λ j. same_event j.event opening) db.journals))
        ≡ false
      → ((seed ids owner_id amount db).1 ≡ db)
        × (((seed ids owner_id amount db).0 ≡ ok tt)
            ↔ IsSeeded owner_id amount (load_seed_accounts owner_id db) db)
  seed_existing there = elim (Bool-cases missing) [
    | inl absent ↦
        rw (seed-refused absent there) (refl, ((λ e. cc), (λ h. cc (absent, missing-IsSeeded h))))
    | inr present ↦ rw (seed-check present) (check-keeps, check_iff)
  ]
