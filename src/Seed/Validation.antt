-- ===== src/Seed/Validation.antt =====
-- app/seed.py: what `_validate_existing_seed` looks for, as a predicate of the tables.
use netaro_settlement_router.Prelude.{
  nat_eq, refl, inl, inr, Option-cases, ◌≢◌, ℕ, ◌≡◌, String, true, some, List, [], ◌∷◌, map, arith,
}
use netaro_settlement_router.Routing.Types.{usd, usdc}
use netaro_settlement_router.Models.{
  Account, AccountPurpose, omnibus, asset, liability, JournalTransaction, AccountIdentity,
}
use netaro_settlement_router.Database.{Database, ok, err, runtime_error, ◌>>=◌}
use netaro_settlement_router.Ledger.Audit.{assert_ledger_invariants}
use netaro_settlement_router.Prelude.{select}
use netaro_settlement_router.Seed.{
  account_at, is_at, is_opening, only, postings_of, row_of, same_rows, sorted_rows, expected_rows,
  validate_existing_seed,
}

-- The four accounts with their classes, one opening journal with the two expected postings, and
-- tables that pass the audit.
pub record IsSeeded (owner_id : String) (amount : ℕ) (rows : List Account) (db : Database)
    : Type 0 where
  pub available_row : Account
  pub reserved_row : Account
  pub omnibus_usd : Account
  pub omnibus_usdc : Account
  pub journal : JournalTransaction
  pub found_available :
      account_at (owner_id, usd, AccountPurpose.available) rows ≡ some available_row
  pub found_reserved : account_at (owner_id, usd, AccountPurpose.reserved) rows ≡ some reserved_row
  pub found_usd : account_at ("system", usd, omnibus) rows ≡ some omnibus_usd
  pub found_usdc : account_at ("system", usdc, omnibus) rows ≡ some omnibus_usdc
  pub available_class : available_row.account_class ≡ liability
  pub reserved_class : reserved_row.account_class ≡ liability
  pub usd_class : omnibus_usd.account_class ≡ asset
  pub usdc_class : omnibus_usdc.account_class ≡ asset
  pub one_opening : select is_opening db.journals ≡ journal ∷ []
  pub entry :
      same_rows
        (sorted_rows (map row_of (postings_of journal.id db.postings)))
        (sorted_rows (expected_rows omnibus_usd available_row amount))
      ≡ true
  pub audited : assert_ledger_invariants db ≡ ok tt

single :
    (journals : List JournalTransaction)
    → only journals ≢ err runtime_error
    → (j : JournalTransaction) × (journals ≡ j ∷ [])
single [] h = absurd (h refl)
single (k ∷ []) h = (k, refl)
single (k ∷ l ∷ rest) h = absurd (h refl)

pub found_at :
    (rows : List Account) (key : AccountIdentity)
    → is_at rows key ≡ true
    → (a : Account) × (account_at key rows ≡ some a)
found_at rows key h = elim (Option-cases (account_at key rows)) [
  | inl missing ↦ cc (rw (missing, is_at) at h)
  | inr found ↦ found
]

module _ (owner_id : String) (amount : ℕ) (rows : List Account) (db : Database) where
  -- The check accepts such tables, and changes nothing.
  pub validate-ok :
      IsSeeded owner_id amount rows db
      → validate_existing_seed owner_id amount rows db ≡ (ok tt, db)
  unfolding validate_existing_seed ◌>>=◌
  validate-ok h = ground arith

  accepted :
      {db' : Database}
      → validate_existing_seed owner_id amount rows db ≡ (ok tt, db')
      → (is_at rows (owner_id, usd, AccountPurpose.available) ≡ true)
        × (is_at rows (owner_id, usd, AccountPurpose.reserved) ≡ true)
        × (is_at rows ("system", usd, omnibus) ≡ true)
        × (is_at rows ("system", usdc, omnibus) ≡ true)
        × (only (select is_opening db.journals) ≢ err runtime_error)
  unfolding validate_existing_seed ◌>>=◌
  accepted h = ground arith

  validated :
      (a r u c : Account) (j : JournalTransaction) {db' : Database}
      → account_at (owner_id, usd, AccountPurpose.available) rows ≡ some a
      → account_at (owner_id, usd, AccountPurpose.reserved) rows ≡ some r
      → account_at ("system", usd, omnibus) rows ≡ some u
      → account_at ("system", usdc, omnibus) rows ≡ some c
      → select is_opening db.journals ≡ j ∷ []
      → validate_existing_seed owner_id amount rows db ≡ (ok tt, db')
      → (a.account_class ≡ liability)
        × (r.account_class ≡ liability)
        × (u.account_class ≡ asset)
        × (c.account_class ≡ asset)
        × (same_rows
              (sorted_rows (map row_of (postings_of j.id db.postings)))
              (sorted_rows (expected_rows u a amount))
            ≡ true)
        × (assert_ledger_invariants db ≡ ok tt)
        × (db' ≡ db)
  unfolding validate_existing_seed ◌>>=◌
  validated a r u c j fa fr fu fc one h = ground arith

  -- What it accepts are such tables.
  pub validate-IsSeeded :
      {db' : Database}
      → validate_existing_seed owner_id amount rows db ≡ (ok tt, db')
      → IsSeeded owner_id amount rows db × (db' ≡ db)
  validate-IsSeeded h =
      let (ia, ir, iu, ic, opened) = accepted h in
      let (a, fa) = found_at rows (owner_id, usd, AccountPurpose.available) ia in
      let (r, fr) = found_at rows (owner_id, usd, AccountPurpose.reserved) ir in
      let (u, fu) = found_at rows ("system", usd, omnibus) iu in
      let (c, fc) = found_at rows ("system", usdc, omnibus) ic in
      let (j, one) = single (select is_opening db.journals) opened in
      let (ca, cr, cu, cd, entry, audit, same) = validated a r u c j fa fr fu fc one h in
      (
        record {
          available_row = a;
          reserved_row = r;
          omnibus_usd = u;
          omnibus_usdc = c;
          journal = j;
          found_available = fa;
          found_reserved = fr;
          found_usd = fu;
          found_usdc = fc;
          available_class = ca;
          reserved_class = cr;
          usd_class = cu;
          usdc_class = cd;
          one_opening = one;
          entry = entry;
          audited = audit;
        },
        same,
      )
