-- ===== src/Seed/Runs.antt =====
-- app/seed.py, app/service.py: the seed before and after a run of the service.
use netaro_settlement_router.Prelude.{
  nat_eq, ℕ, ◌≡◌, ◌<◌, refl, sym, ap, ◌∙◌, subst, String, true, some, [], ◌∷◌, map, Memᴰ, arith,
  eq_iff, exists,
}
use netaro_settlement_router.Routing.Types.{usd, usdc}
use netaro_settlement_router.Models.{
  Account, AccountPurpose, available, omnibus, AccountIdentity, identity_of, debit, credit,
}
use netaro_settlement_router.Database.{Database, Result, ok, numeric_24, ◌>>=◌}
use netaro_settlement_router.Schemas.{SettlementCreate}
use netaro_settlement_router.Provider.{PayoutProvider}
use netaro_settlement_router.Ledger.Invariant.{IsLedger, class_of}
use netaro_settlement_router.Ledger.Audit.{assert_ledger_invariants, IsAudited}
use netaro_settlement_router.Service.Soundness.{IsSound}
use netaro_settlement_router.Service.Entries.{Books, books, Enters, unchanged, movement}
use netaro_settlement_router.Service.Tasks.System.{System, Reach, Reach-IsSound}
use netaro_settlement_router.Service.Tasks.Audits.{Reach-keeps, idle-IsRunning, Reach-audit}
use netaro_settlement_router.Seed.{
  SeedIds, seed, seed_demo_accounts, same_identity, account_at, load_seed_accounts,
  seed_account_keys, row_of, same_rows, sorted_rows, opening_journal,
}
use netaro_settlement_router.Seed.Validation.{IsSeeded, validate-ok}
use netaro_settlement_router.Seed.Opening.{
  empty, AreDistinct, opened, opening_postings, opened-IsSound, opened-IsAudited, seed-opened,
  same_rows_self, self_eq,
}
use netaro_settlement_router.Seed.Kept.{
  SeedRows, KeepsSeed, HasRow, post-KeepsSeed, account_at-select,
}

Enters-KeepsSeed :
    (o : SeedRows) {before after : Database}
    → IsSound before
    → Enters before after
    → KeepsSeed o (books before)
    → KeepsSeed o (books after)
Enters-KeepsSeed o sound (unchanged same) k = subst (KeepsSeed o) (sym same) k
Enters-KeepsSeed o sound (movement s event dk ck jid start end from other apart e to) k =
    subst (KeepsSeed o) (sym to) (
      post-KeepsSeed o s event dk ck jid start
        (subst (λ (b : Books). IsLedger b.0) (sym from) sound.backed.ledger) other apart e
        (subst (KeepsSeed o) (sym from) k))

module _ (o : SeedRows) (db : Database) (led : IsLedger db.accounts) where
  -- A row of the seed is the one that the seed finds.
  row_found :
      (key : AccountIdentity) (i : ℕ)
      → exists (same_identity key) (seed_account_keys o.owner_id) ≡ true
      → HasRow key i db.accounts
      → (a : Account) × (account_at key (load_seed_accounts o.owner_id db) ≡ some a)
        × (a.id ≡ i)
        × (a.account_class ≡ class_of key.2)
  unfolding load_seed_accounts
  row_found key i selected (a, m, identity, id) = (
    a,
    subst (λ (k : AccountIdentity). account_at k (load_seed_accounts o.owner_id db) ≡ some a)
        identity
        (account_at-select
          (λ a. exists (same_identity (identity_of a)) (seed_account_keys o.owner_id)) db.accounts
          led.identities m
          (subst
            (λ (k : AccountIdentity).
              exists (same_identity k) (seed_account_keys o.owner_id) ≡ true)
            (sym identity) selected)),
    id,
    led.classes a m ∙ ap (λ (k : AccountIdentity). class_of k.2) identity,
  )

  -- Rows that a seed has left pass its check, with the opening entry and the audit.
  KeepsSeed-IsSeeded :
      (amount : ℕ)
      → KeepsSeed o (books db)
      → same_rows (sorted_rows (map row_of o.entry)) (
          sorted_rows ((o.usd_id, usd, debit, amount) ∷ (o.available_id, usd, credit, amount) ∷ []))
        ≡ true
      → assert_ledger_invariants db ≡ ok tt
      → IsSeeded o.owner_id amount (load_seed_accounts o.owner_id db) db
  unfolding same_identity
  KeepsSeed-IsSeeded amount k entry audit =
      let self = (eq_iff o.owner_id o.owner_id).1 refl in
      let (a, fa, ia, ca) =
        row_found (o.owner_id, usd, available) o.available_id (ground (arith, self))
          k.available_row in
      let (r, fr, ir, cr) =
        row_found (o.owner_id, usd, AccountPurpose.reserved) o.reserved_id (ground (arith, self))
          k.reserved_row in
      let (u, fu, iu, cu) = row_found ("system", usd, omnibus) o.usd_id refl k.usd_row in
      let (c, fc, ic, cc') = row_found ("system", usdc, omnibus) o.usdc_id refl k.usdc_row in
      record {
        available_row = a;
        reserved_row = r;
        omnibus_usd = u;
        omnibus_usdc = c;
        journal = o.journal;
        found_available = fa;
        found_reserved = fr;
        found_usd = fu;
        found_usdc = fc;
        available_class = ca;
        reserved_class = cr;
        usd_class = cu;
        usdc_class = cc';
        one_opening = k.one_opening;
        entry = rw (k.opening_entry, ia, iu) entry;
        audited = audit;
      }

-- A seed that finds its rows changes nothing.
seed-accepts :
    (ids : SeedIds) (owner_id : String) (amount : ℕ) (db : Database)
    → IsSeeded owner_id amount (load_seed_accounts owner_id db) db
    → seed ids owner_id amount db ≡ (ok tt, db)
unfolding seed seed_demo_accounts ◌>>=◌
seed-accepts ids owner_id amount db h =
    let accepted = validate-ok owner_id amount (load_seed_accounts owner_id db) db h in
    ground (arith, accepted, h.found_available, h.found_reserved)

abbrev seed_rows : SeedIds → String → ℕ → SeedRows
seed_rows ids owner_id amount = record {
  owner_id = owner_id;
  available_id = ids.available;
  reserved_id = ids.reserved;
  usd_id = ids.omnibus_usd;
  usdc_id = ids.omnibus_usdc;
  journal = opening_journal ids.journal;
  entry = opening_postings ids owner_id amount;
}

opened-KeepsSeed :
    (ids : SeedIds) (owner_id : String) (amount : ℕ)
    → KeepsSeed (seed_rows ids owner_id amount) (books (opened ids owner_id amount))
opened-KeepsSeed ids owner_id amount = record {
  available_row = (_, Memᴰ.tail (Memᴰ.tail (Memᴰ.head refl)), refl, refl);
  reserved_row = (_, Memᴰ.tail (Memᴰ.tail (Memᴰ.tail (Memᴰ.head refl))), refl, refl);
  usd_row = (_, Memᴰ.head refl, refl, refl);
  usdc_row = (_, Memᴰ.tail (Memᴰ.head refl), refl, refl);
  one_opening = refl;
  opening_entry = rw (self_eq ids.journal) refl;
}

module _ {P : Type 0} (provider : PayoutProvider P)
    (request_fingerprint : String → SettlementCreate → String) where
  -- Whatever the service does from the tables that the seed has made of an empty database, they are
  -- sound after every step, `assert_ledger_invariants` passes, and a new seed of the same customer and
  -- amount accepts them and changes nothing.
  pub Reach-reseed :
      (ids later : SeedIds) (owner_id : String) (amount : ℕ) {start s : System P}
      → AreDistinct ids
      → 0 < amount
      → amount < numeric_24
      → start.world.db ≡ (seed ids owner_id amount empty).1
      → start.tasks ≡ []
      → Reach provider request_fingerprint start s
      → IsSound s.world.db
        × (assert_ledger_invariants s.world.db ≡ ok tt)
        × (seed later owner_id amount s.world.db ≡ (ok tt, s.world.db))
  Reach-reseed ids later owner_id amount {start} {s} apart positive fits from idle r =
      let tables : start.world.db ≡ opened ids owner_id amount =
        from
        ∙ ap (λ (q : Result (Unit {0}) × Database). q.1)
            (seed-opened ids owner_id amount apart positive fits) in
      let sound = subst IsSound (sym tables) (opened-IsSound ids owner_id amount apart fits) in
      let audited =
        subst (λ (db : Database). IsAudited db.accounts db.postings) (sym tables)
          (opened-IsAudited ids owner_id amount apart) in
      let rows = seed_rows ids owner_id amount in
      let kept =
        Reach-keeps provider request_fingerprint (λ db. KeepsSeed rows (books db))
          (λ before after h e k. Enters-KeepsSeed rows h e k) r
          (idle-IsRunning provider request_fingerprint start sound idle)
          (subst (λ (db : Database). KeepsSeed rows (books db)) (sym tables)
            (opened-KeepsSeed ids owner_id amount)) in
      let sound' = Reach-IsSound provider request_fingerprint r sound idle in
      let audit = Reach-audit provider request_fingerprint r sound audited idle in
      (
        sound',
        audit,
        seed-accepts later owner_id amount s.world.db (
            KeepsSeed-IsSeeded rows s.world.db sound'.backed.ledger amount kept
              (same_rows_self (sorted_rows (map row_of rows.entry))) audit),
      )
