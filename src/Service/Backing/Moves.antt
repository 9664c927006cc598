-- ===== src/Service/Backing/Moves.antt =====
-- app/service.py: the ledger's movements together with the change of their settlement.
use mathlib.Core.List.Memᴰ
use netaro_settlement_router.Prelude.{
  nat_eq, ℕ, ◌≡◌, ◌≢◌, ◌<◌, sym, ap, ◌∙◌, inl, inr, String, true, false, List, [], ◌∷◌, ◌++◌, Memᴰ,
}
use netaro_settlement_router.Prelude.Int.{pos, ◌+ℤ◌, ◌-ℤ◌, ◌≤ℤ◌, int_laws, parts_of_eq, eq_of_parts}
use netaro_settlement_router.Routing.Types.{usd}
use netaro_settlement_router.Table.{replace}
use netaro_settlement_router.Table.Updates.{Distinct-insert}
use netaro_settlement_router.Table.Sums.{sum_by-insert}
use netaro_settlement_router.Models.{
  Account, liability, available, AccountPurpose, debit, credit, Settlement, SettlementStatus,
  settlement_id_of, is_open,
}
use netaro_settlement_router.Database.{numeric_24}
use netaro_settlement_router.Ledger.{moved_balance}
use netaro_settlement_router.Ledger.Invariant.{shifted, shifted-IsLedger, ids_differ}
use netaro_settlement_router.Service.Backing.{
  IsBacked, open_amount, open_total, open_amount_self, open_amount_other, open_amount_closed,
  reserved-shifted, shifted-HasAccount, same_account, open_total-replace, replaced-ids,
  replaced-mem,
}

moved_balance-debit :
    (a : Account) (n : ℕ)
    → a.account_class ≡ liability
    → moved_balance a debit n ≡ a.balance -ℤ pos n
unfolding moved_balance
moved_balance-debit a n h = rw h

moved_balance-credit :
    (a : Account) (n : ℕ)
    → a.account_class ≡ liability
    → moved_balance a credit n ≡ a.balance +ℤ pos n
unfolding moved_balance
moved_balance-credit a n h = rw h

-- A claim, or a result that stays unknown.
pub move_on-IsBacked :
    {accounts : List Account} {settlements : List Settlement} (b : IsBacked accounts settlements)
    (s : Settlement) (m : Memᴰ s settlements) (status : SettlementStatus)
    → is_open s.status ≡ true
    → is_open status ≡ true
    → IsBacked accounts (replace settlement_id_of (record s { status = status }) settlements)
move_on-IsBacked {accounts} {settlements} b s m status was is = record {
  ledger = b.ledger;
  settlement_ids = replaced-ids b s m status;
  amounts =
      λ t n. let (u, old, _, amount) = replaced-mem b s m status n in rw amount (b.amounts u old);
  has_available = λ t n.
      let (u, old, owner, _) = replaced-mem b s m status n in rw owner (b.has_available u old);
  has_reserved = λ t n.
      let (u, old, owner, _) = replaced-mem b s m status n in rw owner (b.has_reserved u old);
  has_omnibus = b.has_omnibus;
  reserved = λ a n u r. b.reserved a n u r ∙ sym (unchanged a.owner_id);
}
  where
    same_amount : (o : String) → open_amount o (record s { status = status }) ≡ open_amount o s
    same_amount o = rw (was, is)

    unchanged :
        (o : String)
        → open_total o (replace settlement_id_of (record s { status = status }) settlements)
          ≡ open_total o settlements
    unchanged o = eq_of_parts _ _ (
        omega
          (int_laws, parts_of_eq (open_total-replace b s m status o), parts_of_eq (same_amount o)))

module _ {accounts : List Account} {settlements : List Settlement}
    (b : IsBacked accounts settlements) (s : Settlement) (d c : Account) (md : Memᴰ d accounts)
    (mc : Memᴰ c accounts) (ud : d.currency ≡ usd) (uc : c.currency ≡ usd)
    (nd : pos 0 ≤ℤ moved_balance d debit s.amount_usd)
    (nc : pos 0 ≤ℤ moved_balance c credit s.amount_usd) where
  -- The reservation of a new settlement.
  pub reserve-IsBacked :
      d.purpose ≡ available
      → c.purpose ≡ AccountPurpose.reserved
      → d.owner_id ≡ s.owner_id
      → c.owner_id ≡ s.owner_id
      → is_open s.status ≡ true
      → ((q : Settlement) → Memᴰ q settlements → q.id ≢ s.id)
      → (0 < s.amount_usd) × (s.amount_usd < numeric_24)
      → IsBacked (shifted accounts d c s.amount_usd) (settlements ++ s ∷ [])
  reserve-IsBacked pd pc od oc is_new fresh amount = record {
    ledger =
        shifted-IsLedger accounts d c s.amount_usd b.ledger md mc ud uc ne
          (b.ledger.classes d md ∙ rw pd) nd nc;
    settlement_ids = Distinct-insert settlement_id_of s settlements b.settlement_ids fresh;
    amounts = λ t n. elim (Memᴰ.append_cases settlements n) [
      | inl old ↦ b.amounts t old
      | inr new ↦ rw (Memᴰ.eq_of_singleton new) amount
    ];
    has_available = λ t n.
        shifted-HasAccount accounts d c s.amount_usd b.ledger md mc ud uc ne _ _
          (elim (Memᴰ.append_cases settlements n) [
            | inl old ↦ b.has_available t old
            | inr new ↦ rw (Memᴰ.eq_of_singleton new) (d, md, cc)
          ]);
    has_reserved = λ t n.
        shifted-HasAccount accounts d c s.amount_usd b.ledger md mc ud uc ne _ _
          (elim (Memᴰ.append_cases settlements n) [
            | inl old ↦ b.has_reserved t old
            | inr new ↦ rw (Memᴰ.eq_of_singleton new) (c, mc, cc)
          ]);
    has_omnibus =
        shifted-HasAccount accounts d c s.amount_usd b.ledger md mc ud uc ne _ _ b.has_omnibus;
    reserved =
        reserved-shifted accounts d c s.amount_usd b.ledger md mc ud uc ne
          (λ o. open_total o settlements) (λ o. open_total o (settlements ++ s ∷ [])) b.reserved
          at_c (λ r. absurd (apart (sym pd ∙ r))) others;
  }
    where
      apart : available ≢ AccountPurpose.reserved
      apart h = cc

      ne : d.id ≢ c.id
      ne = ids_differ accounts d c b.ledger.ids md mc (λ h. apart (sym pd ∙ h ∙ pc))

      at_c :
          c.purpose ≡ AccountPurpose.reserved
          → moved_balance c credit s.amount_usd ≡ open_total c.owner_id (settlements ++ s ∷ [])
      at_c r = eq_of_parts _ _ (
          omega (
            int_laws,
            parts_of_eq (moved_balance-credit c s.amount_usd (b.ledger.classes c mc ∙ rw pc)),
            parts_of_eq (b.reserved c mc uc r),
            parts_of_eq (sum_by-insert (open_amount c.owner_id) s settlements),
            parts_of_eq (ap (λ o. open_amount o s) oc ∙ open_amount_self s is_new),
          ))

      others :
          (a : Account)
          → Memᴰ a accounts
          → a.currency ≡ usd
          → a.purpose ≡ AccountPurpose.reserved
          → a.id ≢ d.id
          → a.id ≢ c.id
          → open_total a.owner_id settlements ≡ open_total a.owner_id (settlements ++ s ∷ [])
      others a ma ua ra _ nc = eq_of_parts _ _ (
          omega (
            int_laws,
            parts_of_eq (sum_by-insert (open_amount a.owner_id) s settlements),
            parts_of_eq (
                open_amount_other a.owner_id s (λ p. nc (
                  ap (λ (x : Account). x.id)
                    (same_account accounts a c b.ledger ma mc ua uc (ra ∙ sym pc)
                      (sym p ∙ sym oc))))),
          ))

  -- A result that closes a settlement: its amount leaves the owner's reserved account.
  pub settle-IsBacked :
      (m : Memᴰ s settlements) (status : SettlementStatus)
      → d.purpose ≡ AccountPurpose.reserved
      → c.purpose ≢ AccountPurpose.reserved
      → d.owner_id ≡ s.owner_id
      → is_open s.status ≡ true
      → is_open status ≡ false
      → IsBacked
          (shifted accounts d c s.amount_usd)
          (replace settlement_id_of (record s { status = status }) settlements)
  settle-IsBacked m status pd pc od was is = record {
    ledger =
        shifted-IsLedger accounts d c s.amount_usd b.ledger md mc ud uc ne
          (b.ledger.classes d md ∙ rw pd) nd nc;
    settlement_ids = replaced-ids b s m status;
    amounts =
        λ t n. let (u, old, _, amount) = replaced-mem b s m status n in rw amount (b.amounts u old);
    has_available = λ t n.
        let (u, old, owner, _) = replaced-mem b s m status n in
        shifted-HasAccount accounts d c s.amount_usd b.ledger md mc ud uc ne _ _
          (rw owner (b.has_available u old));
    has_reserved = λ t n.
        let (u, old, owner, _) = replaced-mem b s m status n in
        shifted-HasAccount accounts d c s.amount_usd b.ledger md mc ud uc ne _ _
          (rw owner (b.has_reserved u old));
    has_omnibus =
        shifted-HasAccount accounts d c s.amount_usd b.ledger md mc ud uc ne _ _ b.has_omnibus;
    reserved =
        reserved-shifted accounts d c s.amount_usd b.ledger md mc ud uc ne
          (λ o. open_total o settlements)
          (λ o. open_total o (replace settlement_id_of (record s { status = status }) settlements))
          b.reserved (λ r. absurd (pc r)) at_d others;
  }
    where
      ne : d.id ≢ c.id
      ne = ids_differ accounts d c b.ledger.ids md mc (λ h. pc (sym h ∙ pd))

      at_d :
          d.purpose ≡ AccountPurpose.reserved
          → moved_balance d debit s.amount_usd
            ≡ open_total d.owner_id
                (replace settlement_id_of (record s { status = status }) settlements)
      at_d r = eq_of_parts _ _ (
          omega (
            int_laws,
            parts_of_eq (moved_balance-debit d s.amount_usd (b.ledger.classes d md ∙ rw pd)),
            parts_of_eq (b.reserved d md ud r),
            parts_of_eq (open_total-replace b s m status d.owner_id),
            parts_of_eq (open_amount_closed d.owner_id (record s { status = status }) is),
            parts_of_eq (ap (λ o. open_amount o s) od ∙ open_amount_self s was),
          ))

      others :
          (a : Account)
          → Memᴰ a accounts
          → a.currency ≡ usd
          → a.purpose ≡ AccountPurpose.reserved
          → a.id ≢ d.id
          → a.id ≢ c.id
          → open_total a.owner_id settlements
            ≡ open_total a.owner_id
                (replace settlement_id_of (record s { status = status }) settlements)
      others a ma ua ra nd _ =
          let other : s.owner_id ≢ a.owner_id = λ p. nd (
            ap (λ (x : Account). x.id)
              (same_account accounts a d b.ledger ma md ua ud (ra ∙ sym pd) (sym p ∙ sym od))) in
          eq_of_parts _ _ (
            omega (
              int_laws,
              parts_of_eq (open_total-replace b s m status a.owner_id),
              parts_of_eq (open_amount_other a.owner_id s other),
              parts_of_eq (open_amount_other a.owner_id (record s { status = status }) other),
            ))
