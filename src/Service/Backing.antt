-- ===== src/Service/Backing.antt =====
-- app/service.py: the balances that are reserved, against the amounts of the open settlements.
pub mod Moves
use mathlib.Core.List.Memᴰ
use netaro_settlement_router.Prelude.{
  nat_eq, ℕ, ◌≡◌, ◌≢◌, ◌<◌, refl, sym, ap, ◌∙◌, inl, inr, String, Bool, true, false, ◌&&◌, List, [],
  ◌∷◌, ◌++◌, Memᴰ, arith, eq_iff, str_eq, if◌then◌else◌, Bool-cases,
}
use netaro_settlement_router.Prelude.Int.{
  ℤ, pos, ◌+ℤ◌, ◌-ℤ◌, ◌≤ℤ◌, int_laws, parts_of_eq, eq_of_parts,
}
use netaro_settlement_router.Routing.Types.{usd}
use netaro_settlement_router.Table.{replace, Distinct, mem_unique}
use netaro_settlement_router.Table.Updates.{
  mem-replace, mem-replace_self, mem-replace_ne, Distinct-replace, Distinct-insert,
}
use netaro_settlement_router.Table.Sums.{sum_by, sum_by-replace, sum_by-insert, le-sum_by}
use netaro_settlement_router.Models.{
  Account, liability, available, omnibus, AccountPurpose, PostingSide, debit, credit, Settlement,
  SettlementStatus, account_id_of, identity_of, settlement_id_of, is_open,
}
use netaro_settlement_router.Database.{numeric_24}
use netaro_settlement_router.Ledger.{moved_balance, moved}
use netaro_settlement_router.Ledger.Invariant.{
  IsLedger, shifted, shifted-mem, mem-shifted, shifted-IsLedger,
}

-- What a settlement keeps reserved for an owner.
abbrev pub open_amount : String → Settlement → ℤ
open_amount o s = if str_eq s.owner_id o && is_open s.status then pos s.amount_usd else pos 0

abbrev pub open_total : String → List Settlement → ℤ
open_total o = sum_by (open_amount o)

-- The account of a purpose in USD is there.
abbrev pub HasAccount : String → AccountPurpose → List Account → Type 0
HasAccount o p accounts = (a : Account) × Memᴰ a accounts × (identity_of a ≡ (o, usd, p))

pub record IsBacked (accounts : List Account) (settlements : List Settlement) : Type 0 where
  pub ledger : IsLedger accounts
  pub settlement_ids : Distinct settlement_id_of settlements
  pub amounts :
      (s : Settlement) → Memᴰ s settlements → (0 < s.amount_usd) × (s.amount_usd < numeric_24)
  pub has_available :
      (s : Settlement) → Memᴰ s settlements → HasAccount s.owner_id available accounts
  pub has_reserved :
      (s : Settlement) → Memᴰ s settlements → HasAccount s.owner_id AccountPurpose.reserved accounts
  pub has_omnibus : HasAccount "system" omnibus accounts
  pub reserved :
      (a : Account)
      → Memᴰ a accounts
      → a.currency ≡ usd
      → a.purpose ≡ AccountPurpose.reserved
      → a.balance ≡ open_total a.owner_id settlements

pub open_amount_nonneg : (o : String) (s : Settlement) → pos 0 ≤ℤ open_amount o s
open_amount_nonneg o s = ground arith

pub open_amount_self :
    (s : Settlement) → is_open s.status ≡ true → open_amount s.owner_id s ≡ pos s.amount_usd
open_amount_self s h = rw ((eq_iff s.owner_id s.owner_id).1 refl) (rw h)

pub open_amount_other : (o : String) (s : Settlement) → s.owner_id ≢ o → open_amount o s ≡ pos 0
open_amount_other o s h = ground (arith, eq_iff s.owner_id o)

pub open_amount_closed :
    (o : String) (s : Settlement) → is_open s.status ≡ false → open_amount o s ≡ pos 0
open_amount_closed o s h = ground arith

-- A movement that agrees with a change of the totals keeps the reserved balances equal to them.
module _ (accounts : List Account) (d c : Account) (n : ℕ) (led : IsLedger accounts)
    (md : Memᴰ d accounts) (mc : Memᴰ c accounts) (ud : d.currency ≡ usd) (uc : c.currency ≡ usd)
    (ne : d.id ≢ c.id) where
  pub reserved-shifted :
      (before after : String → ℤ)
      → ((a : Account)
          → Memᴰ a accounts
          → a.currency ≡ usd
          → a.purpose ≡ AccountPurpose.reserved
          → a.balance ≡ before a.owner_id)
      → (c.purpose ≡ AccountPurpose.reserved → moved_balance c credit n ≡ after c.owner_id)
      → (d.purpose ≡ AccountPurpose.reserved → moved_balance d debit n ≡ after d.owner_id)
      → ((a : Account)
          → Memᴰ a accounts
          → a.currency ≡ usd
          → a.purpose ≡ AccountPurpose.reserved
          → a.id ≢ d.id
          → a.id ≢ c.id
          → before a.owner_id ≡ after a.owner_id)
      → (a : Account) → Memᴰ a (shifted accounts d c n)
      → a.currency ≡ usd
      → a.purpose ≡ AccountPurpose.reserved
      → a.balance ≡ after a.owner_id
  reserved-shifted before after old at_c at_d others a m =
      elim (shifted-mem accounts d c n led md mc ud uc ne m) [
        | inl p ↦ rw p (λ u r. at_c r)
        | inr (inl p) ↦ rw p (λ u r. at_d r)
        | inr (inr (was, nd, nc)) ↦ λ u r. old a was u r ∙ others a was u r nd nc
      ]

  pub shifted-HasAccount :
      (o : String) (p : AccountPurpose)
      → HasAccount o p accounts
      → HasAccount o p (shifted accounts d c n)
  shifted-HasAccount o p (a, m, k) =
      let (b, in_shifted, same, _) = mem-shifted accounts d c n led md mc ud uc ne m in
      (b, in_shifted, same ∙ k)

-- In one ledger two accounts in USD of one owner and purpose are one.
pub same_account :
    (accounts : List Account) (a b : Account)
    → IsLedger accounts
    → Memᴰ a accounts
    → Memᴰ b accounts
    → a.currency ≡ usd
    → b.currency ≡ usd
    → a.purpose ≡ b.purpose
    → a.owner_id ≡ b.owner_id
    → a ≡ b
same_account accounts a b led ma mb ua ub p o =
    mem_unique identity_of accounts led.identities ma mb (cc (ua, ub, p, o))

-- A change of status that leaves the settlement open changes no total.
module _ {accounts : List Account} {settlements : List Settlement}
    (b : IsBacked accounts settlements) (s : Settlement) (m : Memᴰ s settlements)
    (status : SettlementStatus) where
  abbrev pub moved_on : Settlement
  moved_on = record s { status = status }

  pub open_total-replace :
      (o : String)
      → open_total o (replace settlement_id_of moved_on settlements) +ℤ open_amount o s
        ≡ open_total o settlements +ℤ open_amount o moved_on
  open_total-replace o =
      sum_by-replace (open_amount o) settlement_id_of moved_on settlements b.settlement_ids m refl

  pub replaced-ids : Distinct settlement_id_of (replace settlement_id_of moved_on settlements)
  replaced-ids =
      Distinct-replace settlement_id_of settlement_id_of moved_on settlements (λ r n p. p)
        b.settlement_ids

  -- The owner and the amount of a row are those of a row before.
  pub replaced-mem :
      {ℓ : Settlement}
      → Memᴰ ℓ (replace settlement_id_of moved_on settlements)
      → (t : Settlement) × Memᴰ t settlements
        × (ℓ.owner_id ≡ t.owner_id)
        × (ℓ.amount_usd ≡ t.amount_usd)
  replaced-mem n = elim (mem-replace settlement_id_of moved_on settlements n) [
    | inl p ↦ (s, m, ap (λ (q : Settlement). q.owner_id) p, ap (λ (q : Settlement). q.amount_usd) p)
    | inr (old, _) ↦ (_, old, refl, refl)
  ]
