-- ===== src/Ledger/Audit/Postings.antt =====
-- app/ledger.py: `_post` against what `assert_ledger_invariants` looks at.
use mathlib.Core.List.Memᴰ
use netaro_settlement_router.Prelude.{
  nat_eq, ℕ, ◌≡◌, ◌≢◌, refl, sym, ap, ◌∙◌, subst, inl, inr, true, ◌==◌, ==_iff, List, [], ◌∷◌, ◌++◌,
  Memᴰ, arith, exists, exists-of_mem, mem_of_exists,
}
use netaro_settlement_router.Prelude.Int.{ℤ, pos, ◌+ℤ◌, int_laws, eq_of_parts, parts_of_eq}
use netaro_settlement_router.Table.Sums.{sum_by, sum_by-insert}
use netaro_settlement_router.Routing.Types.{Currency, usd}
use netaro_settlement_router.Models.{
  Account, AccountClass, asset, liability, JournalEvent, Settlement, AccountKey, Posting,
  PostingSide, debit, credit,
}
use netaro_settlement_router.Database.{Database, ok}
use netaro_settlement_router.Ledger.{moved_balance, posting_of, post}
use netaro_settlement_router.Ledger.Movement.{account_pair-Holds, post-IsPostable}
use netaro_settlement_router.Ledger.Invariant.{
  IsLedger, shifted, shifted-mem, mem-shifted, ids_differ, has_key-eq,
}
use netaro_settlement_router.Ledger.Audit.{
  effect, expected_balance, side_amount, side_total, signed_amount, IsAudited,
}

moved_balance-signed :
    (a : Account) (side : PostingSide) (jid n : ℕ)
    → moved_balance a side n ≡ a.balance +ℤ effect a (posting_of jid a side n)
unfolding moved_balance
moved_balance-signed a side jid n =
    rw ((==_iff a.id a.id).1 refl) (by_class a.account_class side a.balance)
  where
    by_class :
        (k : AccountClass) (side : PostingSide) (b : ℤ)
        → moved_balance (record a { account_class = k; balance = b }) side n
          ≡ b +ℤ signed_amount k (posting_of jid a side n)
    by_class asset debit b = omega int_laws
    by_class asset credit b = eq_of_parts _ _ (omega int_laws)
    by_class liability debit b = eq_of_parts _ _ (omega int_laws)
    by_class liability credit b = omega int_laws

effect_other :
    (a b : Account) (side : PostingSide) (jid n : ℕ)
    → b.id ≢ a.id
    → effect a (posting_of jid b side n) ≡ pos 0
effect_other a b side jid n h = ground (arith, ==_iff b.id a.id)

-- The two postings of a movement, behind those that are there.
module _ (d c : Account) (n jid : ℕ) (postings : List Posting) where
  abbrev pub both : List Posting
  both = (postings ++ posting_of jid d debit n ∷ []) ++ posting_of jid c credit n ∷ []

  sum_by-both :
      (w : Posting → ℤ)
      → sum_by w both
        ≡ (sum_by w postings +ℤ w (posting_of jid d debit n)) +ℤ w (posting_of jid c credit n)
  sum_by-both w =
      sum_by-insert w (posting_of jid c credit n) (postings ++ posting_of jid d debit n ∷ [])
      ∙ ap (λ (t : ℤ). t +ℤ w (posting_of jid c credit n))
          (sum_by-insert w (posting_of jid d debit n) postings)

  same_amount :
      (journal : ℕ) (currency : Currency)
      → side_amount debit journal currency (posting_of jid d debit n)
        ≡ side_amount credit journal currency (posting_of jid c credit n)
  same_amount journal currency = ground arith

  nothing :
      (journal : ℕ) (currency : Currency)
      → (side_amount credit journal currency (posting_of jid d debit n) ≡ pos 0)
        × (side_amount debit journal currency (posting_of jid c credit n) ≡ pos 0)
  nothing journal currency = ground arith

  -- They keep a journal balanced.
  pub both-balanced :
      (journal : ℕ) (currency : Currency)
      → side_total debit journal currency postings ≡ side_total credit journal currency postings
      → side_total debit journal currency both ≡ side_total credit journal currency both
  both-balanced journal currency h =
      let (no_credit, no_debit) = nothing journal currency in
      eq_of_parts _ _ (
        omega (
          int_laws,
          parts_of_eq (sum_by-both (side_amount debit journal currency)),
          parts_of_eq (sum_by-both (side_amount credit journal currency)),
          parts_of_eq (same_amount journal currency),
          parts_of_eq no_credit,
          parts_of_eq no_debit,
          parts_of_eq h,
        ))

module _ (accounts : List Account) (d c : Account) (n jid : ℕ) (led : IsLedger accounts)
    (md : Memᴰ d accounts) (mc : Memᴰ c accounts) (ud : d.currency ≡ usd) (uc : c.currency ≡ usd)
    (ne : d.id ≢ c.id) (postings : List Posting) (h : IsAudited accounts postings) where
  abbrev entries : List Posting
  entries = both d c n jid postings

  sum_entries :
      (w : Posting → ℤ)
      → sum_by w entries
        ≡ (sum_by w postings +ℤ w (posting_of jid d debit n)) +ℤ w (posting_of jid c credit n)
  sum_entries = sum_by-both d c n jid postings

  at_c : moved_balance c credit n ≡ expected_balance c entries
  at_c = eq_of_parts _ _ (
      omega (
        int_laws,
        parts_of_eq (sum_entries (effect c)),
        parts_of_eq (moved_balance-signed c credit jid n),
        parts_of_eq (effect_other c d debit jid n ne),
        parts_of_eq (h.balances c mc),
      ))

  at_d : moved_balance d debit n ≡ expected_balance d entries
  at_d = eq_of_parts _ _ (
      omega (
        int_laws,
        parts_of_eq (sum_entries (effect d)),
        parts_of_eq (moved_balance-signed d debit jid n),
        parts_of_eq (effect_other d c credit jid n (λ p. ne (sym p))),
        parts_of_eq (h.balances d md),
      ))

  at_other :
      (a : Account)
      → Memᴰ a accounts
      → a.id ≢ d.id
      → a.id ≢ c.id
      → a.balance ≡ expected_balance a entries
  at_other a m nd nc = eq_of_parts _ _ (
      omega (
        int_laws,
        parts_of_eq (sum_entries (effect a)),
        parts_of_eq (effect_other a d debit jid n (λ p. nd (sym p))),
        parts_of_eq (effect_other a c credit jid n (λ p. nc (sym p))),
        parts_of_eq (h.balances a m),
      ))

  has_row :
      (p : Posting) (a : Account)
      → Memᴰ a accounts
      → a.id ≡ p.account_id
      → exists (λ b. b.id == p.account_id) (shifted accounts d c n) ≡ true
  has_row p a m same =
      let (b, there, _, id) = mem-shifted accounts d c n led md mc ud uc ne m in
      exists-of_mem (λ (b : Account). b.id == p.account_id) (shifted accounts d c n) there
        ((==_iff b.id p.account_id).1 (id ∙ same))

  both-accounted :
      (p : Posting)
      → Memᴰ p entries
      → exists (λ b. b.id == p.account_id) (shifted accounts d c n) ≡ true
  both-accounted p m = elim (Memᴰ.append_cases (postings ++ posting_of jid d debit n ∷ []) m) [
    | inr last ↦
        has_row p c mc (ap (λ (q : Posting). q.account_id) (sym (Memᴰ.eq_of_singleton last)))
    | inl before ↦ elim (Memᴰ.append_cases postings before) [
      | inr last ↦
          has_row p d md (ap (λ (q : Posting). q.account_id) (sym (Memᴰ.eq_of_singleton last)))
      | inl old ↦
          let (a, there, same) =
            mem_of_exists (λ (b : Account). b.id == p.account_id) accounts (h.accounted p old) in
          has_row p a there ((==_iff a.id p.account_id).0 same)
    ]
  ]

  pub shifted-IsAudited : IsAudited (shifted accounts d c n) entries
  shifted-IsAudited = record {
    balances = λ a m. elim (shifted-mem accounts d c n led md mc ud uc ne m) [
      | inl p ↦ rw p at_c
      | inr (inl p) ↦ rw p at_d
      | inr (inr (old, nd, nc)) ↦ at_other a old nd nc
    ];
    balanced = λ journal currency.
        both-balanced d c n jid postings journal currency (h.balanced journal currency);
    accounted = both-accounted;
  }

-- A successful `_post` between accounts of two purposes keeps the audit.
pub post-IsAudited :
    (s : Settlement) (event : JournalEvent) (dk ck : AccountKey) (jid : ℕ) (db : Database)
    {db' : Database}
    → IsLedger db.accounts
    → dk.1 ≢ ck.1
    → IsAudited db.accounts db.postings
    → post s event dk ck jid db ≡ (ok tt, db')
    → IsAudited db'.accounts db'.postings
post-IsAudited s event dk ck jid db {db'} led apart h e =
    let (d, c, pair, _, written) = post-IsPostable s event dk ck jid db e in
    let ((md, ud, kd), (mc, uc, kc)) = account_pair-Holds dk ck db d c pair in
    let (_, pd) = has_key-eq dk.0 dk.1 d kd in
    let (_, pc) = has_key-eq ck.0 ck.1 c kc in
    let ne = ids_differ db.accounts d c led.ids md mc (λ p. apart (sym pd ∙ p ∙ pc)) in
    subst (λ (x : Database). IsAudited x.accounts x.postings) (sym written)
      (shifted-IsAudited db.accounts d c s.amount_usd jid led md mc ud uc ne db.postings h)
