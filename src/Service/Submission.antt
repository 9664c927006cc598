-- ===== src/Service/Submission.antt =====
-- app/service.py: the payout attempt of a settlement, against its status.
use mathlib.Core.List.Memᴰ
use netaro_settlement_router.Prelude.{
  nat_eq, ℕ, ◌≡◌, ◌≢◌, ◌<◌, sym, ap, ◌∙◌, ◌⊎◌, inl, inr, true, false, Option, none, some, List, [],
  ◌∷◌, ◌++◌, Memᴰ,
}
use native.Mathlib.Decide.{ℕ_discrete}
use netaro_settlement_router.Table.{lookup, replace, Distinct, lookup-mem, lookup_none}
use netaro_settlement_router.Table.Updates.{
  mem-replace, lookup-replace-none, lookup-replace_self, lookup-replace_ne, lookup-insert_none,
  lookup-insert_self, lookup-insert_ne, Distinct-replace, Distinct-insert,
}
use netaro_settlement_router.Models.{
  Settlement, SettlementStatus, PayoutAttempt, settlement_id_of, attempt_id_of, is_reserved,
}

abbrev pub attempt_for : ℕ → List PayoutAttempt → Option PayoutAttempt
attempt_for i attempts = lookup attempt_id_of i attempts

pub record IsSubmitted (settlements : List Settlement) (attempts : List PayoutAttempt)
    : Type 0 where
  pub operations : (s : Settlement) → Memᴰ s settlements → s.provider_operation_id ≡ s.id
  pub unsubmitted :
      (s : Settlement)
      → Memᴰ s settlements
      → is_reserved s.status ≡ true
      → attempt_for s.id attempts ≡ none
  pub submitted :
      (s : Settlement)
      → Memᴰ s settlements
      → is_reserved s.status ≡ false
      → (a : PayoutAttempt) × (attempt_for s.id attempts ≡ some a)
  pub orphans :
      (i : ℕ) → lookup settlement_id_of i settlements ≡ none → attempt_for i attempts ≡ none
  pub attempt_ids : Distinct attempt_id_of attempts
  pub attempt_rows :
      (a : PayoutAttempt)
      → Memᴰ a attempts
      → (a.operation_id ≡ a.settlement_id) × (0 < a.attempt_token)

module _ {settlements : List Settlement} {attempts : List PayoutAttempt}
    (h : IsSubmitted settlements attempts) where
  -- A new settlement, in RESERVED.
  pub create-IsSubmitted :
      (s : Settlement)
      → lookup settlement_id_of s.id settlements ≡ none
      → is_reserved s.status ≡ true
      → s.provider_operation_id ≡ s.id
      → IsSubmitted (settlements ++ s ∷ []) attempts
  create-IsSubmitted s new was op = record {
    operations = λ t m. elim (Memᴰ.append_cases settlements m) [
      | inl old ↦ h.operations t old
      | inr last ↦ rw (Memᴰ.eq_of_singleton last) op
    ];
    unsubmitted = λ t m. elim (Memᴰ.append_cases settlements m) [
      | inl old ↦ h.unsubmitted t old
      | inr last ↦ rw (Memᴰ.eq_of_singleton last) (λ _. h.orphans s.id new)
    ];
    submitted = λ t m. elim (Memᴰ.append_cases settlements m) [
      | inl old ↦ h.submitted t old
      | inr last ↦ rw (Memᴰ.eq_of_singleton last) (λ p. cc)
    ];
    orphans = λ i n. h.orphans i (lookup-insert_none settlement_id_of s settlements i n).0;
    attempt_ids = h.attempt_ids;
    attempt_rows = h.attempt_rows;
  }

  -- The first claim: the settlement leaves RESERVED with the attempt that is inserted.
  pub submit-IsSubmitted :
      (s : Settlement) (a : PayoutAttempt) (status : SettlementStatus)
      → Memᴰ s settlements
      → is_reserved s.status ≡ true
      → is_reserved status ≡ false
      → a.settlement_id ≡ s.id
      → a.operation_id ≡ s.id
      → 0 < a.attempt_token
      → IsSubmitted
          (replace settlement_id_of (record s { status = status }) settlements)
          (attempts ++ a ∷ [])
  submit-IsSubmitted s a status m was is same op token = record {
    operations = λ t n. elim (cases n) [
      | inl p ↦ rw p (h.operations s m)
      | inr (old, _) ↦ h.operations t old
    ];
    unsubmitted = λ t n u. elim (cases n) [
      | inl p ↦ cc (u, is, ap (λ (x : Settlement). is_reserved x.status) p)
      | inr (old, ne) ↦
          lookup-insert_ne attempt_id_of a attempts t.id (λ p. ne (sym (sym same ∙ p)))
          ∙ h.unsubmitted t old u
    ];
    submitted = λ t n u. elim (cases n) [
      | inl p ↦ (
        a,
        ap (λ (x : Settlement). attempt_for x.id (attempts ++ a ∷ [])) p
            ∙ ap (λ i. attempt_for i (attempts ++ a ∷ [])) (sym same)
            ∙ lookup-insert_self attempt_id_of a attempts none_yet,
      )
      | inr (old, ne) ↦
          let (b, found) = h.submitted t old u in
          (b, lookup-insert_ne attempt_id_of a attempts t.id (λ p. ne (sym (sym same ∙ p))) ∙ found)
    ];
    orphans = λ i n.
        let old =
          lookup-replace-none settlement_id_of (record s { status = status }) settlements i n in
        lookup-insert_ne attempt_id_of a attempts i
          (λ p. lookup_none settlement_id_of i settlements old s m (sym same ∙ p))
        ∙ h.orphans i old;
    attempt_ids =
        Distinct-insert attempt_id_of a attempts h.attempt_ids
          (lookup_none attempt_id_of a.settlement_id attempts none_yet);
    attempt_rows = λ b n. elim (Memᴰ.append_cases attempts n) [
      | inl old ↦ h.attempt_rows b old
      | inr last ↦ rw (Memᴰ.eq_of_singleton last) (op ∙ sym same, token)
    ];
  }
    where
      none_yet : attempt_for a.settlement_id attempts ≡ none
      none_yet = ap (λ i. attempt_for i attempts) same ∙ h.unsubmitted s m was

      cases :
          {t : Settlement}
          → Memᴰ t (replace settlement_id_of (record s { status = status }) settlements)
          → (t ≡ record s { status = status }) ⊎ (Memᴰ t settlements × (t.id ≢ s.id))
      cases n = mem-replace settlement_id_of (record s { status = status }) settlements n

  -- A later claim or result: the attempt's row is updated in place.
  pub update-IsSubmitted :
      (a b : PayoutAttempt)
      → attempt_for b.settlement_id attempts ≡ some a
      → b.operation_id ≡ a.operation_id
      → 0 < b.attempt_token
      → IsSubmitted settlements (replace attempt_id_of b attempts)
  update-IsSubmitted a b found op token = record {
    operations = h.operations;
    unsubmitted = λ t m u.
        lookup-replace_ne attempt_id_of b attempts t.id (other t.id (h.unsubmitted t m u))
        ∙ h.unsubmitted t m u;
    submitted = λ t m u. elim (ℕ_discrete b.settlement_id t.id) [
      | yes p ↦ (b, rw (← p) (lookup-replace_self attempt_id_of b attempts found))
      | no p ↦
          let (c, at_c) = h.submitted t m u in
          (c, lookup-replace_ne attempt_id_of b attempts t.id p ∙ at_c)
    ];
    orphans = λ i n.
        lookup-replace_ne attempt_id_of b attempts i (other i (h.orphans i n)) ∙ h.orphans i n;
    attempt_ids =
        Distinct-replace attempt_id_of attempt_id_of b attempts (λ r m p. p) h.attempt_ids;
    attempt_rows = λ c m. elim (mem-replace attempt_id_of b attempts m) [
      | inl p ↦ rw p (op ∙ (h.attempt_rows a row.0).0 ∙ row.1, token)
      | inr (old, _) ↦ h.attempt_rows c old
    ];
  }
    where
      row : Memᴰ a attempts × (a.settlement_id ≡ b.settlement_id)
      row = lookup-mem attempt_id_of b.settlement_id attempts a found

      other : (i : ℕ) → attempt_for i attempts ≡ none → b.settlement_id ≢ i
      other i n p = cc (n, found, ap (λ j. attempt_for j attempts) p)

  -- A change of status of a settlement that has left RESERVED and does not return to it.
  pub move_on-IsSubmitted :
      (s : Settlement) (status : SettlementStatus)
      → Memᴰ s settlements
      → is_reserved s.status ≡ false
      → is_reserved status ≡ false
      → IsSubmitted (replace settlement_id_of (record s { status = status }) settlements) attempts
  move_on-IsSubmitted s status m was is = record {
    operations = λ t n. elim (cases n) [
      | inl p ↦ rw p (h.operations s m)
      | inr (old, _) ↦ h.operations t old
    ];
    unsubmitted = λ t n u. elim (cases n) [
      | inl p ↦ cc (u, is, ap (λ (x : Settlement). is_reserved x.status) p)
      | inr (old, _) ↦ h.unsubmitted t old u
    ];
    submitted = λ t n u. elim (cases n) [
      | inl p ↦ rw p (h.submitted s m was)
      | inr (old, _) ↦ h.submitted t old u
    ];
    orphans = λ i n.
        h.orphans i
          (lookup-replace-none settlement_id_of (record s { status = status }) settlements i n);
    attempt_ids = h.attempt_ids;
    attempt_rows = h.attempt_rows;
  }
    where
      cases :
          {t : Settlement}
          → Memᴰ t (replace settlement_id_of (record s { status = status }) settlements)
          → (t ≡ record s { status = status }) ⊎ (Memᴰ t settlements × (t.id ≢ s.id))
      cases n = mem-replace settlement_id_of (record s { status = status }) settlements n
