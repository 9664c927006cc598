-- ===== src/Service/Recording.antt =====
-- app/service.py: the journals of a settlement, against its status.
use mathlib.Core.List.Memᴰ
use netaro_settlement_router.Prelude.{
  nat_eq, ℕ, ◌≡◌, ◌≢◌, refl, sym, ap, ◌∙◌, inl, inr, Bool, true, false, ◌==◌, Option, none, some,
  List, [], ◌∷◌, ◌++◌, Memᴰ, arith, ==_iff, if◌then◌else◌, exists,
}
use netaro_settlement_router.Table.{lookup, replace, lookup_none}
use netaro_settlement_router.Table.Updates.{
  mem-replace, lookup-replace-none, lookup-insert_none, replace-insert,
}
use netaro_settlement_router.Models.{
  Settlement, SettlementStatus, success, failed, JournalEvent, JournalTransaction, settlement_id_of,
  journal_id_of, is_open, same_event,
}
use netaro_settlement_router.Ledger.{same_settlement_event}
use netaro_settlement_router.Ledger.Movement.{journal_of}

abbrev pub concerns : ℕ → Option ℕ → Bool
concerns i none = false
concerns i (some j) = i == j

-- The events of the journals of settlement i, in the order of the table.
unfoldable pub events : ℕ → List JournalTransaction → List JournalEvent
events i [] = []
events i (j ∷ journals) =
    let rest = events i journals in if concerns i j.settlement_id then j.event ∷ rest else rest

abbrev pub lifecycle : SettlementStatus → List JournalEvent
lifecycle success = JournalEvent.reserve ∷ JournalEvent.consume ∷ []
lifecycle failed = JournalEvent.reserve ∷ JournalEvent.release ∷ []
lifecycle _ = JournalEvent.reserve ∷ []

pub record IsRecorded (settlements : List Settlement) (journals : List JournalTransaction)
    : Type 0 where
  pub recorded : (s : Settlement) → Memᴰ s settlements → events s.id journals ≡ lifecycle s.status
  pub unrecorded : (i : ℕ) → lookup settlement_id_of i settlements ≡ none → events i journals ≡ []

events-insert_self :
    (s : Settlement) (event : JournalEvent) (jid : ℕ) (journals : List JournalTransaction)
    → events s.id (journals ++ journal_of s event jid ∷ []) ≡ events s.id journals ++ event ∷ []
unfolding events
events-insert_self s event jid [] = rw ((==_iff s.id s.id).1 refl)
events-insert_self s event jid (j ∷ journals) =
    ground (arith, events-insert_self s event jid journals)

events-insert_other :
    (s : Settlement) (event : JournalEvent) (jid i : ℕ) (journals : List JournalTransaction)
    → s.id ≢ i
    → events i (journals ++ journal_of s event jid ∷ []) ≡ events i journals
unfolding events
events-insert_other s event jid i [] h = ground arith
events-insert_other s event jid i (j ∷ journals) h =
    ground (arith, events-insert_other s event jid i journals h)

-- A settlement whose journals lack an event is one that the unique index lets post it.
pub first_event_of :
    (s : Settlement) (event : JournalEvent) (jid : ℕ) (journals : List JournalTransaction)
    → exists (same_event event) (events s.id journals) ≡ false
    → exists (same_settlement_event (journal_of s event jid)) journals ≡ false
unfolding events
first_event_of s event jid [] h = refl
first_event_of s event jid (j ∷ journals) h = ground (arith, first_event_of s event jid journals)

-- The journals after a movement.
abbrev pub with_journal :
    Settlement → JournalEvent → ℕ → List JournalTransaction → List JournalTransaction
with_journal s event jid journals =
    replace journal_id_of (journal_of s event jid)
      (journals ++ record (journal_of s event jid) { is_posted = false } ∷ [])

module _ (s : Settlement) (event : JournalEvent) (jid : ℕ) (journals : List JournalTransaction)
    (fresh : exists (λ k. k.id == jid) journals ≡ false) where
  with_journal-eq : with_journal s event jid journals ≡ journals ++ journal_of s event jid ∷ []
  with_journal-eq =
      replace-insert journal_id_of (journal_of s event jid)
        (record (journal_of s event jid) { is_posted = false }) journals refl fresh

  events-with_journal_self :
      events s.id (with_journal s event jid journals) ≡ events s.id journals ++ event ∷ []
  events-with_journal_self =
      ap (events s.id) with_journal-eq ∙ events-insert_self s event jid journals

  events-with_journal_other :
      (i : ℕ) → s.id ≢ i → events i (with_journal s event jid journals) ≡ events i journals
  events-with_journal_other i h =
      ap (events i) with_journal-eq ∙ events-insert_other s event jid i journals h

  pub reserve-IsRecorded :
      {settlements : List Settlement}
      → IsRecorded settlements journals
      → lookup settlement_id_of s.id settlements ≡ none
      → event ≡ JournalEvent.reserve
      → is_open s.status ≡ true
      → IsRecorded (settlements ++ s ∷ []) (with_journal s event jid journals)
  reserve-IsRecorded {settlements} r new is_reserve was = record {
    recorded = λ t m. elim (Memᴰ.append_cases settlements m) [
      | inl old ↦
          events-with_journal_other t.id
            (λ p. lookup_none settlement_id_of s.id settlements new t old (sym p))
          ∙ r.recorded t old
      | inr last ↦ rw (Memᴰ.eq_of_singleton last) (
          events-with_journal_self
          ∙ rw (r.unrecorded s.id new) (rw is_reserve (opened s.status was)))
    ];
    unrecorded = λ i h.
        let (old, ne) = lookup-insert_none settlement_id_of s settlements i h in
        events-with_journal_other i ne ∙ r.unrecorded i old;
  }
    where
      opened :
          (st : SettlementStatus) → is_open st ≡ true → (JournalEvent.reserve ∷ []) ≡ lifecycle st
      opened st h = ground arith

  -- The journal of a result, with the new status.
  pub settle-IsRecorded :
      {settlements : List Settlement}
      → IsRecorded settlements journals
      → Memᴰ s settlements
      → (status : SettlementStatus) → (lifecycle s.status ++ event ∷ []) ≡ lifecycle status
      → IsRecorded
          (replace settlement_id_of (record s { status = status }) settlements)
          (with_journal s event jid journals)
  settle-IsRecorded {settlements} r m status next = record {
    recorded = λ t n.
        elim (mem-replace settlement_id_of (record s { status = status }) settlements n) [
          | inl p ↦ rw p (events-with_journal_self ∙ rw (r.recorded s m) next)
          | inr (old, ne) ↦ events-with_journal_other t.id (λ p. ne (sym p)) ∙ r.recorded t old
        ];
    unrecorded = λ i h.
        let old =
          lookup-replace-none settlement_id_of (record s { status = status }) settlements i h in
        events-with_journal_other i (lookup_none settlement_id_of i settlements old s m)
        ∙ r.unrecorded i old;
  }

-- A change of status between open ones posts nothing.
pub move_on-IsRecorded :
    (s : Settlement) {settlements : List Settlement} {journals : List JournalTransaction}
    → IsRecorded settlements journals
    → Memᴰ s settlements
    → (status : SettlementStatus) → is_open s.status ≡ true
    → is_open status ≡ true
    → IsRecorded (replace settlement_id_of (record s { status = status }) settlements) journals
move_on-IsRecorded s {settlements} r m status was is = record {
  recorded = λ t n.
      elim (mem-replace settlement_id_of (record s { status = status }) settlements n) [
        | inl p ↦ rw p (r.recorded s m ∙ both_open s.status status was is)
        | inr (old, ne) ↦ r.recorded t old
      ];
  unrecorded = λ i h.
      r.unrecorded i
        (lookup-replace-none settlement_id_of (record s { status = status }) settlements i h);
}
  where
    both_open :
        (a b : SettlementStatus) → is_open a ≡ true → is_open b ≡ true → lifecycle a ≡ lifecycle b
    both_open a b p q = ground arith
