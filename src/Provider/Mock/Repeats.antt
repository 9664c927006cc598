-- ===== src/Provider/Mock/Repeats.antt =====
-- app/provider.py: a repeated submission, and a lookup, of an operation that the table has.
use netaro_settlement_router.Prelude.{
  List, [], ◌∷◌, ◌≢◌, subst, nat_eq, ℕ, ◌-◌, ◌≡◌, sym, ap, ◌∙◌, inl, inr, some, Option-cases,
}
use netaro_settlement_router.Table.{lookup}
use netaro_settlement_router.Table.Updates.{lookup-insert_self, lookup-insert_ne}
use netaro_settlement_router.Database.{Error, Result, ok, err}
use netaro_settlement_router.Provider.Mock.{
  Outcome, MockConfig, outcome_for_position, MockProviderOperation, row_id_of, read_outcome,
  Operations, initiate_durably, durable_outcome, lookup_durably,
}
use netaro_settlement_router.Provider.Mock.Stability.{row_for}
use netaro_settlement_router.Provider.Mock.Durable.{
  submit_all, initiate_durably-rows, Result-cases, outcome-known, outcome-new, outcome-refused,
  read_authority,
}

-- The row that a successful submission has left.
abbrev HasRow : ℕ → Operations → Outcome → Type 0
HasRow i rows o =
    (row : MockProviderOperation) × (lookup row_id_of i rows ≡ some row) × (read_outcome row ≡ ok o)

module _ (config : MockConfig) (i n : ℕ) (rows : Operations) (o : Outcome) (rows' : Operations)
    (h : durable_outcome config i n rows ≡ (ok o, rows')) where
  answered :
      {r : Result Outcome} {after : Operations}
      → durable_outcome config i n rows ≡ (r, after)
      → (r ≡ ok o) × (after ≡ rows')
  answered e =
      let same = sym e ∙ h in
      (
        ap (λ (q : Result Outcome × Operations). q.0) same,
        ap (λ (q : Result Outcome × Operations). q.1) same,
      )

  submitted_row : HasRow i rows' o
  unfolding row_for
  submitted_row = elim (Option-cases (lookup row_id_of i rows)) [
    | inr (row, found) ↦
        let (reads, same) = answered (outcome-known config i n rows row found) in
        (row, ap (lookup row_id_of i) (sym same) ∙ found, reads)
    | inl absent ↦ elim (Result-cases (outcome_for_position config (n - 1))) [
      | inl (e, refused) ↦
          absurd (differ (answered (outcome-refused config i n rows e absent refused)).0)
      | inr (p, drawn) ↦
          let (text, runs, reads) = outcome-new config i n rows p absent drawn in
          let (same_outcome, same) = answered runs in
          (
            row_for i n text p,
            ap (lookup row_id_of i) (sym same)
                ∙ lookup-insert_self row_id_of (row_for i n text p) rows absent,
            reads ∙ same_outcome,
          )
    ]
  ]
    where
      differ : {e : Error} → err e ≡ ok o → ⊥
      differ p = cc

-- Another submission, of this operation or of another one, leaves the row.
module _ (config : MockConfig) (i : ℕ) (o : Outcome) where
  durable_outcome-HasRow :
      (j m : ℕ) (rows : Operations)
      → HasRow i rows o
      → HasRow i (durable_outcome config j m rows).1 o
  unfolding row_for
  durable_outcome-HasRow j m rows (row, found, reads) =
      elim (Option-cases (lookup row_id_of j rows)) [
        | inr (other, there) ↦ rw (outcome-known config j m rows other there) (row, found, reads)
        | inl absent ↦ elim (Result-cases (outcome_for_position config (m - 1))) [
          | inl (e, refused) ↦
              rw (outcome-refused config j m rows e absent refused) (row, found, reads)
          | inr (p, drawn) ↦
              let (text, runs, _) = outcome-new config j m rows p absent drawn in
              let other : j ≢ i =
                λ same. cc (sym absent ∙ ap (λ k. lookup row_id_of k rows) same ∙ found) in
              rw runs
                (row, lookup-insert_ne row_id_of (row_for j m text p) rows i other ∙ found, reads)
        ]
      ]

  submit_all-HasRow :
      (submissions : List (ℕ × ℕ)) (rows : Operations)
      → HasRow i rows o
      → HasRow i (submit_all config submissions rows).1 o
  submit_all-HasRow [] rows h = h
  submit_all-HasRow ((j, m) ∷ submissions) rows h =
      submit_all-HasRow submissions (initiate_durably config j m rows).1 (
        subst (λ r. HasRow i r o) (sym (initiate_durably-rows config j m rows))
          (durable_outcome-HasRow j m rows h))

-- An operation has one outcome: once `_durable_outcome` has returned it, then after any submissions
-- of this and of other operations another submission of it returns it again and changes nothing,
-- whatever ordinals the sequence gives, and `lookup` answers with its authority.
pub durable_outcome-stable :
    (config : MockConfig) (i n m : ℕ) (rows : Operations) (o : Outcome) (rows' : Operations)
    (submissions : List (ℕ × ℕ))
    → durable_outcome config i n rows ≡ (ok o, rows')
    → (durable_outcome config i m (submit_all config submissions rows').1
        ≡ (ok o, (submit_all config submissions rows').1))
      × (lookup_durably i (submit_all config submissions rows').1
          ≡ (ok o.1, (submit_all config submissions rows').1))
unfolding lookup_durably
durable_outcome-stable config i n m rows o rows' submissions h =
    let later = (submit_all config submissions rows').1 in
    let (row, found, reads) =
      submit_all-HasRow config i o submissions rows' (submitted_row config i n rows o rows' h) in
    (
      outcome-known config i m later row found ∙ ap (λ (r : Result Outcome). (r, later)) reads,
      rw found (rw (read_authority row o reads)),
    )
