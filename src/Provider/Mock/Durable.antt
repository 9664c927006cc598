-- ===== src/Provider/Mock/Durable.antt =====
-- app/provider.py: `_durable_outcome`, by what the table has of the operation.
use netaro_settlement_router.Prelude.{
  List, nat_eq, ℕ, ◌-◌, str_eq, ◌⊎◌, ◌≡◌, refl, ap, inl, inr, String, false, none, some, [], ◌∷◌,
  ◌++◌, Bool-cases,
}
use netaro_settlement_router.Table.{lookup}
use netaro_settlement_router.Database.{Error, Result, ok, err, transaction, continue, lift, ◌>>=◌}
use netaro_settlement_router.Provider.{ProviderResult, ProviderLookup}
use netaro_settlement_router.Provider.Mock.{
  initiate_durably, submitted_result, Outcome, MockConfig, outcome_for_position,
  MockProviderOperation, row_id_of, read_outcome, submission_of, Operations, durable_block,
  durable_outcome, parse_lookup, parse_result,
}
use netaro_settlement_router.Provider.Mock.Stability.{
  row_for, read_outcome-row_for, outcome_for_position-IsComplete, durable_block-known,
  durable_block-new, durable_block-refused,
}

pub ok-injective : {x y : Outcome} → ok x ≡ ok y → x ≡ y
ok-injective p = cc

pub some-injective : {x y : Result Outcome} → some x ≡ some y → x ≡ y
some-injective p = cc

pub Result-cases : (r : Result Outcome) → ((e : Error) × (r ≡ err e)) ⊎ ((o : Outcome) × (r ≡ ok o))
Result-cases (err e) = inl (e, refl)
Result-cases (ok o) = inr (o, refl)

-- The transaction around the block.
module _ (config : MockConfig) (i n : ℕ) (rows : Operations) where
  pub outcome-known :
      (row : MockProviderOperation)
      → lookup row_id_of i rows ≡ some row
      → durable_outcome config i n rows ≡ (read_outcome row, rows)
  unfolding durable_outcome
  outcome-known row found =
      rw (durable_block-known config i n rows row found) (settled (read_outcome row))
    where
      settled : (r : Result Outcome) → transaction (λ (q : Operations). (r, rows)) rows ≡ (r, rows)
      settled (ok o) = refl
      settled (err e) = refl

  pub outcome-new :
      (o : Outcome)
      → lookup row_id_of i rows ≡ none
      → outcome_for_position config (n - 1) ≡ ok o
      → (text : String) × (durable_outcome config i n rows
          ≡ (ok o, rows ++ row_for i n text o ∷ []))
        × (read_outcome (row_for i n text o) ≡ ok o)
  unfolding durable_outcome
  outcome-new o absent drawn =
      let (text, said) = outcome_for_position-IsComplete config (n - 1) o drawn in
      (
        text,
        rw (durable_block-new config i n rows o absent drawn text said),
        read_outcome-row_for i n text o said,
      )

  pub outcome-refused :
      (e : Error)
      → lookup row_id_of i rows ≡ none
      → outcome_for_position config (n - 1) ≡ err e
      → durable_outcome config i n rows ≡ (err e, rows)
  unfolding durable_outcome
  outcome-refused e absent refused =
      rolled_back (durable_block config i n rows)
        (durable_block-refused config i n rows e absent refused)
    where
      rolled_back :
          (r : Result Outcome × Operations)
          → r.0 ≡ err e
          → transaction (λ (q : Operations). r) rows ≡ (err e, rows)
      rolled_back (ok o, after) h = cc
      rolled_back (err x, after) h = ap (λ (y : Result Outcome). (y, rows)) h

-- Submissions one after the other, each with the ordinal that the sequence gives: their answers, and
-- the table afterwards.
abbrev pub submit_all :
    MockConfig → List (ℕ × ℕ) → Operations → List (Result ProviderResult) × Operations
submit_all config [] rows = ([], rows)
submit_all config ((i, n) ∷ submissions) rows =
    let rest = submit_all config submissions (initiate_durably config i n rows).1 in
    ((initiate_durably config i n rows).0 ∷ rest.0, rest.1)

-- `initiate` writes what `_durable_outcome` does.
pub initiate_durably-rows :
    (config : MockConfig) (i n : ℕ) (rows : Operations)
    → (initiate_durably config i n rows).1 ≡ (durable_outcome config i n rows).1
unfolding initiate_durably ◌>>=◌
initiate_durably-rows config i n rows = settled (durable_outcome config i n rows)
  where
    settled :
        (t : Result Outcome × Operations)
        → (continue t (λ (o : Outcome). lift (submitted_result o))).1 ≡ t.1
    settled (ok o, after) = refl
    settled (err e, after) = refl

submission_of-authority :
    (r : Result ProviderResult) (a : ProviderLookup) (o : Outcome)
    → elim r [ err e ↦ err e | ok result ↦ ok (some result, a, false) ] ≡ ok o
    → a ≡ o.1
submission_of-authority (err e) a o h = cc
submission_of-authority (ok result) a o h = cc (ap (λ (x : Outcome). x.1) (ok-injective h))

parsed_authority :
    (p : Result ProviderLookup) (text : String) (o : Outcome)
    → elim p [ err e ↦ err e | ok a ↦ submission_of text a ] ≡ ok o
    → p ≡ ok o.1
parsed_authority (err e) text o h = cc
parsed_authority (ok a) text o h = elim (Bool-cases (str_eq text "TIMEOUT")) [
  | inl late ↦ ap ok (ap (λ (x : Outcome). x.1) (ok-injective (rw late at h)))
  | inr in_time ↦ ap ok (submission_of-authority (parse_result text) a o (rw in_time at h))
]

pub read_authority :
    (row : MockProviderOperation) (o : Outcome)
    → read_outcome row ≡ ok o
    → parse_lookup row.authoritative_outcome ≡ ok o.1
unfolding read_outcome
read_authority row o h =
    parsed_authority (parse_lookup row.authoritative_outcome) row.submission_outcome o h
