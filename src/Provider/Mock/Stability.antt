-- ===== src/Provider/Mock/Stability.antt =====
-- app/provider.py: the block of `_durable_outcome`, and the texts that its row is written and read
-- as.
use netaro_settlement_router.Prelude.{
  String, ltb, ◌%◌, nat_eq, ℕ, ◌-◌, ◌≡◌, refl, subst, inl, inr, true, false, Option, none, some,
  List, [], ◌∷◌, ◌++◌, arith, Bool-cases, exists, ◌==◌,
}
use netaro_settlement_router.Table.{lookup}
use netaro_settlement_router.Table.Updates.{replace-insert, lookup-insert_self}
use netaro_settlement_router.Database.{Error, ok, err, ◌>>=◌}
use netaro_settlement_router.Provider.{
  ProviderResult, ProviderLookup, lookup_value, result_value, ambiguous, unknown, not_found,
  processing, unavailable,
}
use netaro_settlement_router.Provider.Mock.{
  Outcome, MockConfig, outcome_for_position, MockProviderOperation, row_id_of, submission_value,
  read_outcome, Operations, allocated, allocate, decide, durable_block, submission_of, parse_lookup,
  unloaded_outcome, load_outcome, cycled_outcome, scripted_outcome,
}

-- An outcome in time has a submission, and a timeout has none.
abbrev pub text_of : Outcome → Option String
text_of (none, authority, true) = some "TIMEOUT"
text_of (some result, authority, false) = some (result_value result)
text_of _ = none

ok-injective : {x y : Outcome} → ok x ≡ ok y → x ≡ y
ok-injective p = cc

abbrev pub IsComplete : Outcome → Type 0
IsComplete o = (text : String) × (text_of o ≡ some text)

cycled_outcome-IsComplete : (position : ℕ) → IsComplete (cycled_outcome position)
cycled_outcome-IsComplete position = elim (Bool-cases (ltb position 14)) [
  | inl paid ↦ rw paid ("PAID", refl)
  | inr later ↦ rw later (elim (Bool-cases (ltb position 17)) [
    | inl unclear ↦ rw unclear ("AMBIGUOUS_503", refl)
    | inr late ↦ rw late ("TIMEOUT", refl)
  ])
]

scripted_outcome-IsComplete : (t o : ProviderLookup) → IsComplete (scripted_outcome t o)
scripted_outcome-IsComplete t unknown = ("TIMEOUT", refl)
scripted_outcome-IsComplete t ProviderLookup.paid = ("PAID", refl)
scripted_outcome-IsComplete t _ = ("UNPAID", refl)

unloaded_outcome-IsComplete :
    (outcomes : List ProviderLookup) (t : ProviderLookup) (position : ℕ)
    → IsComplete (unloaded_outcome outcomes t position)
unloaded_outcome-IsComplete [] t position = cycled_outcome-IsComplete (position % 20)
unloaded_outcome-IsComplete (o ∷ rest) t position = scripted_outcome-IsComplete t _

load_outcome-IsComplete : (position : ℕ) (o : Outcome) → load_outcome position ≡ ok o → IsComplete o
load_outcome-IsComplete position o h = elim (Bool-cases (ltb position 700)) [
  | inl paid ↦ subst IsComplete (ok-injective (rw paid at h)) ("PAID", refl)
  | inr later ↦ elim (Bool-cases (ltb position 850)) [
    | inl unclear ↦
        subst IsComplete (ok-injective (rw unclear at (rw later at h))) ("AMBIGUOUS_503", refl)
    | inr late ↦ elim (Bool-cases (ltb position 1000)) [
      | inl slow ↦
          subst IsComplete (ok-injective (rw slow at (rw late at (rw later at h))))
            ("TIMEOUT", refl)
      | inr over ↦ cc (rw over at (rw late at (rw later at h)))
    ]
  ]
]

pub outcome_for_position-IsComplete :
    (config : MockConfig) (position : ℕ) (o : Outcome)
    → outcome_for_position config position ≡ ok o
    → IsComplete o
unfolding outcome_for_position
outcome_for_position-IsComplete config position o h = elim (Bool-cases config.load_mode) [
  | inl load ↦ load_outcome-IsComplete position o (rw load at h)
  | inr usual ↦
      subst IsComplete (ok-injective (rw usual at h))
        (unloaded_outcome-IsComplete config.outcomes config.timeout_lookup position)
]

-- The row of a decided operation.
unfoldable pub row_for : ℕ → ℕ → String → Outcome → MockProviderOperation
row_for i ordinal text o = record (allocated i ordinal) {
  submission_outcome = text;
  authoritative_outcome = lookup_value o.1;
}

authority_text : (a : ProviderLookup) → parse_lookup (lookup_value a) ≡ ok a
authority_text ProviderLookup.paid = refl
authority_text ProviderLookup.unpaid = refl
authority_text unknown = refl
authority_text not_found = refl
authority_text processing = refl
authority_text unavailable = refl

result_text :
    (r : ProviderResult) (a : ProviderLookup)
    → submission_of (result_value r) a ≡ ok (some r, a, false)
result_text ProviderResult.paid a = refl
result_text ProviderResult.unpaid a = refl
result_text ambiguous a = refl

submission_text :
    (text : String) (o : Outcome) → text_of o ≡ some text → submission_of text o.1 ≡ ok o
submission_text text (none, a, true) h =
    subst (λ (t : String). submission_of t a ≡ ok (none, a, true)) (some-injective h) refl
  where
    some-injective : {x y : String} → some x ≡ some y → x ≡ y
    some-injective p = cc
submission_text text (some r, a, false) h =
    subst (λ (t : String). submission_of t a ≡ ok (some r, a, false)) (some-injective h)
      (result_text r a)
  where
    some-injective : {x y : String} → some x ≡ some y → x ≡ y
    some-injective p = cc
submission_text text (none, a, false) h = cc
submission_text text (some r, a, true) h = cc

-- Reading back what was written.
pub read_outcome-row_for :
    (i ordinal : ℕ) (text : String) (o : Outcome)
    → text_of o ≡ some text
    → read_outcome (row_for i ordinal text o) ≡ ok o
unfolding read_outcome row_for
read_outcome-row_for i ordinal text o h =
    rw (authority_text o.1, read_outcome) (submission_text text o h)

no_row :
    (i : ℕ) (rows : Operations)
    → lookup row_id_of i rows ≡ none
    → exists (λ row. row.operation_id == i) rows ≡ false
no_row i [] h = refl
no_row i (r ∷ rows) h = ground (arith, no_row i rows)

some_row :
    (i : ℕ) (rows : Operations) (row : MockProviderOperation)
    → lookup row_id_of i rows ≡ some row
    → exists (λ r. r.operation_id == i) rows ≡ true
some_row i [] row h = cc
some_row i (r ∷ rows) row h = ground (arith, some_row i rows row)

module _ (config : MockConfig) (i n : ℕ) (rows : Operations) where
  pub durable_block-known :
      (row : MockProviderOperation)
      → lookup row_id_of i rows ≡ some row
      → durable_block config i n rows ≡ (read_outcome row, rows)
  unfolding durable_block allocate decide ◌>>=◌
  durable_block-known row found = rw (some_row i rows row found) (rw found)

  pub durable_block-new :
      (o : Outcome)
      → lookup row_id_of i rows ≡ none
      → outcome_for_position config (n - 1) ≡ ok o
      → (text : String) → text_of o ≡ some text
      → durable_block config i n rows ≡ (ok o, rows ++ row_for i n text o ∷ [])
  unfolding durable_block allocate decide ◌>>=◌ row_for
  durable_block-new o absent drawn text said = rw (no_row i rows absent) (
      rw drawn (
        rw (written o text said) (
          rw
            (replace-insert row_id_of (row_for i n text o) (allocated i n) rows refl
              (no_row i rows absent))
            (rw (lookup-insert_self row_id_of (row_for i n text o) rows absent)
              (rw (read_outcome-row_for i n text o said))))))
    where
      written : (o : Outcome) (text : String) → text_of o ≡ some text → submission_value o ≡ ok text
      written o text h = ground arith

  pub durable_block-refused :
      (e : Error)
      → lookup row_id_of i rows ≡ none
      → outcome_for_position config (n - 1) ≡ err e
      → (durable_block config i n rows).0 ≡ err e
  unfolding durable_block allocate decide ◌>>=◌
  durable_block-refused e absent refused = rw (no_row i rows absent) (rw refused)
