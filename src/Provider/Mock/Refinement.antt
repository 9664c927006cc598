-- ===== src/Provider/Mock/Refinement.antt =====
-- app/provider.py: the mock provider's table against its memory.
use netaro_settlement_router.Prelude.{
  List, All, ◌<◌, nat_eq, ℕ, ◌+◌, ◌-◌, ◌≡◌, ◌≢◌, refl, ap, ◌∙◌, subst, inl, inr, String, Option,
  none, some, [], ◌∷◌, ◌++◌, arith, Bool-cases, Option-cases, ◌==◌, ==_iff,
}
use netaro_settlement_router.Table.{lookup}
use netaro_settlement_router.Table.Updates.{lookup-insert_self, lookup-insert_ne}
use netaro_settlement_router.Database.{continue, lift, Error, Result, ok, err, ◌>>=◌}
use netaro_settlement_router.Provider.{ProviderResult}
use netaro_settlement_router.Provider.Mock.{
  submitted_result, stored_authority, authority_of, initiate_durably, initiate_in_memory,
  lookup_in_memory, Outcome, MockConfig, outcome_for_position, MockMemory, operation_of, remember,
  stored_outcome, MockProviderOperation, row_id_of, read_outcome, Operations, durable_outcome,
  lookup_durably,
}
use netaro_settlement_router.Provider.Mock.Stability.{row_for}
use netaro_settlement_router.Provider.Mock.Durable.{
  submit_all, ok-injective, some-injective, Result-cases, outcome-known, outcome-new,
  outcome-refused, read_authority,
}

-- What memory and table know of an operation.
abbrev memory_view : Option (ℕ × Outcome) → Option (Result Outcome)
memory_view none = none
memory_view (some (j, o)) = some (ok o)

abbrev table_view : Option MockProviderOperation → Option (Result Outcome)
table_view none = none
table_view (some row) = some (read_outcome row)

abbrev pub Agrees : MockMemory → Operations → Type 0
Agrees memory rows =
    (i : ℕ)
    → table_view (lookup row_id_of i rows) ≡ memory_view (lookup operation_of i memory.operations)

Agrees-remember :
    (memory : MockMemory) (rows : Operations) (i n : ℕ) (text : String) (o : Outcome)
    → Agrees memory rows
    → lookup operation_of i memory.operations ≡ none
    → lookup row_id_of i rows ≡ none
    → read_outcome (row_for i n text o) ≡ ok o
    → Agrees (remember i o memory) (rows ++ row_for i n text o ∷ [])
unfolding row_for
Agrees-remember memory rows i n text o h unknown absent reads j = elim (Bool-cases (i == j)) [
  | inl same ↦
      let p : i ≡ j = (==_iff i j).0 same in
      subst
        (λ k.
          table_view (lookup row_id_of k (rows ++ row_for i n text o ∷ []))
          ≡ memory_view (lookup operation_of k (memory.operations ++ (i, o) ∷ [])))
        p
        (rw (lookup-insert_self row_id_of (row_for i n text o) rows absent)
          (rw (lookup-insert_self operation_of (i, o) memory.operations unknown) (ap some reads)))
  | inr differs ↦
      let ne : i ≢ j = λ p. cc (differs, (==_iff i j).1 p) in
      rw (lookup-insert_ne row_id_of (row_for i n text o) rows j ne)
        (rw (lookup-insert_ne operation_of (i, o) memory.operations j ne) (h j))
]

-- The end of `initiate`, and a lookup, depend on the outcome only.
carried :
    (t : Result Outcome × Operations) (m : Result Outcome × MockMemory)
    → t.0 ≡ m.0
    → Agrees m.1 t.1
    → ((continue t (λ o. lift (submitted_result o))).0
        ≡ (continue m (λ o. lift (submitted_result o))).0)
      × Agrees
          (continue m (λ o. lift (submitted_result o))).1
          (continue t (λ o. lift (submitted_result o))).1
carried (ok o, rows) (ok p, memory) same h = (ap submitted_result (ok-injective same), h)
carried (err e, rows) (err f, memory) same h = (ap err (err-injective refl refl same), h)
  where
    err-injective : {r s : Result Outcome} {x y : Error} → r ≡ err x → s ≡ err y → r ≡ s → x ≡ y
    err-injective p q e = cc
carried (ok o, rows) (err f, memory) same h = cc
carried (err e, rows) (ok p, memory) same h = cc

looked :
    (r : Option MockProviderOperation) (m : Option (ℕ × Outcome))
    → table_view r ≡ memory_view m
    → stored_authority r ≡ ok (authority_of m)
looked none none h = refl
looked (some row) (some (j, o)) h = read_authority row o (some-injective h)
looked none (some (j, o)) h = cc
looked (some row) none h = cc

module _ (config : MockConfig) (i : ℕ) (memory : MockMemory) (rows : Operations) where
  abbrev next_ordinal : ℕ
  next_ordinal = memory.operation_count + 1

  -- The next states of the two, and the outcomes.
  abbrev Simulates : Result Outcome × Operations → Result Outcome × MockMemory → Type 0
  Simulates t m = (t.0 ≡ m.0) × Agrees m.1 t.1

  stored-known :
      (j : ℕ) (o : Outcome)
      → lookup operation_of i memory.operations ≡ some (j, o)
      → stored_outcome config i memory ≡ (ok o, memory)
  unfolding stored_outcome
  stored-known j o found = rw (found, stored_outcome)

  stored-new :
      (o : Outcome)
      → lookup operation_of i memory.operations ≡ none
      → outcome_for_position config memory.operation_count ≡ ok o
      → stored_outcome config i memory ≡ (ok o, remember i o memory)
  unfolding stored_outcome
  stored-new o unknown drawn = rw (unknown, stored_outcome) (rw drawn)

  stored-refused :
      (e : Error)
      → lookup operation_of i memory.operations ≡ none
      → outcome_for_position config memory.operation_count ≡ err e
      → stored_outcome config i memory ≡ (err e, memory)
  unfolding stored_outcome
  stored-refused e unknown refused = rw (unknown, stored_outcome) (rw refused)

  same_position : next_ordinal - 1 ≡ memory.operation_count
  same_position = omega arith

  table_absent :
      Agrees memory rows
      → lookup operation_of i memory.operations ≡ none
      → lookup row_id_of i rows ≡ none
  table_absent h unknown = absent (lookup row_id_of i rows) (h i ∙ ap memory_view unknown)
    where
      absent : (r : Option MockProviderOperation) → table_view r ≡ none → r ≡ none
      absent none p = refl
      absent (some row) p = cc

  table_known :
      (j : ℕ) (o : Outcome)
      → Agrees memory rows
      → lookup operation_of i memory.operations ≡ some (j, o)
      → (row : MockProviderOperation) × (lookup row_id_of i rows ≡ some row)
        × (read_outcome row ≡ ok o)
  table_known j o h found = known (lookup row_id_of i rows) (h i ∙ ap memory_view found)
    where
      known :
          (r : Option MockProviderOperation)
          → table_view r ≡ some (ok o)
          → (row : MockProviderOperation) × (r ≡ some row) × (read_outcome row ≡ ok o)
      known none p = cc
      known (some row) p = (row, refl, some-injective p)

  durable_outcome-Simulates :
      Agrees memory rows
      → Simulates (durable_outcome config i next_ordinal rows) (stored_outcome config i memory)
  durable_outcome-Simulates h = elim (Option-cases (lookup operation_of i memory.operations)) [
    | inr ((j, o), found) ↦
        let (row, there, reads) = table_known j o h found in
        rw (stored-known j o found)
          (rw (outcome-known config i next_ordinal rows row there) (reads, h))
    | inl unknown ↦
        let absent = table_absent h unknown in
        elim (Result-cases (outcome_for_position config memory.operation_count)) [
          | inl (e, refused) ↦ rw (stored-refused e unknown refused) (
              rw
                (outcome-refused config i next_ordinal rows e absent
                  (ap (outcome_for_position config) same_position ∙ refused))
                (refl, h))
          | inr (o, drawn) ↦
              let (text, runs, reads) =
                outcome-new config i next_ordinal rows o absent
                  (ap (outcome_for_position config) same_position ∙ drawn) in
              rw (stored-new o unknown drawn) (
                rw runs
                  (refl, Agrees-remember memory rows i next_ordinal text o h unknown absent reads))
        ]
  ]

  -- One submission, with the ordinal after the memory's counter.
  initiate_durably-simulates :
      Agrees memory rows
      → ((initiate_durably config i next_ordinal rows).0 ≡ (initiate_in_memory config i memory).0)
        × Agrees
            (initiate_in_memory config i memory).1
            (initiate_durably config i next_ordinal rows).1
  unfolding initiate_durably initiate_in_memory ◌>>=◌
  initiate_durably-simulates h =
      carried (durable_outcome config i next_ordinal rows) (stored_outcome config i memory)
        (durable_outcome-Simulates h).0 (durable_outcome-Simulates h).1

-- A memory whose counter stands where the sequence does.
abbrev pub at_ordinal : ℕ → MockMemory → MockMemory
at_ordinal n memory = record memory { operation_count = n - 1 }

abbrev pub submit_all_in_memory :
    MockConfig → List (ℕ × ℕ) → MockMemory → List (Result ProviderResult) × MockMemory
submit_all_in_memory config [] memory = ([], memory)
submit_all_in_memory config ((i, n) ∷ submissions) memory =
    let answer = initiate_in_memory config i (at_ordinal n memory) in
    let rest = submit_all_in_memory config submissions answer.1 in (answer.0 ∷ rest.0, rest.1)

submission-simulates :
    (config : MockConfig) (i n : ℕ) (memory : MockMemory) (rows : Operations)
    → 0 < n
    → Agrees memory rows
    → ((initiate_durably config i n rows).0 ≡ (initiate_in_memory config i (at_ordinal n memory)).0)
      × Agrees
          (initiate_in_memory config i (at_ordinal n memory)).1
          (initiate_durably config i n rows).1
submission-simulates config i n memory rows positive h =
    subst
      (λ m.
        ((initiate_durably config i m rows).0
          ≡ (initiate_in_memory config i (at_ordinal n memory)).0)
        × Agrees (initiate_in_memory config i (at_ordinal n memory)).1
            (initiate_durably config i m rows).1)
      (counted positive) (initiate_durably-simulates config i (at_ordinal n memory) rows h)
  where
    counted : 0 < n → n - 1 + 1 ≡ n
    counted p = omega (arith, p)

-- Whatever operations are submitted, repeated ones included, and whatever positive ordinals the
-- sequence gives, gaps included, the table answers every `initiate` as the memory does whose counter
-- is set to one less than the ordinal, if the two agreed before; they agree afterwards, and `lookup`
-- of any operation then answers alike.
pub submit_all-refines :
    (config : MockConfig) (submissions : List (ℕ × ℕ)) (memory : MockMemory) (rows : Operations)
    (j : ℕ)
    → All (λ (i, n). 0 < n) submissions
    → Agrees memory rows
    → ((submit_all config submissions rows).0 ≡ (submit_all_in_memory config submissions memory).0)
      × Agrees
          (submit_all_in_memory config submissions memory).1
          (submit_all config submissions rows).1
      × ((lookup_durably j (submit_all config submissions rows).1).0
          ≡ (lookup_in_memory j (submit_all_in_memory config submissions memory).1).0)
unfolding lookup_durably lookup_in_memory
submit_all-refines config [] memory rows j p h =
    (refl, h, looked (lookup row_id_of j rows) (lookup operation_of j memory.operations) (h j))
submit_all-refines config ((i, n) ∷ submissions) memory rows j p h =
    let (same, after) = submission-simulates config i n memory rows p.0 h in
    let (rest, agree, found) =
      submit_all-refines config submissions (initiate_in_memory config i (at_ordinal n memory)).1
        (initiate_durably config i n rows).1 j p.1 after in
    (consed same rest, agree, found)
  where
    consed :
        {a b : Result ProviderResult} {xs ys : List (Result ProviderResult)}
        → a ≡ b
        → xs ≡ ys
        → a ∷ xs ≡ b ∷ ys
    consed p q = cc
