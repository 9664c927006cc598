-- ===== src/Table/Sums.antt =====
-- Sums over the rows of a table, and how an UPDATE or an INSERT changes them.
use netaro_settlement_router.Prelude.{
  ◌≡◌, refl, sym, ap, ◌∙◌, inl, inr, true, List, [], ◌∷◌, ◌++◌, Memᴰ, arith, Eq, Bool-cases, ◌≢◌,
}
use netaro_settlement_router.Prelude.Int.{ℤ, pos, ◌+ℤ◌, ◌≤ℤ◌, int_laws, parts_of_eq, eq_of_parts}
use netaro_settlement_router.Table.{replace, Distinct}

module _ {ℓ} {A : Type ℓ} (w : A → ℤ) where
  abbrev pub sum_by : List A → ℤ
  sum_by [] = pos 0
  sum_by (r ∷ rs) = w r +ℤ sum_by rs

  pub sum_by-insert : (new : A) (rs : List A) → sum_by (rs ++ new ∷ []) ≡ sum_by rs +ℤ w new
  sum_by-insert new [] = omega int_laws
  sum_by-insert new (r ∷ rs) = omega (int_laws, parts_of_eq (sum_by-insert new rs))

  pub sum_by_nonneg : (rs : List A) → ((a : A) → Memᴰ a rs → pos 0 ≤ℤ w a) → pos 0 ≤ℤ sum_by rs
  sum_by_nonneg [] h = omega arith
  sum_by_nonneg (r ∷ rs) h =
      omega (int_laws, h r (Memᴰ.head refl), sum_by_nonneg rs (λ a m. h a (Memᴰ.tail m)))

  -- Where no summand is negative, one row's is at most the sum.
  pub le-sum_by :
      (rs : List A) (a : A) → ((q : A) → Memᴰ q rs → pos 0 ≤ℤ w q) → Memᴰ a rs → w a ≤ℤ sum_by rs
  le-sum_by [] a h m = elim m [ ]
  le-sum_by (r ∷ rs) a h (Memᴰ.head p) =
      rw (ap w p) (omega (int_laws, sum_by_nonneg rs (λ q m. h q (Memᴰ.tail m))))
  le-sum_by (r ∷ rs) a h (Memᴰ.tail m) =
      omega (int_laws, h r (Memᴰ.head refl), le-sum_by rs a (λ q n. h q (Memᴰ.tail n)) m)

  sum_by_zero : (rs : List A) → ((q : A) → Memᴰ q rs → w q ≡ pos 0) → sum_by rs ≡ pos 0
  sum_by_zero [] h = refl
  sum_by_zero (r ∷ rs) h =
      rw (h r (Memᴰ.head refl)) (rw (sum_by_zero rs (λ q m. h q (Memᴰ.tail m))) (omega int_laws))

  module _ {κ} {K : Type κ} ⦃e : Eq K⦄ (key : A → K) where
    sum_by-replace_fresh :
        (new : A) (rs : List A)
        → ((q : A) → Memᴰ q rs → key q ≢ key new)
        → sum_by (replace key new rs) ≡ sum_by rs
    sum_by-replace_fresh new [] h = refl
    sum_by-replace_fresh new (r ∷ rs) h = elim (Bool-cases (e.beq (key r) (key new))) [
      | inl same ↦ absurd (h r (Memᴰ.head refl) ((e.beq_iff _ _).0 same))
      | inr differs ↦ rw differs (rw (sum_by-replace_fresh new rs (λ q m. h q (Memᴰ.tail m))))
    ]

    -- An UPDATE of one row changes the sum by the change of that row.
    pub sum_by-replace :
        (new : A) (rs : List A) {old : A}
        → Distinct key rs
        → Memᴰ old rs
        → key old ≡ key new
        → sum_by (replace key new rs) +ℤ w old ≡ sum_by rs +ℤ w new
    sum_by-replace new [] d m h = elim m [ ]
    sum_by-replace new (r ∷ rs) {old} d (Memᴰ.head p) h =
        let here : key r ≡ key new = ap key (sym p) ∙ h in
        let same : e.beq (key r) (key new) ≡ true = (e.beq_iff _ _).1 here in
        let rest = sum_by-replace_fresh new rs (λ q m t. d.0 q m (t ∙ sym here)) in
        rw (same, rest, ap w p) (omega int_laws)
    sum_by-replace new (r ∷ rs) {old} d (Memᴰ.tail m) h =
        elim (Bool-cases (e.beq (key r) (key new))) [
          | inl same ↦ absurd (d.0 old m (h ∙ sym ((e.beq_iff _ _).0 same)))
          | inr differs ↦ rw differs (omega (int_laws, parts_of_eq (sum_by-replace new rs d.1 m h)))
        ]

    -- Where all other rows count nothing, the sum is one row's.
    pub sum_by_single :
        (rs : List A) {a : A}
        → Distinct key rs
        → ((q : A) → Memᴰ q rs → key q ≢ key a → w q ≡ pos 0)
        → Memᴰ a rs
        → sum_by rs ≡ w a
    sum_by_single [] d h m = elim m [ ]
    sum_by_single (r ∷ rs) {a} d h (Memᴰ.head p) =
        let rest : sum_by rs ≡ pos 0 =
          sum_by_zero rs (λ q n. h q (Memᴰ.tail n) (λ t. d.0 q n (t ∙ ap key p))) in
        rw (rest, ap w p) (omega int_laws)
    sum_by_single (r ∷ rs) {a} d h (Memᴰ.tail m) =
        let here : w r ≡ pos 0 = h r (Memᴰ.head refl) (λ t. d.0 a m (sym t)) in
        rw (here, sum_by_single rs d.1 (λ q n. h q (Memᴰ.tail n)) m) (omega int_laws)

-- The sum of a sum of weights.
pub sum_by_add {ℓ} :
    {A : Type ℓ} (v w : A → ℤ) (rs : List A)
    → sum_by (λ a. v a +ℤ w a) rs ≡ sum_by v rs +ℤ sum_by w rs
sum_by_add v w [] = omega int_laws
sum_by_add v w (r ∷ rs) = eq_of_parts _ _ (omega (int_laws, parts_of_eq (sum_by_add v w rs)))
