-- ===== src/Table/Updates.antt =====
-- What an UPDATE and an INSERT do to membership, to keys and to lookups.
use mathlib.Core.List.Memᴰ
use netaro_settlement_router.Prelude.{
  ◌≡◌, ◌≢◌, refl, sym, ap, ◌∙◌, ◌⊎◌, inl, inr, true, false, exists, none, some, List, [], ◌∷◌, ◌++◌,
  Memᴰ, arith, Eq, Bool-cases,
}
use netaro_settlement_router.Table.{lookup, replace, Distinct}

module _ {ℓ κ} {A : Type ℓ} {K : Type κ} ⦃e : Eq K⦄ (key : A → K) where
  pub mem-replace :
      (new : A) (rs : List A) {a : A}
      → Memᴰ a (replace key new rs)
      → (a ≡ new) ⊎ (Memᴰ a rs × (key a ≢ key new))
  mem-replace new [] m = elim m [ ]
  mem-replace new (r ∷ rs) {a} m = elim (Bool-cases (e.beq (key r) (key new))) [
    | inl same ↦ elim (Memᴰ.cases_cons (rw same at m)) [
      | inl p ↦ inl p
      | inr later ↦ elim (mem-replace new rs later) [
        | inl p ↦ inl p
        | inr (old, ne) ↦ inr (Memᴰ.tail old, ne)
      ]
    ]
    | inr differs ↦ elim (Memᴰ.cases_cons (rw differs at m)) [
      | inl p ↦
          inr (Memᴰ.head p, λ q. cc (differs, (e.beq_iff (key r) (key new)).1 (ap key (sym p) ∙ q)))
      | inr later ↦ elim (mem-replace new rs later) [
        | inl p ↦ inl p
        | inr (old, ne) ↦ inr (Memᴰ.tail old, ne)
      ]
    ]
  ]

  pub mem-replace_self :
      (new : A) (rs : List A) {old : A}
      → Memᴰ old rs
      → key old ≡ key new
      → Memᴰ new (replace key new rs)
  mem-replace_self new [] m h = elim m [ ]
  mem-replace_self new (r ∷ rs) (Memᴰ.head p) h =
      let same : e.beq (key r) (key new) ≡ true = (e.beq_iff _ _).1 (ap key (sym p) ∙ h) in
      rw same (Memᴰ.head refl)
  mem-replace_self new (r ∷ rs) (Memᴰ.tail m) h = Memᴰ.tail (mem-replace_self new rs m h)

  pub mem-replace_ne :
      (new : A) (rs : List A) {a : A} → Memᴰ a rs → key a ≢ key new → Memᴰ a (replace key new rs)
  mem-replace_ne new [] m h = elim m [ ]
  mem-replace_ne new (r ∷ rs) (Memᴰ.head p) h = elim (Bool-cases (e.beq (key r) (key new))) [
    | inl same ↦ absurd (h (ap key p ∙ (e.beq_iff _ _).0 same))
    | inr differs ↦ rw differs (Memᴰ.head p)
  ]
  mem-replace_ne new (r ∷ rs) (Memᴰ.tail m) h = Memᴰ.tail (mem-replace_ne new rs m h)

  pub lookup-replace_self :
      (new : A) (rs : List A) {old : A}
      → lookup key (key new) rs ≡ some old
      → lookup key (key new) (replace key new rs) ≡ some new
  lookup-replace_self new [] h = cc
  lookup-replace_self new (r ∷ rs) h = elim (Bool-cases (e.beq (key r) (key new))) [
    | inl same ↦ rw same (rw ((e.beq_iff (key new) (key new)).1 refl))
    | inr differs ↦ rw differs (rw differs (lookup-replace_self new rs (rw differs at h)))
  ]

  pub lookup-replace_ne :
      (new : A) (rs : List A) (k : K)
      → key new ≢ k
      → lookup key k (replace key new rs) ≡ lookup key k rs
  lookup-replace_ne new [] k h = refl
  lookup-replace_ne new (r ∷ rs) k h = elim (Bool-cases (e.beq (key r) (key new))) [
    | inl same ↦ elim (Bool-cases (e.beq (key new) k)) [
      | inl hit ↦ absurd (h ((e.beq_iff _ _).0 hit))
      | inr miss ↦
          let at_r : e.beq (key r) k ≡ _ =
            ap (λ (j : K). e.beq j k) ((e.beq_iff _ _).0 same) ∙ miss in
          rw same (rw miss (rw at_r (lookup-replace_ne new rs k h)))
    ]
    | inr differs ↦ rw differs (ground (arith, lookup-replace_ne new rs k h))
  ]

  -- INSERT of a row whose key is free.
  pub lookup-insert_self :
      (new : A) (rs : List A)
      → lookup key (key new) rs ≡ none
      → lookup key (key new) (rs ++ new ∷ []) ≡ some new
  lookup-insert_self new [] h = rw ((e.beq_iff (key new) (key new)).1 refl)
  lookup-insert_self new (r ∷ rs) h = elim (Bool-cases (e.beq (key r) (key new))) [
    | inl same ↦ cc (rw same at h)
    | inr differs ↦ rw differs (lookup-insert_self new rs (rw differs at h))
  ]

  pub lookup-insert_ne :
      (new : A) (rs : List A) (k : K)
      → key new ≢ k
      → lookup key k (rs ++ new ∷ []) ≡ lookup key k rs
  lookup-insert_ne new [] k h = elim (Bool-cases (e.beq (key new) k)) [
    | inl hit ↦ absurd (h ((e.beq_iff _ _).0 hit))
    | inr miss ↦ rw miss
  ]
  lookup-insert_ne new (r ∷ rs) k h = ground (arith, lookup-insert_ne new rs k h)

-- An UPDATE that keeps the values of a column keeps them distinct.
module _ {ℓ κ μ} {A : Type ℓ} {K : Type κ} {F : Type μ} ⦃e : Eq K⦄ (key : A → K) (f : A → F)
    (new : A) where
  mem-replace_image :
      (rs : List A) (q : A)
      → ((r : A) → Memᴰ r rs → key r ≡ key new → f r ≡ f new)
      → Memᴰ q (replace key new rs)
      → (r : A) × Memᴰ r rs × (f r ≡ f q)
  mem-replace_image [] q same m = elim m [ ]
  mem-replace_image (r ∷ rs) q same m = elim (Bool-cases (e.beq (key r) (key new))) [
    | inl hit ↦ elim (Memᴰ.cases_cons (rw hit at m)) [
      | inl p ↦ (r, Memᴰ.head refl, same r (Memᴰ.head refl) ((e.beq_iff _ _).0 hit) ∙ ap f (sym p))
      | inr later ↦
          let (o, in_rs, at_o) = mem-replace_image rs q (λ t n. same t (Memᴰ.tail n)) later in
          (o, Memᴰ.tail in_rs, at_o)
    ]
    | inr miss ↦ elim (Memᴰ.cases_cons (rw miss at m)) [
      | inl p ↦ (r, Memᴰ.head refl, ap f (sym p))
      | inr later ↦
          let (o, in_rs, at_o) = mem-replace_image rs q (λ t n. same t (Memᴰ.tail n)) later in
          (o, Memᴰ.tail in_rs, at_o)
    ]
  ]

  pub Distinct-replace :
      (rs : List A)
      → ((r : A) → Memᴰ r rs → key r ≡ key new → f r ≡ f new)
      → Distinct f rs
      → Distinct f (replace key new rs)
  Distinct-replace [] same d = tt
  Distinct-replace (r ∷ rs) same d = (
    (λ q m.
        let (o, in_rs, at_o) = mem-replace_image rs q (λ t n. same t (Memᴰ.tail n)) m in
        elim (Bool-cases (e.beq (key r) (key new))) [
          | inl hit ↦
              rw hit (λ p.
                d.0 o in_rs (at_o ∙ p ∙ sym (same r (Memᴰ.head refl) ((e.beq_iff _ _).0 hit))))
          | inr miss ↦ rw miss (λ p. d.0 o in_rs (at_o ∙ p))
        ]),
    Distinct-replace rs (λ t n. same t (Memᴰ.tail n)) d.1,
  )

module _ {ℓ κ} {A : Type ℓ} {K : Type κ} (key : A → K) where
  pub Distinct-insert :
      (new : A) (rs : List A)
      → Distinct key rs
      → ((q : A) → Memᴰ q rs → key q ≢ key new)
      → Distinct key (rs ++ new ∷ [])
  Distinct-insert new [] d fresh = ((λ q m. elim m [ ]), tt)
  Distinct-insert new (r ∷ rs) d fresh = (
    (λ q m. elim (Memᴰ.append_cases rs m) [
      | inl old ↦ d.0 q old
      | inr last ↦ λ p. fresh r (Memᴰ.head refl) (sym p ∙ ap key (Memᴰ.eq_of_singleton last))
    ]),
    Distinct-insert new rs d.1 (λ q m. fresh q (Memᴰ.tail m)),
  )

module _ {ℓ κ} {A : Type ℓ} {K : Type κ} ⦃e : Eq K⦄ (key : A → K) where
  pub lookup-replace-none :
      (new : A) (rs : List A) (k : K)
      → lookup key k (replace key new rs) ≡ none
      → lookup key k rs ≡ none
  lookup-replace-none new [] k h = refl
  lookup-replace-none new (r ∷ rs) k h = elim (Bool-cases (e.beq (key r) (key new))) [
    | inl same ↦ elim (Bool-cases (e.beq (key new) k)) [
      | inl hit ↦ cc (rw hit at (rw same at h))
      | inr miss ↦
          let at_r : e.beq (key r) k ≡ _ =
            ap (λ (j : K). e.beq j k) ((e.beq_iff _ _).0 same) ∙ miss in
          rw at_r (lookup-replace-none new rs k (rw miss at (rw same at h)))
    ]
    | inr differs ↦ elim (Bool-cases (e.beq (key r) k)) [
      | inl hit ↦ cc (rw hit at (rw differs at h))
      | inr miss ↦ rw miss (lookup-replace-none new rs k (rw miss at (rw differs at h)))
    ]
  ]

  pub lookup-insert_none :
      (new : A) (rs : List A) (k : K)
      → lookup key k (rs ++ new ∷ []) ≡ none
      → (lookup key k rs ≡ none) × (key new ≢ k)
  lookup-insert_none new [] k h = elim (Bool-cases (e.beq (key new) k)) [
    | inl hit ↦ cc (rw hit at h)
    | inr miss ↦ (refl, λ p. cc (miss, (e.beq_iff (key new) k).1 p))
  ]
  lookup-insert_none new (r ∷ rs) k h = elim (Bool-cases (e.beq (key r) k)) [
    | inl hit ↦ cc (rw hit at h)
    | inr miss ↦ rw miss (lookup-insert_none new rs k (rw miss at h))
  ]

  -- An INSERT followed by an UPDATE of the new row.
  pub replace-insert :
      (new old : A) (rs : List A)
      → key old ≡ key new
      → exists (λ q. e.beq (key q) (key new)) rs ≡ false
      → replace key new (rs ++ old ∷ []) ≡ rs ++ new ∷ []
  replace-insert new old [] p h = rw ((e.beq_iff (key old) (key new)).1 p)
  replace-insert new old (r ∷ rs) p h = elim (Bool-cases (e.beq (key r) (key new))) [
    | inl hit ↦ cc (rw hit at h)
    | inr miss ↦ rw miss (ap (λ l. r ∷ l) (replace-insert new old rs p (rw miss at h)))
  ]
