-- ===== src/Table.antt =====
-- Database tables as lists of rows with a key: selection by key, the effect of an UPDATE on the
-- rows with a given key, and sums over the rows.
pub mod Updates
pub mod Sums
use mathlib.Core.List.Memᴰ
use netaro_settlement_router.Prelude.{
  ◌≡◌, ◌≢◌, sym, ap, ◌∙◌, inl, inr, true, Option, none, some, List, [], ◌∷◌, Memᴰ, if◌then◌else◌,
  Eq, Bool-cases,
}

-- No two rows have the same key.
abbrev pub Distinct {ℓ κ} : {A : Type ℓ} {K : Type κ} → (A → K) → List A → Type (ℓ ⊔ κ)
Distinct key [] = Unit
Distinct {A} key (r ∷ rs) = ((q : A) → Memᴰ q rs → key q ≢ key r) × Distinct key rs

module _ {ℓ κ} {A : Type ℓ} {K : Type κ} ⦃e : Eq K⦄ (key : A → K) where
  -- SELECT ... WHERE key = k
  abbrev pub lookup : K → List A → Option A
  lookup k [] = none
  lookup k (r ∷ rs) = if e.beq (key r) k then some r else lookup k rs

  -- UPDATE ... WHERE key = key of the new row
  abbrev pub replace : A → List A → List A
  replace new [] = []
  replace new (r ∷ rs) = (if e.beq (key r) (key new) then new else r) ∷ replace new rs

  pub lookup-mem : (k : K) (rs : List A) (a : A) → lookup k rs ≡ some a → Memᴰ a rs × (key a ≡ k)
  lookup-mem k [] a h = cc
  lookup-mem k (r ∷ rs) a h = elim (Bool-cases (e.beq (key r) k)) [
    | inl same ↦ (Memᴰ.head (cc (rw same at h)), cc ((e.beq_iff (key r) k).0 same, rw same at h))
    | inr differs ↦ let (m, k') = lookup-mem k rs a (rw differs at h) in (Memᴰ.tail m, k')
  ]

  pub lookup_of_mem :
      (rs : List A) {a : A} → Distinct key rs → Memᴰ a rs → lookup (key a) rs ≡ some a
  lookup_of_mem [] d m = elim m [ ]
  lookup_of_mem (r ∷ rs) {a} d (Memᴰ.head p) =
      let same : e.beq (key r) (key a) ≡ true = (e.beq_iff _ _).1 (ap key (sym p)) in
      rw same (ap some (sym p))
  lookup_of_mem (r ∷ rs) {a} d (Memᴰ.tail m) = elim (Bool-cases (e.beq (key r) (key a))) [
    | inl same ↦ absurd (d.0 a m (sym ((e.beq_iff _ _).0 same)))
    | inr differs ↦ rw differs (lookup_of_mem rs d.1 m)
  ]

  pub lookup_none : (k : K) (rs : List A) → lookup k rs ≡ none → (a : A) → Memᴰ a rs → key a ≢ k
  lookup_none k [] h a m = elim m [ ]
  lookup_none k (r ∷ rs) h a m = elim (Bool-cases (e.beq (key r) k)) [
    | inl same ↦ cc (rw same at h)
    | inr differs ↦ elim (Memᴰ.cases_cons m) [
      | inl p ↦ λ q. cc (differs, (e.beq_iff (key r) k).1 (ap key (sym p) ∙ q))
      | inr later ↦ lookup_none k rs (rw differs at h) a later
    ]
  ]

-- Two rows of a table with one key are one row.
pub mem_unique {ℓ κ} :
    {A : Type ℓ} {K : Type κ} (key : A → K) (rs : List A) {a b : A}
    → Distinct key rs
    → Memᴰ a rs
    → Memᴰ b rs
    → key a ≡ key b
    → a ≡ b
mem_unique key [] d ma mb h = elim ma [ ]
mem_unique key (r ∷ rs) d (Memᴰ.head p) (Memᴰ.head q) h = p ∙ sym q
mem_unique key (r ∷ rs) {b = b} d (Memᴰ.head p) (Memᴰ.tail mb) h =
    absurd (d.0 b mb (sym h ∙ ap key p))
mem_unique key (r ∷ rs) {a} d (Memᴰ.tail ma) (Memᴰ.head q) h = absurd (d.0 a ma (h ∙ ap key q))
mem_unique key (r ∷ rs) d (Memᴰ.tail ma) (Memᴰ.tail mb) h = mem_unique key rs d.1 ma mb h
