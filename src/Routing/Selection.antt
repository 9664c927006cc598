-- ===== src/Routing/Selection.antt =====
-- app/routing.py: `_collapsed_edges` keeps the best rate between any two currencies.
use netaro_settlement_router.Prelude.{
  All, ◌≡◌, refl, sym, ap, ◌∙◌, inl, inr, true, false, some, List, [], ◌∷◌, Memᴰ, Bool-cases, arith,
  subst, Bool, if◌then◌else◌,
}
use netaro_settlement_router.Decimal.{lt, le}
use netaro_settlement_router.Decimal.Order.{IsUnsigned, le_trans, le_refl, le_of_lt, le_of_not_lt}
use netaro_settlement_router.Routing.Types.{same_currency_iff, Edge}
use netaro_settlement_router.Routing.{
  key_lt, edge_key, is_valid_rate, same_pair, insert_sorted, sorted, select_edge, collapse_from,
  collapsed_edges,
}
use netaro_settlement_router.Routing.Quotes.{select_edge-All}
use netaro_settlement_router.Routing.Entries.{is_valid_rate-IsUnsigned}

-- What holds on both branches, each with its equation, holds of the conditional.
if_cases {ℓ} :
    {A : Type 0} (P : A → Type ℓ) (b : Bool) {x y : A}
    → (b ≡ true → P x)
    → (b ≡ false → P y)
    → P (if b then x else y)
if_cases P true holds fails = holds refl
if_cases P false holds fails = fails refl

insert_sorted-mem_kept : (e g : Edge) (xs : List Edge) → Memᴰ g xs → Memᴰ g (insert_sorted e xs)
unfolding insert_sorted
insert_sorted-mem_kept e g [] m = elim m [ ]
insert_sorted-mem_kept e g (f ∷ xs) (Memᴰ.head same) =
    if_cases (Memᴰ g) (key_lt (edge_key f) (edge_key e)) (λ before. Memᴰ.head same)
      (λ after. Memᴰ.tail (Memᴰ.head same))
insert_sorted-mem_kept e g (f ∷ xs) (Memᴰ.tail m) =
    if_cases (Memᴰ g) (key_lt (edge_key f) (edge_key e))
      (λ before. Memᴰ.tail (insert_sorted-mem_kept e g xs m)) (λ after. Memᴰ.tail (Memᴰ.tail m))

insert_sorted-mem_new : (e : Edge) (xs : List Edge) → Memᴰ e (insert_sorted e xs)
unfolding insert_sorted
insert_sorted-mem_new e [] = Memᴰ.head refl
insert_sorted-mem_new e (f ∷ xs) =
    if_cases (Memᴰ e) (key_lt (edge_key f) (edge_key e))
      (λ before. Memᴰ.tail (insert_sorted-mem_new e xs)) (λ after. Memᴰ.head refl)

sorted-mem : (e : Edge) (edges : List Edge) → Memᴰ e edges → Memᴰ e (sorted edges)
unfolding sorted
sorted-mem e [] m = elim m [ ]
sorted-mem e (f ∷ edges) (Memᴰ.head same) =
    subst (λ (k : Edge). Memᴰ k (insert_sorted f (sorted edges))) (sym same)
      (insert_sorted-mem_new f (sorted edges))
sorted-mem e (f ∷ edges) (Memᴰ.tail m) =
    insert_sorted-mem_kept f e (sorted edges) (sorted-mem e edges m)

-- Among the edges is one between the same currencies, at a rate that is not lower.
abbrev pub IsCovered : Edge → List Edge → Type 0
IsCovered e selected =
    (f : Edge) × Memᴰ f selected
    × (f.source ≡ e.source)
    × (f.target ≡ e.target)
    × (le e.rate f.rate ≡ true)

same_pair_iff : (e f : Edge) → same_pair e f ≡ true → (e.source ≡ f.source) × (e.target ≡ f.target)
same_pair_iff e f h =
    ground (arith, same_currency_iff e.source f.source, same_currency_iff e.target f.target)

select_edge-IsCovered_new :
    (e : Edge) (selected : List Edge)
    → IsUnsigned e.rate
    → All (λ (f : Edge). IsUnsigned f.rate) selected
    → IsCovered e (select_edge e selected)
unfolding select_edge
select_edge-IsCovered_new e [] u us = (e, Memᴰ.head refl, refl, refl, le_refl e.rate u)
select_edge-IsCovered_new e (f ∷ selected) u us =
    if_cases (IsCovered e) (same_pair f e)
      (λ same.
        let (s, t) = same_pair_iff f e same in
        if_cases (λ k. IsCovered e (k ∷ selected)) (lt f.rate e.rate)
          (λ better. (e, Memᴰ.head refl, refl, refl, le_refl e.rate u))
          (λ worse. (f, Memᴰ.head refl, s, t, le_of_not_lt f.rate e.rate us.0 u worse)))
      (λ differs.
        let (k, m, s, t, above) = select_edge-IsCovered_new e selected u us.1 in
        (k, Memᴰ.tail m, s, t, above))

select_edge-IsCovered :
    (g e : Edge) (selected : List Edge)
    → IsUnsigned g.rate
    → IsUnsigned e.rate
    → All (λ (f : Edge). IsUnsigned f.rate) selected
    → IsCovered g selected
    → IsCovered g (select_edge e selected)
unfolding select_edge
select_edge-IsCovered g e [] ug u us (f, m, s, t, above) = elim m [ ]
select_edge-IsCovered g e (f ∷ selected) ug u us (k, Memᴰ.tail m, s, t, above) =
    if_cases (IsCovered g) (same_pair f e) (λ same. (k, Memᴰ.tail m, s, t, above))
      (λ differs.
        let (l, n, lsource, ltarget, la) =
          select_edge-IsCovered g e selected ug u us.1 (k, m, s, t, above) in
        (l, Memᴰ.tail n, lsource, ltarget, la))
select_edge-IsCovered g e (f ∷ selected) ug u us (k, Memᴰ.head here, s, t, above) =
    if_cases (IsCovered g) (same_pair f e)
      (λ same.
        let (es, et) = same_pair_iff f e same in
        if_cases (λ l. IsCovered g (l ∷ selected)) (lt f.rate e.rate)
          (λ better. (
            e,
            Memᴰ.head refl,
            sym es ∙ ap (λ (x : Edge). x.source) (sym here) ∙ s,
            sym et ∙ ap (λ (x : Edge). x.target) (sym here) ∙ t,
            le_trans g.rate f.rate e.rate ug us.0 u
                (subst (λ (x : Edge). le g.rate x.rate ≡ true) here above)
                (le_of_lt f.rate e.rate us.0 u better),
          ))
          (λ worse. (k, Memᴰ.head here, s, t, above)))
      (λ differs. (k, Memᴰ.head here, s, t, above))

collapse_from-IsCovered :
    (g : Edge) (selected xs out : List Edge)
    → All (λ (f : Edge). IsUnsigned f.rate) selected
    → collapse_from selected xs ≡ some out
    → IsUnsigned g.rate
    → IsCovered g selected
    → IsCovered g out
unfolding collapse_from
collapse_from-IsCovered g selected [] out us h u covered =
    subst (IsCovered g) (some-injective h) covered
  where
    some-injective : {x y : List Edge} → some x ≡ some y → x ≡ y
    some-injective p = cc
collapse_from-IsCovered g selected (e ∷ xs) out us h u covered =
    elim (Bool-cases (is_valid_rate e.rate)) [
      | inl valid ↦
          let ue = is_valid_rate-IsUnsigned e.rate valid in
          collapse_from-IsCovered g (select_edge e selected) xs out
            (select_edge-All (λ (f : Edge). IsUnsigned f.rate) e selected ue us) (rw valid at h) u
            (select_edge-IsCovered g e selected u ue us covered)
      | inr invalid ↦ cc (rw invalid at h)
    ]

collapse_from-covers :
    (g : Edge) (selected xs out : List Edge)
    → All (λ (f : Edge). IsUnsigned f.rate) selected
    → collapse_from selected xs ≡ some out
    → Memᴰ g xs
    → IsCovered g out
unfolding collapse_from
collapse_from-covers g selected [] out us h m = elim m [ ]
collapse_from-covers g selected (e ∷ xs) out us h m = elim (Bool-cases (is_valid_rate e.rate)) [
  | inl valid ↦
      let ue = is_valid_rate-IsUnsigned e.rate valid in
      let us_next = select_edge-All (λ (f : Edge). IsUnsigned f.rate) e selected ue us in
      elim m [
        | Memᴰ.head same ↦
            subst (λ (k : Edge). IsCovered k out) (sym same)
              (collapse_from-IsCovered e (select_edge e selected) xs out us_next (rw valid at h) ue
                (select_edge-IsCovered_new e selected ue us))
        | Memᴰ.tail later ↦
            collapse_from-covers g (select_edge e selected) xs out us_next (rw valid at h) later
      ]
  | inr invalid ↦ cc (rw invalid at h)
]

-- Every edge that is offered has a chosen edge between the same currencies, at a rate that is not
-- lower.
pub collapsed_edges-covers :
    (edges collapsed : List Edge) (e : Edge)
    → collapsed_edges edges ≡ some collapsed
    → Memᴰ e edges
    → IsCovered e collapsed
unfolding collapsed_edges
collapsed_edges-covers edges collapsed e h m =
    collapse_from-covers e [] (sorted edges) collapsed tt h (sorted-mem e edges m)
