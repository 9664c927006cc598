-- ===== src/Routing/Closed.antt =====
-- app/routing.py: relaxation keeps the best rate of each currency, so a table that passes the check
-- of `compute_routes` is closed under the edges.
use netaro_settlement_router.Prelude.{
  All, ℕ, zero, suc, ◌≡◌, sym, ap, ◌∙◌, subst, inl, inr, false, some, List, [], ◌∷◌, Memᴰ,
  Bool-cases, Option-cases, exists, each,
}
use netaro_settlement_router.Decimal.{Decimal, routing_prec}
use netaro_settlement_router.Decimal.Order.{
  IsUnsigned, le_trans, le_refl, le_of_not_lt, mul-IsUnsigned,
}
use netaro_settlement_router.Routing.Types.{Currency, same_currency_iff, Edge}
use netaro_settlement_router.Routing.{
  Candidate, Best, is_better, find, extend, relax_edge, relax_from, relax, improves, relax_rounds,
  same_best,
}
use netaro_settlement_router.Routing.Paths.{
  IsUsable, IsRouted, find-IsRoute, relax_edge-IsRouted, relax_from-IsRouted,
}
use netaro_settlement_router.Routing.Entries.{
  is_valid_rate-IsUnsigned, IsRoute-IsUnsigned, find-put_same, AtLeast, put-AtLeast, is_better-le,
  not_is_better-le, first_is_better, find-mem, not_exists, not_improved,
}

module _ (edges : List Edge) (source : Currency) where
  pub find-IsUnsigned :
      (c : Currency) (best : Best) (x : Candidate)
      → IsRouted edges source best
      → find c best ≡ some x
      → IsUnsigned x.0
  find-IsUnsigned c best x r h =
      IsRoute-IsUnsigned edges source c x (find-IsRoute edges source c best x r h)

  extend-IsUnsigned :
      (best : Best) (e : Edge) (x : Candidate)
      → IsUsable edges e
      → IsRouted edges source best
      → find e.source best ≡ some x
      → IsUnsigned (extend x e).0
  extend-IsUnsigned best e x (m, valid) r h =
      mul-IsUnsigned routing_prec x.0 e.rate (find-IsUnsigned e.source best x r h)
        (is_valid_rate-IsUnsigned e.rate valid)

  -- An edge does not lower the rate of any currency.
  relax_edge-AtLeast :
      (rate : Decimal) (c : Currency) (best : Best) (e : Edge) (next_best : Best)
      → IsUnsigned rate
      → IsUsable edges e
      → IsRouted edges source best
      → IsRouted edges source next_best
      → AtLeast rate c next_best
      → AtLeast rate c (relax_edge best e next_best)
  unfolding relax_edge
  relax_edge-AtLeast rate c best e next_best u usable r n (y, at, above) =
      elim (Option-cases (find e.source best)) [
        | inl missing ↦ rw (missing, relax_edge) (y, at, above)
        | inr (x, found) ↦
            rw (found, relax_edge)
              (elim (Bool-cases (is_better (extend x e) (find e.target next_best))) [
                | inl better ↦ rw better (
                    put-AtLeast rate c e.target (extend x e) next_best (y, at, above)
                      (λ same.
                        let here : find e.target next_best ≡ some y =
                          ap (λ k. find k next_best) ((same_currency_iff e.target c).0 same) ∙ at in
                        le_trans rate y.0 (extend x e).0 u (find-IsUnsigned c next_best y n at)
                          (extend-IsUnsigned best e x usable r found) above
                          (is_better-le (extend x e) y (extend-IsUnsigned best e x usable r found)
                            (find-IsUnsigned c next_best y n at) (rw here at better))))
                | inr worse ↦ rw worse (y, at, above)
              ])
      ]

  -- Afterwards the rate of its target is not below that of the way over it.
  relax_edge-reaches :
      (best : Best) (e : Edge) (next_best : Best) (x : Candidate)
      → IsUsable edges e
      → IsRouted edges source best
      → IsRouted edges source next_best
      → find e.source best ≡ some x
      → AtLeast (extend x e).0 e.target (relax_edge best e next_best)
  unfolding relax_edge
  relax_edge-reaches best e next_best x usable r n found =
      rw (found, relax_edge)
        (elim (Bool-cases (is_better (extend x e) (find e.target next_best))) [
          | inl better ↦ rw better (
            extend x e,
            find-put_same e.target (extend x e) next_best,
            le_refl (extend x e).0 (extend-IsUnsigned best e x usable r found),
          )
          | inr worse ↦ rw worse (elim (Option-cases (find e.target next_best)) [
            | inl missing ↦ absurd (first_is_better (extend x e) (rw missing at worse))
            | inr (y, at) ↦ (
              y,
              at,
              not_is_better-le (extend x e) y (extend-IsUnsigned best e x usable r found)
                  (find-IsUnsigned e.target next_best y n at) (rw at at worse),
            )
          ])
        ])

  relax_from-AtLeast :
      (rate : Decimal) (c : Currency) (best : Best) (es : List Edge) (next_best : Best)
      → IsUnsigned rate
      → All (IsUsable edges) es
      → IsRouted edges source best
      → IsRouted edges source next_best
      → AtLeast rate c next_best
      → AtLeast rate c (relax_from best es next_best)
  unfolding relax_from
  relax_from-AtLeast rate c best [] next_best u usable r n h = h
  relax_from-AtLeast rate c best (e ∷ es) next_best u usable r n h =
      relax_from-AtLeast rate c best es (relax_edge best e next_best) u usable.1 r
        (relax_edge-IsRouted edges source best e next_best usable.0 r n)
        (relax_edge-AtLeast rate c best e next_best u usable.0 r n h)

  relax_from-reaches :
      (best : Best) (es : List Edge) (next_best : Best) (e : Edge) (x : Candidate)
      → All (IsUsable edges) es
      → IsRouted edges source best
      → IsRouted edges source next_best
      → Memᴰ e es
      → find e.source best ≡ some x
      → AtLeast (extend x e).0 e.target (relax_from best es next_best)
  unfolding relax_from
  relax_from-reaches best [] next_best e x usable r n m found = elim m [ ]
  relax_from-reaches best (f ∷ es) next_best e x usable r n (Memᴰ.head same) found =
      let at : find f.source best ≡ some x =
        ap (λ (k : Edge). find k.source best) (sym same) ∙ found in
      subst (λ (k : Edge). AtLeast (extend x k).0 k.target (relax_from best (f ∷ es) next_best))
        (sym same)
        (relax_from-AtLeast (extend x f).0 f.target best es (relax_edge best f next_best)
          (extend-IsUnsigned best f x usable.0 r at) usable.1 r
          (relax_edge-IsRouted edges source best f next_best usable.0 r n)
          (relax_edge-reaches best f next_best x usable.0 r n at))
  relax_from-reaches best (f ∷ es) next_best e x usable r n (Memᴰ.tail m) found =
      relax_from-reaches best es (relax_edge best f next_best) e x usable.1 r
        (relax_edge-IsRouted edges source best f next_best usable.0 r n) m found

  -- Where one more relaxation improves nothing, the table is closed under the edges.
  pub relax-closed :
      (best : Best) (es : List Edge) (e : Edge) (x : Candidate)
      → All (IsUsable edges) es
      → IsRouted edges source best
      → exists (improves best) (relax best es) ≡ false
      → Memᴰ e es
      → find e.source best ≡ some x
      → AtLeast (extend x e).0 e.target best
  relax-closed best es e x usable r stable m found =
      let (y, at, above) = relax_from-reaches best es best e x usable r r m found in
      let (z, current, not_below) = not_improved best e.target y (
        not_exists (improves best) (relax best es) stable
          (find-mem e.target (relax best es) y at)) in
      let uz = find-IsUnsigned e.target best z r current in
      let uy =
        find-IsUnsigned e.target (relax best es) y
          (relax_from-IsRouted edges source best es best usable r r) at in
      (
        z,
        current,
        le_trans (extend x e).0 y.0 z.0
            (extend-IsUnsigned best e x (each (IsUsable edges) es usable e m) r found) uy uz above
            (le_of_not_lt z.0 y.0 uz uy not_below),
      )

  pub relax_rounds-AtLeast :
      (rate : Decimal) (c : Currency) (n : ℕ) (best : Best) (es : List Edge)
      → IsUnsigned rate
      → All (IsUsable edges) es
      → IsRouted edges source best
      → AtLeast rate c best
      → AtLeast rate c (relax_rounds n best es)
  unfolding relax_rounds
  relax_rounds-AtLeast rate c zero best es u usable r h = h
  relax_rounds-AtLeast rate c (suc n) best es u usable r h =
      elim (Bool-cases (same_best (relax best es) best)) [
        | inl stable ↦ rw stable h
        | inr moved ↦ rw moved (
            relax_rounds-AtLeast rate c n (relax best es) es u usable
              (relax_from-IsRouted edges source best es best usable r r)
              (relax_from-AtLeast rate c best es best u usable r r h))
      ]
