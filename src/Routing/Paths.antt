-- ===== src/Routing/Paths.antt =====
-- app/routing.py: what a route consists of, and the relaxation over such routes.
use netaro_settlement_router.Prelude.{
  All, All-append, ℕ, zero, suc, ◌≡◌, refl, sym, ap, ◌∙◌, subst, inl, inr, true, some, List, [],
  ◌∷◌, ◌++◌, Memᴰ, Bool-cases, Option-cases,
}
use netaro_settlement_router.Decimal.{Decimal, mul, one, routing_prec}
use netaro_settlement_router.Routing.Types.{
  Currency, same_currency, same_currency_iff, Edge, RouteHop,
}
use netaro_settlement_router.Routing.{
  Candidate, Best, is_better, is_valid_rate, find, put, hop_of, extend, relax_edge, relax_from,
  relax, relax_rounds, same_best,
}

-- The hops lead from one currency to another.
abbrev pub Follows : Currency → List RouteHop → Currency → Type 0
Follows a [] b = a ≡ b
Follows a (h ∷ hops) b = (h.source ≡ a) × Follows h.target hops b

-- The product of the rates, each step rounded to the routing context.
abbrev pub product_from : Decimal → List RouteHop → Decimal
product_from rate [] = rate
product_from rate (h ∷ hops) = product_from (mul routing_prec rate h.rate) hops

-- A hop is an edge that a liquidity provider offers, at a finite and positive rate.
abbrev pub IsOffered : List Edge → RouteHop → Type 0
IsOffered edges h = (e : Edge) × Memᴰ e edges × (is_valid_rate e.rate ≡ true) × (h ≡ hop_of e)

pub record IsRoute (edges : List Edge) (source target : Currency) (candidate : Candidate)
    : Type 0 where
  pub follows : Follows source candidate.1 target
  pub is_product : candidate.0 ≡ product_from one candidate.1
  pub offered : All (IsOffered edges) candidate.1

Follows-append :
    (a b : Currency) (hops : List RouteHop) (e : Edge)
    → Follows a hops b
    → e.source ≡ b
    → Follows a (hops ++ hop_of e ∷ []) e.target
Follows-append a b [] e h p = (p ∙ sym h, refl)
Follows-append a b (g ∷ hops) e h p = (h.0, Follows-append g.target b hops e h.1 p)

product_from-append :
    (rate : Decimal) (hops : List RouteHop) (h : RouteHop)
    → product_from rate (hops ++ h ∷ []) ≡ mul routing_prec (product_from rate hops) h.rate
product_from-append rate [] h = refl
product_from-append rate (g ∷ hops) h = product_from-append (mul routing_prec rate g.rate) hops h

-- An edge that a candidate can be extended by.
abbrev pub IsUsable : List Edge → Edge → Type 0
IsUsable edges e = Memᴰ e edges × (is_valid_rate e.rate ≡ true)

extend-IsRoute :
    (edges : List Edge) (source : Currency) (candidate : Candidate) (e : Edge)
    → IsRoute edges source e.source candidate
    → IsUsable edges e
    → IsRoute edges source e.target (extend candidate e)
extend-IsRoute edges source (rate, hops) e r (m, valid) = record {
  follows = Follows-append source e.source hops e r.follows refl;
  is_product =
      ap (λ x. mul routing_prec x e.rate) r.is_product
      ∙ sym (product_from-append one hops (hop_of e));
  offered = All-append (IsOffered edges) hops _ r.offered ((e, m, valid, refl), tt);
}

module _ (edges : List Edge) (source : Currency) where
  -- Every entry of the dictionary is a route to its key.
  abbrev pub IsRouted : Best → Type 0
  IsRouted best = All (λ (c, candidate). IsRoute edges source c candidate) best

  pub find-IsRoute :
      (c : Currency) (best : Best) (candidate : Candidate)
      → IsRouted best
      → find c best ≡ some candidate
      → IsRoute edges source c candidate
  find-IsRoute c [] candidate r h = cc
  find-IsRoute c ((d, old) ∷ best) candidate r h = elim (Bool-cases (same_currency d c)) [
    | inl same ↦
        let at_key : d ≡ c = (same_currency_iff d c).0 same in
        let found : old ≡ candidate = cc (rw same at h) in
        subst (λ k. IsRoute edges source k candidate) at_key
          (subst (IsRoute edges source d) found r.0)
    | inr differs ↦ find-IsRoute c best candidate r.1 (rw differs at h)
  ]

  put-IsRouted :
      (c : Currency) (candidate : Candidate) (best : Best)
      → IsRoute edges source c candidate
      → IsRouted best
      → IsRouted (put c candidate best)
  put-IsRouted c candidate [] new r = (new, tt)
  put-IsRouted c candidate ((d, old) ∷ best) new r = elim (Bool-cases (same_currency d c)) [
    | inl same ↦ rw same (
      subst (λ k. IsRoute edges source k candidate) (sym ((same_currency_iff d c).0 same)) new,
      r.1,
    )
    | inr differs ↦ rw differs (r.0, put-IsRouted c candidate best new r.1)
  ]

  pub relax_edge-IsRouted :
      (best : Best) (e : Edge) (next_best : Best)
      → IsUsable edges e
      → IsRouted best
      → IsRouted next_best
      → IsRouted (relax_edge best e next_best)
  unfolding relax_edge
  relax_edge-IsRouted best e next_best usable r n = elim (Option-cases (find e.source best)) [
    | inl missing ↦ rw (missing, relax_edge) n
    | inr (candidate, found) ↦
        rw (found, relax_edge)
          (elim (Bool-cases (is_better (extend candidate e) (find e.target next_best))) [
            | inl better ↦ rw better (
                put-IsRouted e.target (extend candidate e) next_best
                  (extend-IsRoute edges source candidate e
                    (find-IsRoute e.source best candidate r found) usable)
                  n)
            | inr worse ↦ rw worse n
          ])
  ]

  pub relax_from-IsRouted :
      (best : Best) (usable : List Edge) (next_best : Best)
      → All (IsUsable edges) usable
      → IsRouted best
      → IsRouted next_best
      → IsRouted (relax_from best usable next_best)
  unfolding relax_from
  relax_from-IsRouted best [] next_best u r n = n
  relax_from-IsRouted best (e ∷ usable) next_best u r n =
      relax_from-IsRouted best usable (relax_edge best e next_best) u.1 r
        (relax_edge-IsRouted best e next_best u.0 r n)

  pub relax_rounds-IsRouted :
      (n : ℕ) (best : Best) (usable : List Edge)
      → All (IsUsable edges) usable
      → IsRouted best
      → IsRouted (relax_rounds n best usable)
  unfolding relax_rounds
  relax_rounds-IsRouted zero best usable u r = r
  relax_rounds-IsRouted (suc n) best usable u r =
      elim (Bool-cases (same_best (relax best usable) best)) [
        | inl stable ↦ rw stable r
        | inr moved ↦ rw moved (
            relax_rounds-IsRouted n (relax best usable) usable u
              (relax_from-IsRouted best usable best u r r))
      ]
