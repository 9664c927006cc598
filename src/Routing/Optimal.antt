-- ===== src/Routing/Optimal.antt =====
-- app/routing.py: what the quotes of a snapshot promise about the edges that they do not use.
use netaro_settlement_router.Prelude.{
  each, All, ℕ, ◌≡◌, refl, sym, ap, ◌∙◌, subst, inl, inr, true, false, Option, none, some, List, [],
  ◌∷◌, Memᴰ, Bool-cases, exists, ◌↔◌,
}
use netaro_settlement_router.Decimal.{Decimal, mul, le, one, routing_prec}
use netaro_settlement_router.Decimal.Order.{IsUnsigned, le_refl, le_trans, mul-IsUnsigned}
use netaro_settlement_router.Decimal.Products.{mul_mono}
use netaro_settlement_router.Routing.Types.{
  Currency, same_currency, same_currency_iff, Edge, RouteHop, RouteQuote,
}
use netaro_settlement_router.Routing.{
  is_valid_rate, hop_of, Candidate, Best, find, quotes, find_quote, compute_routes, collapsed_edges,
  best_routes, improves, relax, rounds,
}
use netaro_settlement_router.Routing.Paths.{IsUsable, product_from, Follows, IsOffered}
use netaro_settlement_router.Routing.Quotes.{
  computed, compute_routes-IsQuote, find_quote-mem, collapsed_edges-IsUsable, best_routes-IsRouted,
}
use netaro_settlement_router.Routing.Entries.{is_valid_rate-IsUnsigned, AtLeast}
use netaro_settlement_router.Routing.Closed.{find-IsUnsigned, relax-closed, relax_rounds-AtLeast}
use netaro_settlement_router.Routing.Selection.{collapsed_edges-covers}

abbrev quote_of : ℕ → Currency → Candidate → RouteQuote
quote_of version c (rate, hops) = record {
  snapshot_version = version;
  target = c;
  aggregate_rate = rate;
  hops = hops;
}

abbrev as_quote : ℕ → Currency → Option Candidate → Option RouteQuote
as_quote version c none = none
as_quote version c (some x) = some (quote_of version c x)

-- The quotes are the entries of the table but for the source's.
find_quote-quotes :
    (version : ℕ) (source c : Currency) (best : Best)
    → same_currency c source ≡ false
    → find_quote c (quotes version source best) ≡ as_quote version c (find c best)
find_quote-quotes version source c [] h = refl
find_quote-quotes version source c ((d, x) ∷ best) h = elim (Bool-cases (same_currency d c)) [
  | inl here ↦
      let at : d ≡ c = (same_currency_iff d c).0 here in
      let quoted : same_currency d source ≡ false =
        subst (λ k. same_currency k source ≡ false) (sym at) h in
      rw (quoted, here) (ap (λ k. some (quote_of version k x)) at)
  | inr apart ↦ elim (Bool-cases (same_currency d source)) [
    | inl left_out ↦ rw (left_out, apart) (find_quote-quotes version source c best h)
    | inr quoted ↦ rw (quoted, apart) (find_quote-quotes version source c best h)
  ]
]

module _ (edges : List Edge) (version : ℕ) (source : Currency)
    (routes : List (Currency × RouteQuote))
    (accepted : compute_routes edges version source ≡ some routes) where
  -- The source's own rate, and the quotes, are the entries of a table that is closed under the edges.
  table-closed :
      (collapsed : List Edge) (e : Edge) (x : Candidate)
      → collapsed_edges edges ≡ some collapsed
      → Memᴰ e collapsed
      → find e.source (best_routes collapsed source) ≡ some x
      → AtLeast (mul routing_prec x.0 e.rate) e.target (best_routes collapsed source)
  table-closed collapsed e x h m found =
      let (again, h_again, stable, same) = computed edges version source routes accepted in
      let equal : again ≡ collapsed = cc (h, h_again) in
      let usable = collapsed_edges-IsUsable edges collapsed h in
      relax-closed edges source (best_routes collapsed source) collapsed e x usable
        (best_routes-IsRouted edges collapsed source usable)
        (subst
          (λ es.
            exists (improves (best_routes es source)) (relax (best_routes es source) es) ≡ false)
          equal stable)
        m found

  quote-table :
      (collapsed : List Edge) (c : Currency)
      → collapsed_edges edges ≡ some collapsed
      → same_currency c source ≡ false
      → find_quote c routes ≡ as_quote version c (find c (best_routes collapsed source))
  quote-table collapsed c h other =
      let (again, h_again, stable, same) = computed edges version source routes accepted in
      let equal : again ≡ collapsed = cc (h, h_again) in
      ap (find_quote c) (same ∙ ap (λ es. quotes version source (best_routes es source)) equal)
      ∙ find_quote-quotes version source c (best_routes collapsed source) other

  -- A hop keeps the table's rate at or above the product so far.
  hop-AtLeast :
      (collapsed : List Edge) (a : Currency) (rate : Decimal) (hop : RouteHop) (e : Edge)
      (x : Candidate)
      → collapsed_edges edges ≡ some collapsed
      → IsUnsigned rate
      → hop.source ≡ a
      → Memᴰ e edges
      → is_valid_rate e.rate ≡ true
      → hop ≡ hop_of e
      → find a (best_routes collapsed source) ≡ some x
      → le rate x.0 ≡ true
      → AtLeast (mul routing_prec rate hop.rate) hop.target (best_routes collapsed source)
  hop-AtLeast collapsed a rate hop e x h u starts m valid same found above =
      let (f, n, from, to, dear) = collapsed_edges-covers edges collapsed e h m in
      let best = best_routes collapsed source in
      let at_source : find f.source best ≡ some x =
        ap (λ k. find k best) (from ∙ sym (ap (λ (g : RouteHop). g.source) same) ∙ starts)
        ∙ found in
      let (y, at, under) = table-closed collapsed f x h n at_source in
      let usable = collapsed_edges-IsUsable edges collapsed h in
      let routed = best_routes-IsRouted edges collapsed source usable in
      let ue = is_valid_rate-IsUnsigned e.rate valid in
      let uf = is_valid_rate-IsUnsigned f.rate (each (IsUsable edges) collapsed usable f n).1 in
      let ux = find-IsUnsigned edges source a best x routed found in
      let uy = find-IsUnsigned edges source f.target best y routed at in
      subst (λ (g : RouteHop). AtLeast (mul routing_prec rate g.rate) g.target best) (sym same)
        (
          y,
          ap (λ k. find k best) (sym to) ∙ at,
          le_trans (mul routing_prec rate e.rate) (mul routing_prec x.0 f.rate) y.0
              (mul-IsUnsigned routing_prec rate e.rate u ue)
              (mul-IsUnsigned routing_prec x.0 f.rate ux uf) uy
              (mul_mono 37 rate e.rate x.0 f.rate u ue ux uf above dear) under,
        )

  -- So does a chain of them.
  chain-AtLeast :
      (collapsed : List Edge) (a c : Currency) (rate : Decimal) (hops : List RouteHop)
      → collapsed_edges edges ≡ some collapsed
      → IsUnsigned rate
      → Follows a hops c
      → All (IsOffered edges) hops
      → AtLeast rate a (best_routes collapsed source)
      → AtLeast (product_from rate hops) c (best_routes collapsed source)
  chain-AtLeast collapsed a c rate [] h u follows offered found =
      subst (λ k. AtLeast rate k (best_routes collapsed source)) follows found
  chain-AtLeast collapsed a c rate (hop ∷ hops) h u (starts, follows) ((e, m, valid, same), offered)
        (x, found, above) =
      chain-AtLeast collapsed hop.target c (mul routing_prec rate hop.rate) hops h
        (mul-IsUnsigned routing_prec rate hop.rate u (
          subst (λ (g : RouteHop). IsUnsigned g.rate) (sym same)
            (is_valid_rate-IsUnsigned e.rate valid)))
        follows offered (hop-AtLeast collapsed a rate hop e x h u starts m valid same found above)

  source-found :
      (collapsed : List Edge)
      → collapsed_edges edges ≡ some collapsed
      → AtLeast one source (best_routes collapsed source)
  unfolding best_routes
  source-found collapsed h =
      relax_rounds-AtLeast edges source one source rounds ((source, (one, [])) ∷ []) collapsed
        (_, _, refl) (collapsed_edges-IsUsable edges collapsed h)
        (record { follows = refl; is_product = refl; offered = tt }, tt)
        ((one, []), rw ((same_currency_iff source source).1 refl) refl, le_refl one (_, _, refl))

-- Where a graph is accepted, no chain of offered edges from the source beats the quotes: the currency
-- that it leads to, if it is another one, is quoted at no less than the product of the chain's rates,
-- rounded at each hop to 38 digits.
pub quote-best :
    (edges : List Edge) (version : ℕ) (source : Currency) (routes : List (Currency × RouteQuote))
    (c : Currency) (hops : List RouteHop)
    → compute_routes edges version source ≡ some routes
    → same_currency c source ≡ false
    → Follows source hops c
    → All (IsOffered edges) hops
    → (q : RouteQuote) × (find_quote c routes ≡ some q)
      × (le (product_from one hops) q.aggregate_rate ≡ true)
quote-best edges version source routes c hops accepted other follows offered =
    let (collapsed, h, stable, same) = computed edges version source routes accepted in
    let (y, at, above) =
      chain-AtLeast edges version source routes accepted collapsed source c one hops h (_, _, refl)
        follows offered (source-found edges version source routes accepted collapsed h) in
    (
      quote_of version c y,
      quote-table edges version source routes accepted collapsed c h other
          ∙ ap (as_quote version c) at,
      above,
    )

-- Where a graph is accepted, exactly the currencies other than the source to which a chain of offered
-- edges leads from it are quoted.
pub quoted_iff_reachable :
    (edges : List Edge) (version : ℕ) (source : Currency) (routes : List (Currency × RouteQuote))
    (c : Currency)
    → compute_routes edges version source ≡ some routes
    → same_currency c source ≡ false
    → ((q : RouteQuote) × (find_quote c routes ≡ some q))
      ↔ ((hops : List RouteHop) × Follows source hops c × All (IsOffered edges) hops)
quoted_iff_reachable edges version source routes c accepted other = (
  (λ (q, quoted).
      let (_, _, _, route) =
        compute_routes-IsQuote edges version source routes c q accepted
          (find_quote-mem c routes q quoted) in
      (q.hops, route.follows, route.offered)),
  (λ (hops, follows, offered).
      let (q, quoted, above) =
        quote-best edges version source routes c hops accepted other follows offered in
      (q, quoted)),
)
