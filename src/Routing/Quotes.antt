-- ===== src/Routing/Quotes.antt =====
-- app/routing.py: the quotes of a snapshot, as routes over the edges that it was computed from.
use netaro_settlement_router.Prelude.{
  ℕ, ◌≡◌, ◌≢◌, refl, subst, inl, inr, some, List, [], ◌∷◌, Memᴰ, arith, Bool-cases, All, each,
  each-All, exists, false,
}
use netaro_settlement_router.Decimal.{one}
use netaro_settlement_router.Routing.Types.{
  Currency, same_currency, same_currency_iff, Edge, RouteQuote,
}
use netaro_settlement_router.Routing.{
  Best, insert_sorted, sorted, is_valid_rate, select_edge, collapse_from, collapsed_edges, rounds,
  best_routes, quotes, compute_routes, find_quote, improves, relax,
}
use netaro_settlement_router.Routing.Paths.{IsRoute, IsUsable, IsRouted, relax_rounds-IsRouted}

-- Sorting keeps what holds of every edge, and so does the choice of the best edge of a pair.
module _ (P : Edge → Type 0) where
  insert_sorted-All : (e : Edge) (xs : List Edge) → P e → All P xs → All P (insert_sorted e xs)
  unfolding insert_sorted
  insert_sorted-All e [] p h = (p, tt)
  insert_sorted-All e (f ∷ xs) p h = ground (arith, insert_sorted-All e xs p h.1)

  sorted-All : (xs : List Edge) → All P xs → All P (sorted xs)
  unfolding sorted
  sorted-All [] h = tt
  sorted-All (e ∷ xs) h = insert_sorted-All e (sorted xs) h.0 (sorted-All xs h.1)

  pub select_edge-All : (e : Edge) (xs : List Edge) → P e → All P xs → All P (select_edge e xs)
  unfolding select_edge
  select_edge-All e [] p h = (p, tt)
  select_edge-All e (f ∷ xs) p h = ground (arith, select_edge-All e xs p h.1)

collapse_from-IsUsable :
    (edges selected xs out : List Edge)
    → All (IsUsable edges) selected
    → All (λ e. Memᴰ e edges) xs
    → collapse_from selected xs ≡ some out
    → All (IsUsable edges) out
unfolding collapse_from
collapse_from-IsUsable edges selected [] out s h c =
    subst (All (IsUsable edges)) (some-injective c) s
  where
    some-injective : {x y : List Edge} → some x ≡ some y → x ≡ y
    some-injective p = cc
collapse_from-IsUsable edges selected (e ∷ xs) out s h c =
    elim (Bool-cases (is_valid_rate e.rate)) [
      | inl valid ↦
          collapse_from-IsUsable edges (select_edge e selected) xs out
            (select_edge-All (IsUsable edges) e selected (h.0, valid) s) h.1 (rw valid at c)
      | inr invalid ↦ cc (rw invalid at c)
    ]

pub collapsed_edges-IsUsable :
    (edges out : List Edge) → collapsed_edges edges ≡ some out → All (IsUsable edges) out
unfolding collapsed_edges
collapsed_edges-IsUsable edges out c =
    collapse_from-IsUsable edges [] (sorted edges) out tt
      (sorted-All (λ e. Memᴰ e edges) edges (each-All _ edges (λ a m. m))) c

pub best_routes-IsRouted :
    (edges collapsed : List Edge) (source : Currency)
    → All (IsUsable edges) collapsed
    → IsRouted edges source (best_routes collapsed source)
unfolding best_routes
best_routes-IsRouted edges collapsed source u =
    relax_rounds-IsRouted edges source rounds ((source, (one, [])) ∷ []) collapsed u
      (record { follows = refl; is_product = refl; offered = tt }, tt)

-- What a quote for a currency promises.
abbrev pub IsQuote : List Edge → ℕ → Currency → Currency → RouteQuote → Type 0
IsQuote edges version source c q =
    (q.snapshot_version ≡ version)
    × (q.target ≡ c)
    × (c ≢ source)
    × IsRoute edges source c (q.aggregate_rate, q.hops)

quotes-IsQuote :
    (edges : List Edge) (version : ℕ) (source : Currency) (best : Best)
    → IsRouted edges source best
    → All (λ (c, q). IsQuote edges version source c q) (quotes version source best)
quotes-IsQuote edges version source [] r = tt
quotes-IsQuote edges version source ((c, candidate) ∷ best) r =
    elim (Bool-cases (same_currency c source)) [
      | inl same ↦ rw same (quotes-IsQuote edges version source best r.1)
      | inr differs ↦ rw differs (
        (refl, refl, (λ p. cc (differs, (same_currency_iff c source).1 p)), r.0),
        quotes-IsQuote edges version source best r.1,
      )
    ]

-- What a computation that goes through has found: the chosen edges, and a table that no edge improves.
pub computed :
    (edges : List Edge) (version : ℕ) (source : Currency) (routes : List (Currency × RouteQuote))
    → compute_routes edges version source ≡ some routes
    → (collapsed : List Edge) × (collapsed_edges edges ≡ some collapsed)
      × (exists
            (improves (best_routes collapsed source))
            (relax (best_routes collapsed source) collapsed)
          ≡ false)
      × (routes ≡ quotes version source (best_routes collapsed source))
unfolding compute_routes
computed edges version source routes h = ground arith

-- Whatever edges are offered, a quote of `compute_routes` is for a currency other than the source,
-- bears the version, and is a route: its hops lead from the source to the currency, each is an edge
-- that was offered at a finite and positive rate, and the aggregate rate is the product of the hops'
-- rates, rounded at each hop to 38 digits.
pub compute_routes-IsQuote :
    (edges : List Edge) (version : ℕ) (source : Currency) (routes : List (Currency × RouteQuote))
    (c : Currency) (q : RouteQuote)
    → compute_routes edges version source ≡ some routes
    → Memᴰ (c, q) routes
    → IsQuote edges version source c q
compute_routes-IsQuote edges version source routes c q h m =
    let (collapsed, e, stable, same) = computed edges version source routes h in
    each (λ (k, r). IsQuote edges version source k r)
      (quotes version source (best_routes collapsed source))
      (quotes-IsQuote edges version source (best_routes collapsed source)
        (best_routes-IsRouted edges collapsed source (collapsed_edges-IsUsable edges collapsed e)))
      (c, q) (subst (Memᴰ (c, q)) same m)

pub find_quote-mem :
    (c : Currency) (routes : List (Currency × RouteQuote)) (q : RouteQuote)
    → find_quote c routes ≡ some q
    → Memᴰ (c, q) routes
find_quote-mem c [] q h = cc
find_quote-mem c ((d, r) ∷ routes) q h = elim (Bool-cases (same_currency d c)) [
  | inl same ↦ Memᴰ.head (cc ((same_currency_iff d c).0 same, rw same at h))
  | inr differs ↦ Memᴰ.tail (find_quote-mem c routes q (rw differs at h))
]
