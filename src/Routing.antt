-- ===== src/Routing.antt =====
-- app/routing.py: route computation over the edges of one snapshot, and the book that publishes
-- snapshots. Dictionaries are association lists in the order of insertion.
pub mod Types
pub mod Paths
pub mod Quotes
pub mod Book
pub mod Entries
pub mod Closed
pub mod Selection
pub mod Optimal
pub mod Generated
pub mod Publisher
use netaro_settlement_router.Prelude.{
  ℕ, zero, suc, ◌+◌, String, Bool, true, false, not, ◌&&◌, ◌||◌, Option, none, some, List, [], ◌∷◌,
  ◌++◌, map, str_eq, if◌then◌else◌, exists, select,
}
use netaro_settlement_router.Prelude.Text.{text_lt, sequence_lt}
use netaro_settlement_router.Decimal.{
  Decimal, mul, lt, le, eq, is_finite, one, dec_zero, routing_prec,
}
use netaro_settlement_router.Routing.Types.{
  Currency, usd, usdc, eur, php, aed, same_currency, Edge, RouteHop, RouteQuote,
}
use netaro_settlement_router.Database.{Error, route_not_found, Result, ok, err}

abbrev pub currency_value : Currency → String
currency_value usd = "USD"
currency_value usdc = "USDC"
currency_value eur = "EUR"
currency_value php = "PHP"
currency_value aed = "AED"

-- `(source.value, target.value, lp)`, as a sort key and in `_hop_key`.
abbrev pub HopKey : Type 0
HopKey = List String

abbrev pub edge_key : Edge → HopKey
edge_key e = currency_value e.source ∷ currency_value e.target ∷ e.lp ∷ []

abbrev pub hop_key : List RouteHop → List HopKey
hop_key hops = map (λ h. currency_value h.source ∷ currency_value h.target ∷ h.lp ∷ []) hops

abbrev key_lt : HopKey → HopKey → Bool
key_lt = sequence_lt text_lt str_eq

abbrev same_key : HopKey → HopKey → Bool
same_key a b = not (key_lt a b) && not (key_lt b a)

abbrev pub Candidate : Type 0
Candidate = Decimal × List RouteHop

-- `_is_better`
unfoldable pub is_better : Candidate → Option Candidate → Bool
is_better candidate none = true
is_better candidate (some current) =
    lt current.0 candidate.0
    || (eq candidate.0 current.0
        && sequence_lt key_lt same_key (hop_key candidate.1) (hop_key current.1))

-- `sorted(edges, key=...)` is stable: an edge goes behind those with an equal key.
unfoldable pub insert_sorted : Edge → List Edge → List Edge
insert_sorted e [] = e ∷ []
insert_sorted e (f ∷ edges) =
    let rest = insert_sorted e edges in
    if key_lt (edge_key f) (edge_key e) then f ∷ rest else e ∷ f ∷ edges

unfoldable pub sorted : List Edge → List Edge
unfolding insert_sorted
sorted [] = []
sorted (e ∷ edges) = insert_sorted e (sorted edges)

abbrev pub is_valid_rate : Decimal → Bool
is_valid_rate rate = is_finite rate && not (le rate dec_zero)

abbrev pub same_pair : Edge → Edge → Bool
same_pair e f = same_currency e.source f.source && same_currency e.target f.target

-- The dictionary `selected`, by (source, target): a better edge takes the place of the one there.
unfoldable pub select_edge : Edge → List Edge → List Edge
select_edge e [] = e ∷ []
select_edge e (f ∷ selected) =
    let rest = select_edge e selected in
    if same_pair f e then (if lt f.rate e.rate then e else f) ∷ selected else f ∷ rest

-- The loop of `_collapsed_edges`; `none` is InvalidRateGraph.
unfoldable pub collapse_from : List Edge → List Edge → Option (List Edge)
unfolding select_edge
collapse_from selected [] = some selected
collapse_from selected (e ∷ edges) =
    let rest = collapse_from (select_edge e selected) edges in
    if is_valid_rate e.rate then rest else none

unfoldable pub collapsed_edges : List Edge → Option (List Edge)
unfolding collapse_from sorted
collapsed_edges edges = collapse_from [] (sorted edges)

abbrev pub Best : Type 0
Best = List (Currency × Candidate)

abbrev pub find : Currency → Best → Option Candidate
find c [] = none
find c ((d, candidate) ∷ best) = if same_currency d c then some candidate else find c best

abbrev pub put : Currency → Candidate → Best → Best
put c candidate [] = (c, candidate) ∷ []
put c candidate ((d, old) ∷ best) =
    let rest = put c candidate best in
    if same_currency d c then (d, candidate) ∷ best else (d, old) ∷ rest

abbrev pub hop_of : Edge → RouteHop
hop_of e = record { source = e.source; target = e.target; lp = e.lp; rate = e.rate }

abbrev pub extend : Candidate → Edge → Candidate
extend (rate, hops) e = (mul routing_prec rate e.rate, hops ++ hop_of e ∷ [])

-- One edge of `_relax`: the source is looked up in `best`, the target in `next_best`.
unfoldable pub relax_edge : Best → Edge → Best → Best
relax_edge best e next_best = elim (find e.source best) [
  | none ↦ next_best
  | some source ↦
      if is_better (extend source e) (find e.target next_best)
      then put e.target (extend source e) next_best
      else next_best
]

unfoldable pub relax_from : Best → List Edge → Best → Best
relax_from best [] next_best = next_best
relax_from best (e ∷ edges) next_best = relax_from best edges (relax_edge best e next_best)

-- `_relax`
abbrev pub relax : Best → List Edge → Best
relax best edges = relax_from best edges best

abbrev same_hop : RouteHop → RouteHop → Bool
same_hop g h =
    same_currency g.source h.source
    && (same_currency g.target h.target && (str_eq g.lp h.lp && eq g.rate h.rate))

abbrev same_hops : List RouteHop → List RouteHop → Bool
same_hops [] [] = true
same_hops (g ∷ gs) (h ∷ hs) = same_hop g h && same_hops gs hs
same_hops _ _ = false

abbrev same_candidate : Candidate → Option Candidate → Bool
same_candidate a none = false
same_candidate a (some b) = eq a.0 b.0 && same_hops a.1 b.1

-- `next_best == best`: relaxation drops no key, so the keys of the one are among the other's.
abbrev same_best : Best → Best → Bool
same_best next_best best =
    not (exists (λ (c, candidate). not (same_candidate candidate (find c best))) next_best)

-- `for _ in range(rounds)`, with its `break`.
unfoldable pub relax_rounds : ℕ → Best → List Edge → Best
unfolding relax_from relax_edge is_better
relax_rounds zero best edges = best
relax_rounds (suc rounds) best edges =
    let next_best = relax best edges in
    let rest = relax_rounds rounds next_best edges in
    if same_best next_best best then best else rest

-- One more relaxation improves a rate, or reaches another currency.
abbrev improves : Best → Currency × Candidate → Bool
improves best (c, candidate) = elim (find c best) [
  | none ↦ true
  | some current ↦ lt current.0 candidate.0
]

abbrev pub quotes : ℕ → Currency → Best → List (Currency × RouteQuote)
quotes version source [] = []
quotes version source ((c, (rate, hops)) ∷ best) =
    let rest = quotes version source best in
    let quote : RouteQuote = record {
      snapshot_version = version;
      target = c;
      aggregate_rate = rate;
      hops = hops;
    } in
    if same_currency c source then rest else (c, quote) ∷ rest

-- `len(Currency) - 1`
abbrev pub rounds : ℕ
rounds = 4

unfoldable pub best_routes : List Edge → Currency → Best
unfolding relax_rounds
best_routes collapsed source = relax_rounds rounds ((source, (one, [])) ∷ []) collapsed

-- `compute_routes`, in the context of precision 38; `none` is InvalidRateGraph.
unfoldable pub compute_routes : List Edge → ℕ → Currency → Option (List (Currency × RouteQuote))
unfolding collapsed_edges best_routes
compute_routes edges version source = elim (collapsed_edges edges) [
  | none ↦ none
  | some collapsed ↦
      let best = best_routes collapsed source in
      if exists (improves best) (relax best collapsed)
      then none
      else some (quotes version source best)
]

pub record RateSnapshot : Type 0 where
  pub version : ℕ
  pub routes : List (Currency × RouteQuote)

-- `RateBook`, less its task, which Routing/Publisher adds.
pub record RateBook : Type 0 where
  pub snapshot : Option RateSnapshot

-- `publish`: an invalid graph raises before the snapshot is replaced.
unfoldable pub publish : List Edge → ℕ → RateBook → Option RateSnapshot × RateBook
publish edges version book = elim (compute_routes edges version usd) [
  | none ↦ (none, book)
  | some routes ↦
      let snapshot : RateSnapshot = record { version = version; routes = routes } in
      (some snapshot, record { snapshot = some snapshot })
]

abbrev pub find_quote : Currency → List (Currency × RouteQuote) → Option RouteQuote
find_quote c [] = none
find_quote c ((d, q) ∷ routes) = if same_currency d c then some q else find_quote c routes

unfoldable pub quote : Currency → RateBook → Result RouteQuote
quote target book = elim book.snapshot [
  | none ↦ err route_not_found
  | some snapshot ↦ elim (find_quote target snapshot.routes) [
    | none ↦ err route_not_found
    | some q ↦ ok q
  ]
]

-- One turn of `_run`, with the edges that the factory gives for the next version. An error ends
-- the task.
unfoldable pub run_once : (ℕ → List Edge) → RateBook → Option RateSnapshot × RateBook
unfolding publish
run_once edge_factory book = elim book.snapshot [
  | none ↦ (none, book)
  | some snapshot ↦ publish (edge_factory (snapshot.version + 1)) (snapshot.version + 1) book
]
