-- ===== src/Tests/Rates.antt =====
-- A small rate graph, its routes and the book that serves them.
use netaro_settlement_router.Prelude.{
  ℕ, ◌≡◌, ◌↔◌, refl, true, All, false, some, List, [], ◌∷◌, Memᴰ,
}
use netaro_settlement_router.Prelude.Text.{text_lt}
use mathlib.Core.Bool.{xor}
use netaro_settlement_router.Prelude.Int.{negsuc, ◌+ℤ◌, ◌-ℤ◌}
use netaro_settlement_router.Decimal.{nan, finite, mul, lt, le, eq, one}
use netaro_settlement_router.Routing.Types.{Currency, usd, usdc, php, Edge, RouteQuote, RouteHop}
use netaro_settlement_router.Database.{ok}
use netaro_settlement_router.Routing.{
  hop_of, is_better, insert_sorted, sorted, select_edge, collapse_from, collapsed_edges, relax_edge,
  relax_from, relax_rounds, best_routes, compute_routes, publish, quote, find_quote, is_valid_rate,
}
use netaro_settlement_router.Routing.Quotes.{IsQuote, compute_routes-IsQuote}
use netaro_settlement_router.Routing.Generated.{generate_edges}
use netaro_settlement_router.Routing.Publisher.{
  Publisher, running, ended, start, stop, turn, new_publisher, Operated,
}
use netaro_settlement_router.Routing.Publisher.Standard.{start-serves}
use netaro_settlement_router.Routing.Paths.{Follows, IsOffered, product_from}
use netaro_settlement_router.Routing.Selection.{IsCovered, collapsed_edges-covers}
use netaro_settlement_router.Routing.Optimal.{quote-best, quoted_iff_reachable}
use netaro_settlement_router.Routing.Book.{
  Event, published, book_after, last_accepted, IsPromised, quote_iff_last_accepted,
}

abbrev edge : Currency → Currency → ℕ → Edge
edge source target tenths = record {
  source = source;
  target = target;
  lp = "LP_A";
  rate = finite false tenths (negsuc 0);
}

abbrev direct : Edge
direct = edge usd php 540

abbrev first_leg : Edge
first_leg = edge usd usdc 10

abbrev second_leg : Edge
second_leg = edge usdc php 550

abbrev offers : List Edge
offers = direct ∷ first_leg ∷ second_leg ∷ []

-- The route over USDC gives 55 pesos for a dollar, the direct one 54.
abbrev best_quote : RouteQuote
best_quote = record {
  snapshot_version = 3;
  target = php;
  aggregate_rate = finite false 5500 (negsuc 1);
  hops = hop_of first_leg ∷ hop_of second_leg ∷ [];
}

abbrev usdc_quote : RouteQuote
usdc_quote = record {
  snapshot_version = 3;
  target = usdc;
  aggregate_rate = finite false 10 (negsuc 0);
  hops = hop_of first_leg ∷ [];
}

computed_routes : compute_routes offers 3 usd ≡ some ((php, best_quote) ∷ (usdc, usdc_quote) ∷ [])
unfolding compute_routes collapsed_edges collapse_from sorted insert_sorted select_edge best_routes
    relax_rounds relax_from relax_edge is_better mul lt le eq ◌+ℤ◌ ◌-ℤ◌ text_lt xor
computed_routes = refl

compute_routes-IsQuote_example : IsQuote offers 3 usd php best_quote
compute_routes-IsQuote_example =
    compute_routes-IsQuote offers 3 usd ((php, best_quote) ∷ (usdc, usdc_quote) ∷ []) php best_quote
      computed_routes (Memᴰ.head refl)

abbrev routes : List (Currency × RouteQuote)
routes = (php, best_quote) ∷ (usdc, usdc_quote) ∷ []

direct_valid : is_valid_rate direct.rate ≡ true
unfolding le ◌-ℤ◌
direct_valid = refl

quote-best_example :
    (q : RouteQuote) × (find_quote php routes ≡ some q)
    × (le (product_from one (hop_of direct ∷ [])) q.aggregate_rate ≡ true)
quote-best_example =
    quote-best offers 3 usd routes php (hop_of direct ∷ []) computed_routes refl (refl, refl)
      ((direct, Memᴰ.head refl, direct_valid, refl), tt)

quoted_iff_reachable_example :
    ((q : RouteQuote) × (find_quote php routes ≡ some q))
    ↔ ((hops : List RouteHop) × Follows usd hops php × All (IsOffered offers) hops)
quoted_iff_reachable_example = quoted_iff_reachable offers 3 usd routes php computed_routes refl

-- A second liquidity provider asks more for the same pair.
abbrev dearer : Edge
dearer = record (edge usd php 530) { lp = "LP_B" }

collapsed_pair : collapsed_edges (dearer ∷ direct ∷ []) ≡ some (direct ∷ [])
unfolding collapsed_edges collapse_from sorted insert_sorted select_edge lt le ◌-ℤ◌ text_lt xor
collapsed_pair = refl

collapsed_edges-covers_example : IsCovered dearer (direct ∷ [])
collapsed_edges-covers_example =
    collapsed_edges-covers (dearer ∷ direct ∷ []) (direct ∷ []) dearer collapsed_pair
      (Memᴰ.head refl)

-- The first publication, and a second one that is refused: its only edge has no valid rate.
abbrev events : List Event
events = published (record direct { rate = nan } ∷ []) 4 ∷ published offers 3 ∷ []

quoted : quote php (book_after events) ≡ ok best_quote
unfolding quote publish compute_routes collapsed_edges collapse_from sorted insert_sorted
    select_edge best_routes relax_rounds relax_from relax_edge is_better mul lt le eq ◌+ℤ◌ ◌-ℤ◌
    text_lt xor
quoted = refl

quote_iff_last_accepted_example :
    (quote php (book_after events) ≡ ok best_quote)
    ↔ IsPromised (last_accepted events) php best_quote
quote_iff_last_accepted_example = quote_iff_last_accepted events php best_quote

-- A standard rate book that has been started, has published once more, and has been stopped.
abbrev standard : Publisher
standard = (stop (turn generate_edges (start generate_edges new_publisher).1)).1

standard-Operated : Operated generate_edges standard
standard-Operated = Operated.by_stop (Operated.by_turn (Operated.by_start Operated.made))

start-serves_example :
    (¬ (standard.task ≡ ended))
    × ((start generate_edges standard).0 ≡ some tt)
    × ((start generate_edges standard).1.task ≡ running)
    × ((turn generate_edges (start generate_edges standard).1).task ≡ running)
    × (q : RouteQuote) × (quote php (start generate_edges standard).1.book ≡ ok q)
start-serves_example = start-serves standard php standard-Operated refl
