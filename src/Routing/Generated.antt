-- ===== src/Routing/Generated.antt =====
-- app/routing.py: the edges that the rate book's factory makes for a version, at precision 38.
pub mod Accepted
use netaro_settlement_router.Prelude.{
  ℕ, ◌*◌, ◌%◌, String, false, List, [], ◌∷◌, ◌++◌, map, if◌then◌else◌,
}
use netaro_settlement_router.Prelude.Int.{pos, negsuc, sub_ℕ}
use netaro_settlement_router.Decimal.{Decimal, finite, mul, add, div, of_int, one, routing_prec}
use netaro_settlement_router.Routing.Types.{Currency, usd, usdc, eur, php, aed, same_currency, Edge}

abbrev base_anchor : Currency → Decimal
base_anchor usd = one
base_anchor usdc = one
base_anchor eur = finite false 92 (negsuc 1)
base_anchor php = finite false 55 (pos 0)
base_anchor aed = finite false 367 (negsuc 1)

abbrev coefficient : Currency → ℕ
coefficient usd = 1
coefficient usdc = 2
coefficient eur = 3
coefficient php = 4
coefficient aed = 5

-- `(version * coefficients[currency]) % 7`
abbrev pub phase : ℕ → Currency → ℕ
phase version currency = (version * coefficient currency) % 7

pub anchor : ℕ → Currency → Decimal
anchor k currency =
    mul routing_prec (base_anchor currency)
      (add routing_prec one (div routing_prec (of_int (sub_ℕ k 3)) (finite false 10000 (pos 0))))

abbrev pub currencies : List Currency
currencies = usd ∷ usdc ∷ eur ∷ php ∷ aed ∷ []

abbrev lp_factors : List (String × Decimal)
lp_factors =
    ("LP_A", finite false 999 (negsuc 2))
    ∷ ("LP_B", finite false 998 (negsuc 2))
    ∷ ("LP_C", finite false 997 (negsuc 2))
    ∷ []

abbrev edges_between : Decimal → Currency → Currency → List Edge
edges_between ratio source target =
    map
      (λ (lp, factor). record {
        source = source;
        target = target;
        lp = lp;
        rate = mul routing_prec ratio factor;
      })
      lp_factors

abbrev edges_from : (Currency → Decimal) → Currency → List Currency → List Edge
edges_from anchors source [] = []
edges_from anchors source (target ∷ targets) =
    let rest = edges_from anchors source targets in
    if same_currency source target
    then rest
    else edges_between (div routing_prec (anchors target) (anchors source)) source target ++ rest

abbrev edges_of : (Currency → Decimal) → List Currency → List Edge
edges_of anchors [] = []
edges_of anchors (source ∷ sources) =
    edges_from anchors source currencies ++ edges_of anchors sources

-- `generate_edges`
pub generate_edges : ℕ → List Edge
unfolding anchor
generate_edges version = edges_of (λ c. anchor (phase version c) c) currencies
