-- ===== src/Routing/Generated/Accepted.antt =====
-- app/routing.py: the graphs of the rate book's own factory.
use netaro_settlement_router.Prelude.{
  ℕ, suc, zero, ◌%◌, ◌<◌, ◌≡◌, refl, ap, ◌∙◌, Bool, true, false, ◌&&◌, Option, none, some, List,
  arith,
}
use netaro_settlement_router.Prelude.Text.{text_lt}
use netaro_settlement_router.Prelude.Int.{◌+ℤ◌, ◌-ℤ◌}
use mathlib.Core.Bool.{xor}
use mathlib.Core.Path.{fun_ext}
use netaro_settlement_router.Decimal.{Decimal, mul, add, div, lt, le, eq}
use netaro_settlement_router.Routing.Types.{Currency, usd, usdc, eur, php, aed, RouteQuote, Edge}
use netaro_settlement_router.Routing.{
  is_better, insert_sorted, sorted, select_edge, collapse_from, collapsed_edges, relax_edge,
  relax_from, relax_rounds, best_routes, compute_routes, find_quote,
}
use netaro_settlement_router.Routing.Generated.{anchor, generate_edges, phase, edges_of, currencies}

abbrev pub has_quote : List (Currency × RouteQuote) → Currency → Bool
has_quote routes c = elim (find_quote c routes) [ none ↦ false | some q ↦ true ]

abbrev pub serves_all : Option (List (Currency × RouteQuote)) → Bool
serves_all none = false
serves_all (some routes) =
    has_quote routes usdc
    && (has_quote routes eur && (has_quote routes php && has_quote routes aed))

-- The remainders of a version by 7, one by one.
served_at :
    (r version : ℕ) → r < 7 → serves_all (compute_routes (generate_edges r) version usd) ≡ true
unfolding generate_edges anchor mul add div compute_routes collapsed_edges collapse_from sorted
    insert_sorted select_edge best_routes relax_rounds relax_from relax_edge is_better lt le eq ◌+ℤ◌
    ◌-ℤ◌ text_lt xor
served_at zero version h = refl
served_at (suc zero) version h = refl
served_at (suc (suc zero)) version h = refl
served_at (suc (suc (suc zero))) version h = refl
served_at (suc (suc (suc (suc zero)))) version h = refl
served_at (suc (suc (suc (suc (suc zero))))) version h = refl
served_at (suc (suc (suc (suc (suc (suc zero)))))) version h = refl
served_at (suc (suc (suc (suc (suc (suc (suc r))))))) version h = absurd (omega (arith, h))

phase-mod : (version : ℕ) (c : Currency) → phase version c ≡ phase (version % 7) c
phase-mod version usd = omega arith
phase-mod version usdc = omega arith
phase-mod version eur = omega arith
phase-mod version php = omega arith
phase-mod version aed = omega arith

generate_edges-mod : (version : ℕ) → generate_edges version ≡ generate_edges (version % 7)
unfolding generate_edges
generate_edges-mod version =
    ap (λ (anchors : Currency → Decimal). edges_of anchors currencies)
      (fun_ext (λ c. ap (λ (k : ℕ). anchor k c) (phase-mod version c)))

-- For every version, the graph has routes to every other currency.
pub generated-served :
    (version : ℕ) → serves_all (compute_routes (generate_edges version) version usd) ≡ true
generated-served version =
    ap (λ (edges : List Edge). serves_all (compute_routes edges version usd))
      (generate_edges-mod version)
    ∙ served_at (version % 7) version (omega arith)
