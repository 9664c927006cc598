-- ===== src/Routing/Book.antt =====
-- app/routing.py: the rate book over any sequence of publications and turns, refused ones included.
use netaro_settlement_router.Prelude.{
  ◌↔◌, sym, ap, ◌∙◌, Bool, true, false, [], ◌∷◌, refl, if◌then◌else◌, ℕ, ◌+◌, ◌≡◌, subst, inl, inr,
  Option, none, some, List, arith, Option-cases,
}
use netaro_settlement_router.Routing.Types.{Currency, usd, Edge, RouteQuote}
use netaro_settlement_router.Database.{ok, err, route_not_found}
use netaro_settlement_router.Routing.{
  compute_routes, RateSnapshot, RateBook, publish, find_quote, quote, run_once,
}
use netaro_settlement_router.Routing.Quotes.{IsQuote, compute_routes-IsQuote, find_quote-mem}

-- A call of `publish`, and a turn of `_run` with an edge factory.
pub data Event : Type 0 where
  published : List Edge → ℕ → Event
  turned : (ℕ → List Edge) → Event

abbrev pub after_event : Event → RateBook → RateBook
after_event (published edges version) book = (publish edges version book).1
after_event (turned edge_factory) book = (run_once edge_factory book).1

-- The book after events, the last of them first in the list.
abbrev pub book_after : List Event → RateBook
book_after [] = record { snapshot = none }
book_after (e ∷ events) = after_event e (book_after events)

-- What the book should serve: the last publication whose graph was accepted. A publication is its
-- edges and its version; a turn publishes under the version after the last accepted one.
abbrev pub Publication : Type 0
Publication = List Edge × ℕ

pub is_accepted : Publication → Bool
is_accepted (edges, version) = elim (compute_routes edges version usd) [
  | none ↦ false
  | some routes ↦ true
]

abbrev pub supersede : Option Publication → Publication → Option Publication
supersede last new = if is_accepted new then some new else last

abbrev pub turn_of : (ℕ → List Edge) → Option Publication → Option Publication
turn_of edge_factory none = none
turn_of edge_factory (some (edges, version)) =
    supersede (some (edges, version)) (edge_factory (version + 1), version + 1)

abbrev pub last_accepted : List Event → Option Publication
last_accepted [] = none
last_accepted (published edges version ∷ events) = supersede (last_accepted events) (edges, version)
last_accepted (turned edge_factory ∷ events) = turn_of edge_factory (last_accepted events)

-- The snapshot is that of the last accepted publication.
abbrev Serves : Option Publication → Option RateSnapshot → Type 0
Serves none none = Unit
Serves (some (edges, version)) (some snapshot) =
    (snapshot.version ≡ version) × (compute_routes edges version usd ≡ some snapshot.routes)
Serves _ _ = ⊥

publish-Serves :
    (last : Option Publication) (edges : List Edge) (version : ℕ) (book : RateBook)
    → Serves last book.snapshot
    → Serves (supersede last (edges, version)) (publish edges version book).1.snapshot
unfolding is_accepted publish
publish-Serves last edges version book h = elim (Option-cases (compute_routes edges version usd)) [
  | inl invalid ↦ rw (invalid, is_accepted, publish) h
  | inr (routes, valid) ↦ rw (valid, is_accepted, publish) (refl, valid)
]

turn-Serves :
    (last : Option Publication) (edge_factory : ℕ → List Edge) (snapshot : Option RateSnapshot)
    → Serves last snapshot
    → Serves
        (turn_of edge_factory last)
        (run_once edge_factory (record { snapshot = snapshot })).1.snapshot
unfolding run_once
turn-Serves none edge_factory none h = h
turn-Serves (some (edges, version)) edge_factory (some s) (same, valid) =
    subst
      (λ v.
        Serves (supersede (some (edges, version)) (edge_factory (v + 1), v + 1))
          (publish (edge_factory (s.version + 1)) (s.version + 1)
            (record { snapshot = some s })).1.snapshot)
      same
      (publish-Serves (some (edges, version)) (edge_factory (s.version + 1)) (s.version + 1)
        (record { snapshot = some s }) (same, valid))
turn-Serves none edge_factory (some s) h = elim h [ ]
turn-Serves (some (edges, version)) edge_factory none h = elim h [ ]

book_after-Serves :
    (events : List Event) → Serves (last_accepted events) (book_after events).snapshot
book_after-Serves [] = tt
book_after-Serves (published edges version ∷ events) =
    publish-Serves (last_accepted events) edges version (book_after events)
      (book_after-Serves events)
book_after-Serves (turned edge_factory ∷ events) =
    turn-Serves (last_accepted events) edge_factory (book_after events).snapshot
      (book_after-Serves events)

-- What is promised for a currency after a publication.
abbrev pub IsPromised : Option Publication → Currency → RouteQuote → Type 0
IsPromised last c q =
    (edges : List Edge) × (version : ℕ) × (routes : List (Currency × RouteQuote)) × (last
      ≡ some (edges, version))
    × (compute_routes edges version usd ≡ some routes)
    × (find_quote c routes ≡ some q)
    × IsQuote edges version usd c q

quote-IsPromised :
    (last : Option Publication) (snapshot : Option RateSnapshot) (c : Currency) (q : RouteQuote)
    → Serves last snapshot
    → quote c (record { snapshot = snapshot }) ≡ ok q
    → IsPromised last c q
unfolding quote
quote-IsPromised none none c q h e = cc
quote-IsPromised (some (edges, version)) (some s) c q (same, valid) e =
    let at = found (find_quote c s.routes) e in
    (
      edges,
      version,
      s.routes,
      refl,
      valid,
      at,
      compute_routes-IsQuote edges version usd s.routes c q valid (find_quote-mem c s.routes q at),
    )
  where
    found :
        (o : Option RouteQuote)
        → elim o [ none ↦ err route_not_found | some r ↦ ok r ] ≡ ok q
        → o ≡ some q
    found o e = ground arith
quote-IsPromised none (some s) c q h e = elim h [ ]
quote-IsPromised (some p) none c q h e = elim h [ ]

IsPromised-quote :
    (last : Option Publication) (snapshot : Option RateSnapshot) (c : Currency) (q : RouteQuote)
    → Serves last snapshot
    → IsPromised last c q
    → quote c (record { snapshot = snapshot }) ≡ ok q
unfolding quote
IsPromised-quote none snapshot c q h (edges, version, routes, at, computes, found, offered) = cc
IsPromised-quote (some (old, v)) (some s) c q (same, valid)
      (edges, version, routes, at, computes, found, offered) =
    let edges_same : old ≡ edges = cc at in
    let version_same : v ≡ version = cc at in
    let routes_same : s.routes ≡ routes = cc (sym valid, computes, edges_same, version_same) in
    let at_c : find_quote c s.routes ≡ some q = ap (find_quote c) routes_same ∙ found in
    rw (at_c, quote) refl
IsPromised-quote (some p) none c q h m = elim h [ ]

-- However often the book has been published, by `publish` and by the turns of its task, and whichever
-- publications were refused: it serves a quote for a currency exactly if the last publication that was
-- accepted has computed it. The quote is then one over the edges of that publication, and bears its
-- version.
pub quote_iff_last_accepted :
    (events : List Event) (c : Currency) (q : RouteQuote)
    → (quote c (book_after events) ≡ ok q) ↔ IsPromised (last_accepted events) c q
quote_iff_last_accepted events c q =
    let serves = book_after-Serves events in
    (
      quote-IsPromised (last_accepted events) (book_after events).snapshot c q serves,
      IsPromised-quote (last_accepted events) (book_after events).snapshot c q serves,
    )
