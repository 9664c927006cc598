-- ===== src/Routing/Publisher/Standard.antt =====
-- app/routing.py: the rate book with its own factory, `generate_edges`.
use netaro_settlement_router.Prelude.{
  ℕ, ◌+◌, ◌≡◌, refl, sym, ap, ◌∙◌, subst, Option, none, some, List, arith, true, false,
}
use netaro_settlement_router.Routing.Types.{
  Currency, usd, usdc, eur, php, aed, RouteQuote, same_currency,
}
use netaro_settlement_router.Database.{ok, err, route_not_found}
use netaro_settlement_router.Routing.{
  RateSnapshot, RateBook, publish, run_once, compute_routes, quote, find_quote,
}
use netaro_settlement_router.Routing.Generated.{generate_edges}
use netaro_settlement_router.Routing.Generated.Accepted.{serves_all, has_quote, generated-served}
use netaro_settlement_router.Routing.Publisher.{
  Publisher, TaskState, absent, running, ended, start, stop, turn, create_task, task_after,
  Operated, made, by_publish, by_start, by_stop, by_turn,
}

-- The outcome of a publication that went through.
abbrev pub published : RateSnapshot → Option RateSnapshot × RateBook
published s = (some s, record { snapshot = some s })

abbrev pub AllServed : RateSnapshot → Type 0
AllServed s = serves_all (some s.routes) ≡ true

-- A publication of the standard edges goes through and serves every currency.
pub publish-generated :
    (version : ℕ) (book : RateBook)
    → (s : RateSnapshot) × (publish (generate_edges version) version book ≡ published s)
      × AllServed s
unfolding publish
publish-generated version book = served (compute_routes (generate_edges version) version usd) refl
  where
    served :
        (r : Option (List (Currency × RouteQuote)))
        → compute_routes (generate_edges version) version usd ≡ r
        → (s : RateSnapshot) × (publish (generate_edges version) version book ≡ published s)
          × AllServed s
    served none h = cc (generated-served version, ap serves_all h)
    served (some routes) h = (
      record { version = version; routes = routes },
      rw (h, publish) refl,
      sym (ap serves_all h) ∙ generated-served version,
    )

-- No snapshot and no task yet, or a snapshot that serves every currency and a task that no exception
-- has ended.
abbrev IsServing : Option RateSnapshot → TaskState → Type 0
IsServing none absent = Unit
IsServing none running = ⊥
IsServing none ended = ⊥
IsServing (some s) absent = AllServed s
IsServing (some s) running = AllServed s
IsServing (some s) ended = ⊥

-- A new snapshot that serves every currency takes the place of the old.
replaced-IsServing :
    (old : Option RateSnapshot) (task : TaskState) (s : RateSnapshot)
    → IsServing old task
    → AllServed s
    → IsServing (some s) task
replaced-IsServing old absent s h all = all
replaced-IsServing old running s h all = all
replaced-IsServing none ended s h all = h
replaced-IsServing (some o) ended s h all = h

publish-IsServing :
    (version : ℕ) (book : RateBook) (task : TaskState)
    → IsServing book.snapshot task
    → IsServing (publish (generate_edges version) version book).1.snapshot task
publish-IsServing version book task h =
    let (s, e, all) = publish-generated version book in
    subst (λ (r : Option RateSnapshot × RateBook). IsServing r.1.snapshot task) (sym e)
      (replaced-IsServing book.snapshot task s h all)

publisher_of : Option RateSnapshot → TaskState → Publisher
publisher_of snapshot task = record { book = record { snapshot = snapshot }; task = task }

-- `start` leaves a running task, over a snapshot that serves every currency.
Started : Option (Unit {0}) × Publisher → Type 0
Started r = (s : RateSnapshot) × (r ≡ (some tt, publisher_of (some s) running)) × AllServed s

start-Started :
    (snapshot : Option RateSnapshot) (task : TaskState)
    → IsServing snapshot task
    → Started (start generate_edges (publisher_of snapshot task))
unfolding start publisher_of Started
start-Started none absent h =
    let (s, e, all) = publish-generated 1 (record { snapshot = none }) in
    (s, ap (λ r. create_task r (publisher_of none absent)) e, all)
start-Started (some s) absent h = (s, refl, h)
start-Started (some s) running h = (s, refl, h)
start-Started none running h = elim h [ ]
start-Started none ended h = elim h [ ]
start-Started (some s) ended h = elim h [ ]

-- The publisher after a turn of the task whose publication had this outcome.
abbrev turned : Option RateSnapshot × RateBook → Publisher
turned r = record { book = r.1; task = task_after r.0 }

-- A turn of a running task keeps it running, and serves every currency afresh.
Turned : Publisher → Type 0
Turned p = (s : RateSnapshot) × (p ≡ publisher_of (some s) running) × AllServed s

turn-Turned : (s : RateSnapshot) → Turned (turn generate_edges (publisher_of (some s) running))
unfolding turn run_once publisher_of Turned
turn-Turned s =
    let (t, e, all) = publish-generated (s.version + 1) (record { snapshot = some s }) in
    (t, ap turned e, all)

turn-IsServing :
    (snapshot : Option RateSnapshot) (task : TaskState)
    → IsServing snapshot task
    → (p : Publisher) × (turn generate_edges (publisher_of snapshot task) ≡ p)
      × IsServing p.book.snapshot p.task
unfolding turn publisher_of Turned
turn-IsServing none absent h = (publisher_of none absent, refl, h)
turn-IsServing (some s) absent h = (publisher_of (some s) absent, refl, h)
turn-IsServing (some s) running h =
    let (t, e, all) = turn-Turned s in (publisher_of (some t) running, e, all)
turn-IsServing none running h = elim h [ ]
turn-IsServing none ended h = elim h [ ]
turn-IsServing (some s) ended h = elim h [ ]

stop-IsServing :
    (snapshot : Option RateSnapshot) (task : TaskState)
    → IsServing snapshot task
    → (p : Publisher) × ((stop (publisher_of snapshot task)).1 ≡ p)
      × IsServing p.book.snapshot p.task
unfolding stop publisher_of
stop-IsServing none absent h = (publisher_of none absent, refl, h)
stop-IsServing (some s) absent h = (publisher_of (some s) absent, refl, h)
stop-IsServing (some s) running h = (publisher_of (some s) absent, refl, h)
stop-IsServing none running h = elim h [ ]
stop-IsServing none ended h = elim h [ ]
stop-IsServing (some s) ended h = elim h [ ]

abbrev Serving : Publisher → Type 0
Serving p = IsServing p.book.snapshot p.task

Serving-alive :
    (snapshot : Option RateSnapshot) (task : TaskState) → IsServing snapshot task → ¬ (task ≡ ended)
Serving-alive snapshot absent h e = cc
Serving-alive snapshot running h e = cc
Serving-alive none ended h e = h
Serving-alive (some s) ended h e = h

Operated-IsServing : {p : Publisher} → Operated generate_edges p → Serving p
unfolding publisher_of Started
Operated-IsServing made = tt
Operated-IsServing (by_publish {p} o version) =
    publish-IsServing version p.book p.task (Operated-IsServing o)
Operated-IsServing (by_start {p} o) =
    let (s, e, all) = start-Started p.book.snapshot p.task (Operated-IsServing o) in
    subst (λ r. Serving r.1) (sym e) all
Operated-IsServing (by_stop {p} o) =
    let (q, e, h) = stop-IsServing p.book.snapshot p.task (Operated-IsServing o) in
    subst Serving (sym e) h
Operated-IsServing (by_turn {p} o) =
    let (q, e, h) = turn-IsServing p.book.snapshot p.task (Operated-IsServing o) in
    subst Serving (sym e) h

has_quote-served :
    (routes : List (Currency × RouteQuote)) (c : Currency)
    → serves_all (some routes) ≡ true
    → same_currency c usd ≡ false
    → has_quote routes c ≡ true
has_quote-served routes usd h e = cc
has_quote-served routes usdc h e = ground arith
has_quote-served routes eur h e = ground arith
has_quote-served routes php h e = ground arith
has_quote-served routes aed h e = ground arith

quote-served :
    (s : RateSnapshot) (c : Currency)
    → AllServed s
    → same_currency c usd ≡ false
    → (q : RouteQuote) × (quote c (record { snapshot = some s }) ≡ ok q)
unfolding quote
quote-served s c all e = found (find_quote c s.routes) (has_quote-served s.routes c all e)
  where
    found :
        (o : Option RouteQuote)
        → elim o [ none ↦ false | some q ↦ true ] ≡ true
        → (q : RouteQuote) × (elim o [ none ↦ err route_not_found | some r ↦ ok r ] ≡ ok q)
    found none h = cc
    found (some q) h = (q, refl)

-- Whatever publications of the standard edges, starts, stops and turns there have been, no exception
-- has ended the task of the rate book. From there `start` returns and leaves the task running, the
-- next turn does not end it, and the book quotes each currency but USD after `start`.
pub start-serves :
    (p : Publisher) (c : Currency)
    → Operated generate_edges p
    → same_currency c usd ≡ false
    → (¬ (p.task ≡ ended))
      × ((start generate_edges p).0 ≡ some tt)
      × ((start generate_edges p).1.task ≡ running)
      × ((turn generate_edges (start generate_edges p).1).task ≡ running)
      × (q : RouteQuote) × (quote c (start generate_edges p).1.book ≡ ok q)
unfolding publisher_of Started Turned
start-serves p c o e =
    let h = Operated-IsServing o in
    let (s, started, all) = start-Started p.book.snapshot p.task h in
    let (t, again, all_again) = turn-Turned s in
    let (q, quoted) = quote-served s c all e in
    (
      Serving-alive p.book.snapshot p.task h,
      ap (λ r. r.0) started,
      ap (λ r. r.1.task) started,
      ap (λ r. (turn generate_edges r.1).task) started ∙ ap (λ r. r.task) again,
      q,
      ap (λ r. quote c r.1.book) started ∙ quoted,
    )
