-- ===== src/Routing/Publisher.antt =====
-- app/routing.py: the task of the rate book that republishes, with `start` and `stop`. A turn of the
-- task is one round of the loop in `_run`. `none` is an exception: InvalidRateGraph.
pub mod Standard
use netaro_settlement_router.Prelude.{
  ℕ, ◌+◌, ◌≡◌, refl, sym, ap, subst, Option, none, some, List, arith, Bool, true, false,
}
use netaro_settlement_router.Routing.Types.{Edge}
use netaro_settlement_router.Routing.{RateSnapshot, RateBook, publish, run_once}

-- `_task`: None, a task that is not done, and one that an exception has ended.
pub data TaskState : Type 0 where
  absent running ended : TaskState

pub record Publisher : Type 0 where
  pub book : RateBook
  pub task : TaskState

abbrev pub create_task : Option RateSnapshot × RateBook → Publisher → Option (Unit {0}) × Publisher
create_task (none, book) p = (none, p)
create_task (some snapshot, book) p = (some tt, record { book = book; task = running })

-- The first publication, if there is none, and the new task.
abbrev start_task :
    (ℕ → List Edge) → Option RateSnapshot → Publisher → Option (Unit {0}) × Publisher
start_task edge_factory none p = create_task (publish (edge_factory 1) 1 p.book) p
start_task edge_factory (some snapshot) p = (some tt, record p { task = running })

-- `start`
unfoldable pub start : (ℕ → List Edge) → Publisher → Option (Unit {0}) × Publisher
start edge_factory p = elim p.task [
  | running ↦ (some tt, p)
  | absent ↦ start_task edge_factory p.book.snapshot p
  | ended ↦ start_task edge_factory p.book.snapshot p
]

-- `stop`: a task that is there is cancelled and awaited. Awaiting a task that an exception has ended
-- raises it, before the task is forgotten.
unfoldable pub stop : Publisher → Option (Unit {0}) × Publisher
stop p = elim p.task [
  | absent ↦ (some tt, p)
  | running ↦ (some tt, record p { task = absent })
  | ended ↦ (none, p)
]

abbrev pub task_after : Option RateSnapshot → TaskState
task_after none = ended
task_after (some snapshot) = running

-- A round of `_run`.
pub turn : (ℕ → List Edge) → Publisher → Publisher
turn edge_factory p = elim p.task [
  | running ↦ record {
    book = (run_once edge_factory p.book).1;
    task = task_after (run_once edge_factory p.book).0;
  }
  | absent ↦ p
  | ended ↦ p
]

abbrev pub new_publisher : Publisher
new_publisher = record { book = record { snapshot = none }; task = absent }

-- A rate book with its task, as publications of the factory's edges, starts, stops and turns have
-- left it.
pub data Operated (edge_factory : ℕ → List Edge) : Publisher → Type 0 where
  made : Operated edge_factory new_publisher
  by_publish :
      {p : Publisher}
      → Operated edge_factory p
      → (version : ℕ)
      → Operated edge_factory
          (record p { book = (publish (edge_factory version) version p.book).1 })
  by_start :
      {p : Publisher} → Operated edge_factory p → Operated edge_factory (start edge_factory p).1
  by_stop : {p : Publisher} → Operated edge_factory p → Operated edge_factory (stop p).1
  by_turn : {p : Publisher} → Operated edge_factory p → Operated edge_factory (turn edge_factory p)
