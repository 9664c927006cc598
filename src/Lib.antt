-- ===== src/Lib.antt =====
-- The Netaro settlement router: it quotes the best conversion route of a published rate snapshot,
-- reserves a customer's USD in a double-entry ledger, asks a payout provider to pay, and settles or
-- reconciles the outcome.
--
-- Parts, and the files that model them:
-- - app/routing.py, app/decimal_policy.py: Routing (route computation and the rate book),
--   Routing/Types (currencies, edges, quotes), Decimal (the decimal values and their rounding);
--   Routing/Paths, Quotes and Book are about the routes, the quotes and the book's publications;
--   Decimal/Order, Rounding, Monotone and Products are about the order of rates and their rounded
--   products, and Routing/Entries, Selection, Closed and Optimal about the edges that a quote does
--   not use; Routing/Generated has `generate_edges`, and Routing/Publisher the book with its task
--   (`start`, `stop`, and a round of `_run` as `turn`).
-- - app/models.py: Models (enums, rows) and Database (the tables, their constraints as errors, and
--   sessions as actions that return or raise).
-- - app/ledger.py: Ledger (`apply_posting`, `_locked_accounts`, `_post`, `reserve`, `consume`,
--   `release`), with its proofs in Ledger/Locking, Movement, Invariant, Funds and Payable, and
--   Ledger/Audit (`assert_ledger_invariants`).
-- - app/schemas.py: Schemas (commands and views).
-- - app/main.py, app/db.py: Http (the endpoints, the exception handlers, the replies, the probe of the
--   database), with proofs in Http/Replies, Refused, and Amounts
--   (which requests for a settlement are admitted).
-- - app/seed.py: Seed (the check of an existing seed, and the creation of one); Seed/Validation says what
--   the check accepts, Opening is about an empty database, Existing about one with rows, and Kept and
--   Runs about a seed before and after a run of the service.
-- - alembic/versions/0002_durable_payout_and_ledger_guards.py: Migration/Guards (the trigger functions,
--   and writes under the triggers), with Immutable and Entries, and Migration/Backfill.
-- - app/provider.py: Provider (results, lookups, the interface) and Provider/Mock (the mock provider in
--   memory and over its table), with its proofs in Stability, Durable, Refinement and Repeats.
-- - app/service.py: Service has the transactions (`create_reserved` is that of `create`;
--   `claim_reserved`, `claim_for_reconciliation`, `claim_due_batch`, `finalize_attempt`), Service/Tasks
--   the calls as tasks that run from await to await (`step`), and Service/Tasks/System the
--   interleavings of any number of calls, batches and crashes (`Step`, `Reach`). Service/Lifecycle has
--   the state machine of a settlement, Service/Entries what each transaction does to the ledger, Shown the
--   views that they return, Service/Settling, Claiming, Leases and Due are about single transactions, and
--   Service/Tasks/History, Audits, Replay, Settles, Views and Errors about calls and runs.
-- Prelude and Table are shared helpers; Tests has concrete tables and runs.
--
-- What holds of the tables between transactions is `IsSound` (Service/Soundness/Defs), of four parts:
-- `IsBacked` (Service/Backing: balances, and reservations against open settlements), `IsRecorded`
-- (Service/Recording: journals against statuses), `IsSubmitted` (Service/Submission: attempts
-- against statuses), and the uniqueness of idempotency keys.
--
-- Conventions and bounds. A transaction is one atomic action: the program locks the rows that it
-- reads for update until it commits, and an error rolls it back. UUIDs and points in time are natural
-- numbers; new UUIDs, readings of the clock, quotes and the rows that others have locked are inputs
-- of a step, so the theorems hold for any of them. Amounts are in units of the eighth decimal place,
-- and a value that does not fit its NUMERIC or Integer column is an error. Loops are recursion on lists; the
-- rounds of the route computation are the four that the program bounds them by; the digits of a
-- coefficient are counted on fuel that the coefficient itself bounds. For the service the payout
-- provider is a parameter: any functions over any state of its own. The ordinal that the identity
-- column gives to a provider operation is an argument. FastAPI and pydantic are taken at their documented
-- behaviour: the body of a request arrives as a number and a currency, or as none.
--
-- Not modelled: the range of decimal exponents; server timestamps, primary keys of postings and
-- `provider_reference`; foreign keys, and the CHECK constraints that no write of the program can
-- violate (the journal's event against its settlement, the attempt's positive token);
-- `request_fingerprint`, a parameter of the tasks; the waits between rounds of the background tasks;
-- the lifespan of the application; the default context of 28 digits in which the audit adds up postings
-- (the sums here are exact, and differ from its only beyond 10 ^ 20 dollars); engine set-up, and the
-- schema changes of the migrations.
pub mod Prelude
pub mod Decimal
pub mod Table
pub mod Routing
pub mod Models
pub mod Database
pub mod Ledger
pub mod Schemas
pub mod Provider
pub mod Service
pub mod Http
pub mod Seed
pub mod Migration
mod Tests
