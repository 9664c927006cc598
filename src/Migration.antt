-- ===== src/Migration.antt =====
-- alembic/versions/0002_durable_payout_and_ledger_guards.py: the triggers that it puts on the journal
-- tables, and the rows that it adds for payouts that are under way.
pub mod Guards
pub mod Backfill
