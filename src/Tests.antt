-- ===== src/Tests.antt =====
-- Concrete tables, rates and runs, and the theorems of the library at them.
mod Example
mod Settlements
mod Runs
mod Rates
mod Payouts
mod Seeds
mod Journals
mod Replies
