-- ===== src/Tests.antt =====
-- Runs of the models on small inputs, and the theorems at inputs where their hypotheses hold.
mod Debts
mod Journals
mod Stores
mod Conflicts
mod Expenses
mod Caches
mod Messages
mod Requests
mod Balances
mod Running
mod Streams
mod Schemas
