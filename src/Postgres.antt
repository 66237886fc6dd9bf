-- ===== src/Postgres.antt =====
-- agent/commands/postgres.py: the dedicated Postgres container of a server.
pub mod Command
pub mod Actions
pub mod Mutations
pub mod Idempotence
pub mod Aside
pub mod Readiness
pub mod Undo
pub mod Rounds
pub mod Rollback
