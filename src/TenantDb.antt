-- ===== src/TenantDb.antt =====
-- agent/commands/tenantdb.py: the Postgres server of one tenant, whose Docker objects all have
-- names made from the tenant's slug.
pub mod Names
pub mod Ensure
pub mod Lifecycle
pub mod Patterns
pub mod Files
pub mod Owned
pub mod FileNames
pub mod EnsureOwned
pub mod OpPath
pub mod FilesOwned
pub mod PathsOwned
pub mod Commands
pub mod Refusals
pub mod Safe
pub mod PutBack
pub mod BringUp
pub mod Recreate
pub mod Readiness
pub mod Volumes
pub mod Apart
