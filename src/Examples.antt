-- ===== src/Examples.antt =====
-- The theorems at concrete inputs, and runs of the definitions.
mod Sessions
mod Requests
mod Commands
mod Files
mod Disks
mod Tenants
mod Instances
mod Host
