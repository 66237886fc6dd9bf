-- ===== src/Instance.antt =====
-- agent/commands/instance.py: an Odoo instance, its directories, its container and its sidecar.
pub mod Command
pub mod Conf
pub mod Configured
pub mod Addons
pub mod Discovered
pub mod Labels
pub mod Provision
pub mod Words
pub mod Merged
pub mod Owned
pub mod Probe
pub mod Refusals
pub mod Specs
