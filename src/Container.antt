-- ===== src/Container.antt =====
-- agent/commands/container.py: containers that are started and handled as the control plane asks.
pub mod Volumes
pub mod Run
pub mod Inside
pub mod Attached
pub mod Pty
pub mod Drained
pub mod ShellEnv
pub mod HostPty
pub mod HostShell
pub mod Stats
pub mod Views
pub mod Colours
pub mod Terminal
