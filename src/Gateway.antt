-- ===== src/Gateway.antt =====
-- agent/gateway.py: the connection to the control plane.
pub mod Json
pub mod System
pub mod Session
pub mod Frame
pub mod Dispatch
pub mod Reconnect
pub mod Tasks
pub mod Tunnel
pub mod Closing
pub mod Consume
