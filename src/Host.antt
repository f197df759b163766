-- ===== src/Host.antt =====
-- The host: shell commands, the firewall, routes and tunnels.
pub mod Shell
pub mod Router
pub mod Forwarding
pub mod Netmap
pub mod Uplink
pub mod Wg
pub mod Peers
pub mod Frame
mod Examples
