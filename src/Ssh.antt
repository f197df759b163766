-- ===== src/Ssh.antt =====
-- The SSH side of the gateway: who is let in, and how the upstream is reached.
pub mod Metrics
pub mod Registry
pub mod Session
pub mod Keys
pub mod Provision
pub mod Auth
pub mod Admitted
mod Examples
