-- ===== src/Audit.antt =====
-- nodejs/models/audit_event.js: the trail of the connections.
pub mod Index
pub mod Bounds
pub mod Event
pub mod Matching
pub mod Readback
mod Examples
