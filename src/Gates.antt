-- ===== src/Gates.antt =====
-- Who may see which event: over REST, over the socket, and in the replayed feed.
pub mod Rights
pub mod Bus
pub mod Replay
pub mod Bearer
mod Examples
