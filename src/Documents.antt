-- ===== src/Documents.antt =====
-- nodejs/services/directory_client.js: the documents of the directory, with their cache.
pub mod Fetch
pub mod Outage
mod Examples
