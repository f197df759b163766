-- ===== src/Access.antt =====
-- nodejs/utils/access.js in production mode: which hosts a user may reach.
pub mod Defs
pub mod Cache
pub mod Served
mod Examples
