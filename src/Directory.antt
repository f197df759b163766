-- ===== src/Directory.antt =====
-- Host resources and how a target names one of them: nodejs/utils/target_match.js.
pub mod Host
pub mod Target
pub mod Match
pub mod Samples
mod Examples
