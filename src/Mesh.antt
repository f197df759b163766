-- ===== src/Mesh.antt =====
-- The mesh: nodejs/utils/mesh_addressing.js, nodejs/services/mesh_state.js and exit_router.js.
pub mod Addressing
pub mod Roster
pub mod Exits
pub mod Plan
pub mod Steering
pub mod Reconcile
pub mod Apply
