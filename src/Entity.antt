-- ===== src/Entity.antt =====
-- Entity identifiers: `src/entity/`.
pub mod Distribute
pub mod Snapshot
pub mod Raw
pub mod Recycler
pub mod Recycling
pub mod Generation
pub mod Rctrack
pub mod Examples
