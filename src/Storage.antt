-- ===== src/Storage.antt =====
-- Component storages: `src/storage/`.
pub mod Vec
pub mod Tree
pub mod Examples
