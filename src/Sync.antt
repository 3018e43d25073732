-- ===== src/Sync.antt =====
-- internal/sync.
pub mod Clock
pub mod Files
pub mod Merkle
pub mod State
pub mod Node
pub mod Paths
pub mod Pairs
pub mod Remote
pub mod Engine
pub mod Session
pub mod Registry
