-- ===== src/Collection.antt =====
-- Garbage collection: gc/, cas/gc.py and metadata/objects/gc.py.
pub mod Files
pub mod PathSafety
pub mod Removal
pub mod LocalFiles
pub mod ObjectSweep
mod Tests
