-- ===== src/Objects/Codec.antt =====
-- metadata/objects/codec.py: metadata objects as JSON values, and back.
pub mod Hints
pub mod Equality
pub mod Refs
pub mod Files
pub mod Trees
pub mod Snapshots
pub mod Shards
pub mod Protections
pub mod PackParts
pub mod PackRecords
pub mod PackTiles
pub mod Packs
pub mod Catalogs
pub mod Payloads
pub mod Encoding
mod Tests
