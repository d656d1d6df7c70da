-- ===== src/Erasure.antt =====
-- protection/ec: data packs of several chunks, cut into shards with redundancy by zfec.
pub mod Models
pub mod Codec
pub mod Packer
pub mod Placement
pub mod Parity
mod Tests
