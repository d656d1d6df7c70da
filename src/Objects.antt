-- ===== src/Objects.antt =====
-- metadata/objects: the graph of metadata objects that describes every snapshot.
pub mod Json
pub mod Kinds
pub mod Models
pub mod Codec
pub mod Envelope
pub mod Walk
pub mod Sample
mod Tests
