-- ===== src/Objects/Models.antt =====
-- metadata/objects/models.py: the classes of metadata objects and what their constructors check.
pub mod Checks
pub mod Ordered
pub mod Trees
pub mod Snapshots
pub mod Shards
pub mod Protections
pub mod Packs
pub mod Catalogs
