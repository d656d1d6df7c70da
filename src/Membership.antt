-- ===== src/Membership.antt =====
-- node/membership: the view that a node keeps of the cluster.
pub mod Validation
pub mod Manager
pub mod View
pub mod Addresses
pub mod Convergence
pub mod Steps
pub mod Settings
pub mod Numerals
pub mod Identity
mod Overflow
pub mod SelfState
pub mod Leaving
pub mod History
mod Tests
