-- ===== src/Node.antt =====
-- node/lifecycle.py: the admission of work and the orderly stop of a node.
pub mod Drain
pub mod Admission
mod Callbacks
pub mod Idle
mod Tests
