-- ===== src/Registry.antt =====
-- kernel/src/registry.rs: what the kernel knows of the models and of who may read them.
pub mod Groups
pub mod Signals
pub mod Fields
pub mod Load
pub mod Normalize
pub mod Topology
