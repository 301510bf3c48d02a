-- ===== src/Plugin.antt =====
-- crates/labrys-core/src/plugin.rs: the handshake of plugins, their processes and the registry.
pub mod Handshakes
pub mod Processes
pub mod Registry
pub mod Numbering
pub mod Exclusion
