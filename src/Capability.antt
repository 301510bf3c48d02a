-- ===== src/Capability.antt =====
-- crates/labrys-core/src/capability.rs: capabilities, providers and bindings, the modes of a bound
-- capability, and the store of sealed secrets.
pub mod Bindings
pub mod Modes
pub mod Secrets
pub mod Store
pub mod Upkeep
pub mod Vault
pub mod Bypass
pub mod Choice
