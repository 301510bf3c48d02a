-- ===== src/Provider.antt =====
-- crates/labrys-core/src/provider.rs: scoped provider operations, registry delivery, and the
-- delivery of domains over DNS and TLS.
mod Operations
mod Delivery
unfoldable pub use Operations.*
unfoldable pub use Delivery.*
pub mod Approval
pub mod Attachment
