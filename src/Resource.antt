-- ===== src/Resource.antt =====
-- crates/labrys-core/src/controller.rs: the lifecycle of a platform-owned resource.
mod Redact
mod Phase
mod Lifecycle
unfoldable pub use Redact.*
unfoldable pub use Phase.*
unfoldable pub use Lifecycle.*
pub mod Graph
pub mod History
pub mod Failures
