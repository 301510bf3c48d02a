-- ===== src/Deployment.antt =====
-- crates/labrys-core/src/deployment.rs: images, the deployment lifecycle, rollouts, rollbacks and
-- domains.
mod Artifacts
mod Phase
mod Lifecycle
mod Rollouts
mod Rollback
unfoldable pub use Artifacts.*
unfoldable pub use Phase.*
unfoldable pub use Lifecycle.*
unfoldable pub use Rollouts.*
unfoldable pub use Rollback.*
pub mod Gate
pub mod Evidence
mod Lookup
pub mod Promotion
pub mod Restoring
pub mod Execution
pub mod Targets
