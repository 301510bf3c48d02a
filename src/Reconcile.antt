-- ===== src/Reconcile.antt =====
-- Controllers that compare desired with observed state and enqueue idempotent jobs:
-- crates/labrys-core/src/controller.rs and crates/labrys-core/src/state.rs.
mod Desired
mod Pass
mod Controllers
mod Runtime
unfoldable pub use Desired.*
unfoldable pub use Pass.*
unfoldable pub use Controllers.*
unfoldable pub use Runtime.*
pub mod Idempotence
pub mod Sync
