-- ===== src/Queue.antt =====
-- crates/labrys-core/src/controller.rs: idempotent jobs and the in-memory job queue.
mod Jobs
mod Operations
unfoldable pub use Jobs.*
unfoldable pub use Operations.*
pub mod Shape
pub mod Steps
pub mod Attempts
pub mod Dedup
pub mod Claim
pub mod Errors
