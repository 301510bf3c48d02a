-- ===== src/Health.antt =====
-- crates/labrys-core/src/controller.rs: health aggregation from platform-owned checks.
mod Checks
unfoldable pub use Checks.*
pub mod Severity
