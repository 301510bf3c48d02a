-- ===== src/Runtime.antt =====
-- crates/labrys-core/src/runtime.rs: runtime configuration, sandbox limits, builds and health; and
-- the approval record of crates/labrys-core/src/inspector.rs.
mod Config
mod Builds
unfoldable pub use Config.*
unfoldable pub use Builds.*
pub mod Limits
