-- ===== src/Retry.antt =====
-- crates/labrys-core/src/controller.rs: `RetryPolicy`, the exponential backoff of failed work.
-- Machine integers are naturals with the saturation written out.
mod Delay
unfoldable pub use Delay.*
pub mod Backoff
