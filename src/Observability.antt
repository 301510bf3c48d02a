-- ===== src/Observability.antt =====
-- crates/labrys-core/src/observability.rs: events, logs, health snapshots, usage, the audit trail
-- and the independent verifier.
mod Events
mod Metrics
mod Audit
mod Evidence
mod Verifiers
unfoldable pub use Events.*
unfoldable pub use Metrics.*
unfoldable pub use Audit.*
unfoldable pub use Evidence.*
unfoldable pub use Verifiers.*
pub mod Trail
pub mod Retention
pub mod Verdicts
