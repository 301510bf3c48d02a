-- ===== src/Agent.antt =====
-- crates/labrys-core/src/agent.rs: agent sessions over the backend contract, the policy of tools and
-- approvals, and the two backends.
mod Protocol
mod Sessions
mod Backends
mod Calls
pub mod Soundness
pub mod Sequence
pub mod Gate
pub mod Asking
pub mod Closing
pub mod Replay
unfoldable pub use Protocol.*
unfoldable pub use Sessions.*
unfoldable pub use Backends.*
unfoldable pub use Calls.*
