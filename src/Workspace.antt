-- ===== src/Workspace.antt =====
-- crates/labrys-core/src/workspace.rs: worktrees of agent sessions with their merges, the registry
-- of worktrees, web and mobile previews, and feedback.
pub mod Worktrees
pub mod Registry
pub mod Previews
pub mod Shares
pub mod Comments
pub mod Merging
pub mod Isolation
pub mod Serving
