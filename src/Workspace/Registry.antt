-- ===== src/Workspace/Registry.antt =====
-- `WorkspaceRegistry` (crates/labrys-core/src/workspace.rs).
use labrys.Base.{
  ℕ, ◌-◌, Bool, not, ◌&&◌, Option, List, [], Text, text_eq, any, find, push, retain, length,
  modify_first, workspace_state, Method, pure, require, gets, modify, lift, ◌>>=◌, ◌>>◌,
}
use labrys.Workspace.Worktrees.{
  CanonicalRepository, SessionWorkspace, is_active, open_workspace, needs_cleanup,
}

pub record WorkspaceRegistry : Type 0 where
  pub workspaces : List SessionWorkspace

unfoldable pub new_registry : WorkspaceRegistry
new_registry = record { workspaces = [] }

-- The worktree of a session on an application.
unfoldable pub owns : Text → Text → SessionWorkspace → Bool
owns session_id application_id w =
    text_eq w.session_id session_id && text_eq w.application_id application_id

unfoldable pub allocate :
    Text → CanonicalRepository → Text → Text → Method WorkspaceRegistry SessionWorkspace
unfolding owns open_workspace
allocate fresh repo session_id environment_name = do
  taken ← gets (λ r. any (owns session_id repo.application_id) r.workspaces)
  require (not taken) workspace_state
  workspace ← lift (open_workspace fresh repo session_id environment_name)
  modify (λ r. record { workspaces = push r.workspaces workspace })
  pure workspace

unfoldable pub get_workspace : Text → WorkspaceRegistry → Option SessionWorkspace
get_workspace id r = find (λ w. text_eq w.id id) r.workspaces

unfoldable pub active_for_application : Text → WorkspaceRegistry → List SessionWorkspace
active_for_application application_id r =
    retain (λ w. text_eq w.application_id application_id && is_active w.status) r.workspaces

unfoldable pub sync : SessionWorkspace → WorkspaceRegistry → WorkspaceRegistry
sync workspace r = record {
  workspaces = modify_first (λ w. text_eq w.id workspace.id) (λ _. workspace) r.workspaces;
}

-- The number of worktrees that were removed, and the rest.
unfoldable pub cleanup_finished : WorkspaceRegistry → ℕ × WorkspaceRegistry
unfolding needs_cleanup
cleanup_finished r =
    let kept = retain (λ w. not (needs_cleanup w)) r.workspaces in
    (length r.workspaces - length kept, record { workspaces = kept })
