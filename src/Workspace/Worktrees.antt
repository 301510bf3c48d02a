-- ===== src/Workspace/Worktrees.antt =====
-- Worktrees and merge requests (crates/labrys-core/src/workspace.rs). Identifiers are texts; a fresh
-- one is an argument.
use labrys.Base.{
  ℕ, ◌==◌, Bool, true, false, not, ◌&&◌, Option, none, some, List, [], ◌∷◌, ◌++◌, Text, text,
  is_blank, Result, ok, err, panic, workspace_state, approval_required, Method, require, gets,
  modify, lift, ◌>>=◌, ◌>>◌, if◌then◌else◌,
}
use labrys.Runtime.{ExplicitApproval}

pub record CanonicalRepository : Type 0 where
  pub application_id : Text
  pub default_branch : Text
  pub head_sha : Text

unfoldable pub new_repository : Text → Text → Text → Result CanonicalRepository
new_repository application_id default_branch head_sha =
    if is_blank default_branch
    then err workspace_state
    else if is_blank head_sha
    then err workspace_state
    else ok (record {
      application_id = application_id;
      default_branch = default_branch;
      head_sha = head_sha;
    })

pub data WorktreeStatus : Type 0 where
  active merged discarded : WorktreeStatus

abbrev pub is_active : WorktreeStatus → Bool
is_active active = true
is_active _ = false

pub record WorkspaceDiff : Type 0 where
  pub files_changed : List Text
  pub additions : ℕ  -- u32
  pub deletions : ℕ  -- u32
  pub summary : Text

unfoldable pub new_diff : List Text → ℕ → ℕ → Text → Result WorkspaceDiff
new_diff [] additions deletions summary = err workspace_state
new_diff (file ∷ files) additions deletions summary =
    if is_blank summary
    then err workspace_state
    else ok (record {
      files_changed = file ∷ files;
      additions = additions;
      deletions = deletions;
      summary = summary;
    })

unfoldable pub is_empty_change : WorkspaceDiff → Bool
is_empty_change d = d.additions == 0 && d.deletions == 0

pub record RollbackInfo : Type 0 where
  pub base_sha : Text
  pub base_branch : Text
  pub worktree_path : Text

pub record SessionWorkspace : Type 0 where
  pub id : Text
  pub application_id : Text
  pub environment_name : Text
  pub session_id : Text
  pub worktree_path : Text
  pub branch : Text
  pub base_sha : Text
  pub status : WorktreeStatus
  pub diff : Option WorkspaceDiff

unfoldable pub open_workspace : Text → CanonicalRepository → Text → Text → Result SessionWorkspace
open_workspace fresh repo session_id environment_name =
    if is_blank environment_name
    then err workspace_state
    else ok (record {
      id = fresh;
      application_id = repo.application_id;
      environment_name = environment_name;
      session_id = session_id;
      worktree_path = text "worktrees/agt_" ++ session_id;
      branch = text "session/agt_" ++ session_id;
      base_sha = repo.head_sha;
      status = active;
      diff = none;
    })

abbrev pub require_active : Method SessionWorkspace (Unit {0})
require_active s = require (is_active s.status) workspace_state s

unfoldable pub record_diff : WorkspaceDiff → Method SessionWorkspace (Unit {0})
record_diff diff = do require_active; modify (λ s. record s { diff = some diff })

unfoldable pub rollback_info : SessionWorkspace → RollbackInfo
rollback_info s = record {
  base_sha = s.base_sha;
  base_branch = s.branch;
  worktree_path = s.worktree_path;
}

abbrev pub exposed : Option WorkspaceDiff → Result WorkspaceDiff
exposed none = err workspace_state
exposed (some d) = ok d

unfoldable pub merge_ready : SessionWorkspace → Result WorkspaceDiff
merge_ready s = if is_active s.status then exposed s.diff else err workspace_state

pub record MergeRequest : Type 0 where
  pub workspace_id : Text
  pub diff : WorkspaceDiff
  pub approved_by : Option Text

unfoldable pub merge : ExplicitApproval → Method SessionWorkspace MergeRequest
unfolding merge_ready is_empty_change
merge approval = do
  ready ← gets merge_ready
  diff ← lift ready
  require (not (is_empty_change diff)) workspace_state
  require approval.approved approval_required
  require (not (is_blank approval.approver)) approval_required
  modify (λ s. record s { status = merged })
  gets (λ s. record { workspace_id = s.id; diff = diff; approved_by = some approval.approver })

unfoldable pub discard : Method SessionWorkspace (Unit {0})
discard = do require_active; modify (λ s. record s { status = discarded; diff = none })

unfoldable pub needs_cleanup : SessionWorkspace → Bool
needs_cleanup s = not (is_active s.status)

unfoldable pub propose : SessionWorkspace → Result MergeRequest
unfolding merge_ready
propose s = elim (merge_ready s) [
  | ok diff ↦ ok (record { workspace_id = s.id; diff = diff; approved_by = none })
  | err e ↦ err e
  | panic ↦ panic
]

unfoldable pub approve_merge : ExplicitApproval → Method MergeRequest (Unit {0})
approve_merge approval = do
  require approval.approved approval_required
  require (not (is_blank approval.approver)) approval_required
  modify (λ r. record r { approved_by = some approval.approver })

unfoldable pub is_approved : MergeRequest → Bool
is_approved r = elim r.approved_by [ none ↦ false | some _ ↦ true ]
