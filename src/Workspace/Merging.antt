-- ===== src/Workspace/Merging.antt =====
-- What a worktree accepts.
use labrys.Base.{◌≡◌, true, false, some, is_blank, ok, err, is_ok, workspace_state, arith}
use labrys.Runtime.{ExplicitApproval}
use labrys.Workspace.Worktrees.{
  WorkspaceDiff, SessionWorkspace, active, merged, is_empty_change, MergeRequest, merge_ready,
  merge, discard, record_diff, needs_cleanup,
}

-- What a merge needs, and what it answers.
pub record IsMergeable (a : ExplicitApproval) (s : SessionWorkspace) (r : MergeRequest)
    : Type 0 where
  pub standing : s.status ≡ active
  pub reviewed : s.diff ≡ some r.diff
  pub changed : is_empty_change r.diff ≡ false
  pub approved : a.approved ≡ true
  pub named : is_blank a.approver ≡ false
  pub own : r.workspace_id ≡ s.id
  pub by : r.approved_by ≡ some a.approver

merge_ok :
    (a : ExplicitApproval) (s : SessionWorkspace) (r : MergeRequest)
    → (merge a s).0 ≡ ok r
    → IsMergeable a s r × ((merge a s).1 ≡ record s { status = merged })
unfolding merge merge_ready
merge_ok a s r h = ground arith

merge_err :
    (a : ExplicitApproval) (s : SessionWorkspace) → is_ok (merge a s).0 ≡ false → (merge a s).1 ≡ s
unfolding merge merge_ready
merge_err a s h = ground arith

-- A merge that succeeds had an active worktree with an exposed diff that changes something, and a
-- granted approval with an approver's name; it answers that diff, that approver and the worktree's
-- identifier, and the worktree is merged. A merge that fails leaves the worktree as it is.
pub merge_lem :
    (a : ExplicitApproval) (s : SessionWorkspace)
    → ((r : MergeRequest)
        → (merge a s).0 ≡ ok r
        → IsMergeable a s r × ((merge a s).1 ≡ record s { status = merged }))
      × (is_ok (merge a s).0 ≡ false → (merge a s).1 ≡ s)
unfolding merge merge_ready
merge_lem a s = (λ r h. (merge_ok a s r h), merge_err a s)

-- A merged or discarded worktree refuses diffs, merges and a discard with a worktree error, and is
-- left as it is by each.
pub finished_refuses :
    (s : SessionWorkspace) (d : WorkspaceDiff) (a : ExplicitApproval)
    → needs_cleanup s ≡ true
    → (record_diff d s ≡ (err workspace_state, s))
      × (merge a s ≡ (err workspace_state, s))
      × (discard s ≡ (err workspace_state, s))
unfolding needs_cleanup record_diff merge merge_ready discard
finished_refuses s d a h = ground arith
