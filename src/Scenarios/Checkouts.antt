-- ===== src/Scenarios/Checkouts.antt =====
-- Worktrees, their registry, and a web preview.
use labrys.Base.{◌≡◌, true, false, none, some, List, [], ◌∷◌, text, ok, is_ok, if◌then◌else◌}
use labrys.Runtime.{ExplicitApproval, healthy, starting}
use labrys.Workspace.Worktrees.{
  CanonicalRepository, WorkspaceDiff, SessionWorkspace, active, merged, MergeRequest, merge,
}
use labrys.Workspace.Registry.{new_registry}
use labrys.Workspace.Previews.{WebPreview, shareable_link, new_preview, temporary_url, is_available}
use labrys.Workspace.Merging.{IsMergeable, merge_lem}
use labrys.Workspace.Isolation
use labrys.Workspace.Isolation.{
  IsIsolated, allocation, change, reviewed, merging, cleanup, calls-IsIsolated,
}
use labrys.Workspace.Serving
use labrys.Workspace.Serving.{
  build_started, health_recorded, expiry, url_of, temporary_url-calls, expire_preview-final,
}

abbrev repo : CanonicalRepository
repo = record { application_id = text "7"; default_branch = text "main"; head_sha = text "c0ffee" }

abbrev diff : WorkspaceDiff
diff = record {
  files_changed = text "page.tsx" ∷ [];
  additions = 12;
  deletions = 3;
  summary = text "a page";
}

abbrev grant : ExplicitApproval
grant = record { approved = true; approver = text "ada"; proposal_summary = text "merge" }

abbrev tree : SessionWorkspace
tree = record {
  id = text "3";
  application_id = text "7";
  environment_name = text "dev";
  session_id = text "1";
  worktree_path = text "worktrees/agt_1";
  branch = text "session/agt_1";
  base_sha = text "c0ffee";
  status = active;
  diff = some diff;
}

merge_example :
    ((r : MergeRequest)
      → (merge grant tree).0 ≡ ok r
      → IsMergeable grant tree r × ((merge grant tree).1 ≡ record tree { status = merged }))
    × (is_ok (merge grant tree).0 ≡ false → (merge grant tree).1 ≡ tree)
merge_example = merge_lem grant tree

abbrev days : List Isolation.Call
days =
    allocation (text "3") repo (text "1") (text "dev")
    ∷ allocation (text "4") repo (text "2") (text "dev")
    ∷ allocation (text "5") repo (text "1") (text "dev")
    ∷ change (text "3") (reviewed diff)
    ∷ change (text "3") (merging grant)
    ∷ cleanup
    ∷ []

calls-IsIsolated_example : IsIsolated (Isolation.calls days new_registry)
calls-IsIsolated_example = calls-IsIsolated days

abbrev life : List Serving.Call
life = build_started ∷ health_recorded starting ∷ health_recorded healthy ∷ []

abbrev page : WebPreview
page = new_preview (text "9") tree shareable_link none

temporary_url-calls_example :
    temporary_url (Serving.calls life page)
    ≡ (if is_available (Serving.calls life page).status then some (url_of (text "9")) else none)
temporary_url-calls_example = temporary_url-calls (text "9") tree shareable_link none life
