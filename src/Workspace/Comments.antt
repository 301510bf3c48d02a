-- ===== src/Workspace/Comments.antt =====
-- `Feedback` (crates/labrys-core/src/workspace.rs).
use labrys.Base.{
  Option, none, some, Text, text_eq, is_blank, Result, ok, err, panic, workspace_state,
  if◌then◌else◌,
}
use labrys.Base.Clock.{Instant}
use labrys.Workspace.Worktrees.{SessionWorkspace}
use labrys.Workspace.Previews.{WebPreview}
use labrys.Workspace.Shares.{ExpoShare}

pub record Feedback : Type 0 where
  pub id : Text
  pub workspace_id : Text
  pub session_id : Text
  pub preview_id : Option Text
  pub author : Text
  pub body : Text
  pub created_at : Instant

unfoldable pub new_feedback : Text → SessionWorkspace → Text → Text → Instant → Result Feedback
new_feedback fresh workspace author body created_at =
    if is_blank author
    then err workspace_state
    else if is_blank body
    then err workspace_state
    else ok (record {
      id = fresh;
      workspace_id = workspace.id;
      session_id = workspace.session_id;
      preview_id = none;
      author = author;
      body = body;
      created_at = created_at;
    })

abbrev pub attached : Text → Result Feedback → Result Feedback
attached preview (ok f) = ok (record f { preview_id = some preview })
attached preview (err e) = err e
attached preview panic = panic

unfoldable pub for_web_preview :
    Text → SessionWorkspace → WebPreview → Text → Text → Instant → Result Feedback
unfolding new_feedback
for_web_preview fresh workspace preview author body created_at =
    if text_eq preview.workspace_id workspace.id
    then attached preview.id (new_feedback fresh workspace author body created_at)
    else err workspace_state

unfoldable pub for_expo_share :
    Text → SessionWorkspace → ExpoShare → Text → Text → Instant → Result Feedback
unfolding new_feedback
for_expo_share fresh workspace share author body created_at =
    if text_eq share.workspace_id workspace.id
    then attached share.id (new_feedback fresh workspace author body created_at)
    else err workspace_state
