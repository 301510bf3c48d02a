-- ===== src/Workspace/Previews.antt =====
-- Web previews and mobile shares (crates/labrys-core/src/workspace.rs).
use labrys.Base.{
  Bool, true, false, not, ◌&&◌, ◌||◌, Option, none, some, [], ◌++◌, Text, text, ltb,
  preview_unavailable, Method, require, gets, modify, ◌>>=◌, ◌>>◌, if◌then◌else◌,
}
use labrys.Base.Clock.{Instant}
use labrys.Runtime.{BuildResult, is_success, HealthStatus, starting, healthy, unhealthy, unknown}
use labrys.Workspace.Worktrees.{SessionWorkspace}

pub data PreviewAccess : Type 0 where
  private_access shareable_link : PreviewAccess

-- `pending` and the others of the source.
pub data PreviewStatus : Type 0 where
  pending building available : PreviewStatus
  unavailable : Text → PreviewStatus
  expired : PreviewStatus

abbrev pub is_pending : PreviewStatus → Bool
is_pending pending = true
is_pending _ = false

abbrev pub is_available : PreviewStatus → Bool
is_available available = true
is_available _ = false

abbrev pub is_expired : PreviewStatus → Bool
is_expired expired = true
is_expired _ = false

abbrev pub is_link : PreviewAccess → Bool
is_link private_access = false
is_link shareable_link = true

pub record WebPreview : Type 0 where
  pub id : Text
  pub workspace_id : Text
  pub session_id : Text
  pub access : PreviewAccess
  pub status : PreviewStatus
  pub health : Option HealthStatus
  pub url : Option Text
  pub build_error : Option Text
  pub expires_at : Option Instant

unfoldable pub new_preview : Text → SessionWorkspace → PreviewAccess → Option Instant → WebPreview
new_preview fresh workspace access expires_at = record {
  id = fresh;
  workspace_id = workspace.id;
  session_id = workspace.session_id;
  access = access;
  status = pending;
  health = none;
  url = none;
  build_error = none;
  expires_at = expires_at;
}

unfoldable pub temporary_url : WebPreview → Option Text
temporary_url p = if is_available p.status then p.url else none

unfoldable pub is_shareable : WebPreview → Bool
is_shareable p = is_available p.status && is_link p.access

unfoldable pub notify_build_started : Method WebPreview (Unit {0})
notify_build_started = do
  ready ← gets (λ p. is_pending p.status)
  require ready preview_unavailable
  modify (λ p. record p { status = building })

-- `status_label`.
unfoldable pub status_label : BuildResult → Text
status_label result = if result.cancelled then text "cancelled" else text "failed"

abbrev limit_note : Option Text → Text
limit_note none = []
limit_note (some limit) = text " (limit " ++ (limit ++ text ")")

abbrev recovery_note : Option Text → Text
recovery_note none = []
recovery_note (some recovery) = text "; recovery: " ++ recovery

unfoldable pub failure_reason : BuildResult → Text
unfolding status_label
failure_reason result =
    text "preview build "
    ++ (status_label result
        ++ (text ": "
            ++ (result.detail
                ++ (limit_note result.limit_enforced ++ recovery_note result.recovery))))

-- What a recorded build does to a preview that accepts it.
unfoldable pub built : BuildResult → WebPreview → WebPreview
unfolding failure_reason
built result p =
    if is_success result
    then record p {
      status = (if is_pending p.status then building else p.status);
      build_error = none;
    }
    else record p {
      build_error = some (failure_reason result);
      status = unavailable (failure_reason result);
    }

unfoldable pub record_build : BuildResult → Method WebPreview (Unit {0})
unfolding built
record_build result = do
  closed ← gets (λ p. is_available p.status || is_expired p.status)
  require (not closed) preview_unavailable
  modify (built result)

abbrev pub issued : WebPreview → Option Text
issued p = elim p.url [
  | some url ↦ some url
  | none ↦ some (text "https://prv_" ++ (p.id ++ text ".preview.labrys.local"))
]

-- What a recorded health does to a preview that accepts it.
unfoldable pub observed : HealthStatus → WebPreview → WebPreview
observed healthy p = record p { health = some healthy; url = issued p; status = available }
observed starting p = record p {
  health = some starting;
  status = (if is_pending p.status then building else p.status);
}
observed (unhealthy reason) p = record p {
  health = some (unhealthy reason);
  status = unavailable (text "preview health failed: " ++ reason);
}
observed (unknown reason) p = record p {
  health = some (unknown reason);
  status = unavailable (text "preview health failed: " ++ reason);
}

unfoldable pub record_health : HealthStatus → Method WebPreview (Unit {0})
unfolding observed
record_health health = do
  closed ← gets (λ p. is_expired p.status)
  require (not closed) preview_unavailable
  modify (observed health)

unfoldable pub expire_preview : WebPreview → WebPreview
expire_preview p = record p { status = expired }

unfoldable pub is_live : Instant → WebPreview → Bool
is_live now p =
    is_available p.status && elim p.expires_at [ some expiry ↦ ltb now expiry | none ↦ true ]
