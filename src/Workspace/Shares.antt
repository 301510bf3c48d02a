-- ===== src/Workspace/Shares.antt =====
-- Mobile previews (`ExpoShare`, crates/labrys-core/src/workspace.rs).
use labrys.Base.{
  ℕ, ◌==◌, Bool, true, false, ◌&&◌, ◌++◌, Text, text, is_blank, ltb, Result, ok, err,
  preview_unavailable, if◌then◌else◌,
}
use labrys.Base.Clock.{Instant}
use labrys.Queue.{decimal}
use labrys.Workspace.Worktrees.{SessionWorkspace}

pub data ExpoTransport : Type 0 where
  expo_go development_build : ExpoTransport

unfoldable pub transport_name : ExpoTransport → Text
transport_name expo_go = text "expo_go"
transport_name development_build = text "development_build"

unfoldable pub is_expo_go : ExpoTransport → Bool
is_expo_go expo_go = true
is_expo_go development_build = false

pub data ExpoShareStatus : Type 0 where
  active expired revoked : ExpoShareStatus

abbrev pub is_share_active : ExpoShareStatus → Bool
is_share_active active = true
is_share_active _ = false

pub record ExpoShare : Type 0 where
  pub id : Text
  pub workspace_id : Text
  pub session_id : Text
  pub project_slug : Text
  pub dev_server_url : Text
  pub transport : ExpoTransport
  pub status : ExpoShareStatus
  pub expires_at : Instant
  pub qr_payload : Text

-- The port is a u16.
unfoldable pub discover_server_url : Text → ℕ → Result Text
discover_server_url host port =
    if is_blank host
    then err preview_unavailable
    else if port == 0
    then err preview_unavailable
    else ok (text "exp://" ++ (host ++ (text ":" ++ decimal port)))

unfoldable pub qr_payload_for : Text → Text → Text → ExpoTransport → Text
unfolding transport_name
qr_payload_for dev_server_url project_slug session_id transport =
    dev_server_url
    ++ (text "/--/expo?project="
        ++ (project_slug
            ++ (text "&session=agt_"
                ++ (session_id ++ (text "&transport=" ++ transport_name transport)))))

unfoldable pub new_share :
    Text → SessionWorkspace → Text → Text → ExpoTransport → Instant → Result ExpoShare
unfolding qr_payload_for
new_share fresh workspace project_slug dev_server_url transport expires_at =
    if is_blank project_slug
    then err preview_unavailable
    else if is_blank dev_server_url
    then err preview_unavailable
    else ok (record {
      id = fresh;
      workspace_id = workspace.id;
      session_id = workspace.session_id;
      project_slug = project_slug;
      dev_server_url = dev_server_url;
      transport = transport;
      status = active;
      expires_at = expires_at;
      qr_payload = qr_payload_for dev_server_url project_slug workspace.session_id transport;
    })

unfoldable pub is_share_live : Instant → ExpoShare → Bool
is_share_live now s = is_share_active s.status && ltb now s.expires_at

unfoldable pub expire_share : ExpoShare → ExpoShare
expire_share s = record s { status = expired }

unfoldable pub revoke_share : ExpoShare → ExpoShare
revoke_share s = record s { status = revoked }
