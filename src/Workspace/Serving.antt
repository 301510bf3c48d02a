-- ===== src/Workspace/Serving.antt =====
-- What a web preview serves.
use labrys.Base.{
  ◌≡◌, refl, true, false, Option, none, some, List, [], ◌∷◌, ◌++◌, Text, text, arith, inl,
  if◌then◌else◌, ◌⊎◌,
}
use labrys.Base.Clock.{Instant}
use labrys.Runtime.{BuildResult, HealthStatus, starting, healthy, unhealthy, unknown}
use labrys.Workspace.Worktrees.{SessionWorkspace}
use labrys.Workspace.Previews
use labrys.Workspace.Previews.{
  WebPreview, PreviewAccess, PreviewStatus, new_preview, temporary_url, is_shareable, is_available,
  is_pending, is_expired, notify_build_started, record_build, built, record_health, observed,
  issued, expire_preview, is_live,
}

-- A call of a preview's method.
pub data Call : Type 0 where
  build_started : Call
  build_recorded : BuildResult → Call
  health_recorded : HealthStatus → Call
  expiry : Call

unfoldable pub called : Call → WebPreview → WebPreview
called build_started p = (notify_build_started p).1
called (build_recorded result) p = (record_build result p).1
called (health_recorded health) p = (record_health health p).1
called expiry p = expire_preview p

abbrev pub calls : List Call → WebPreview → WebPreview
calls [] p = p
calls (c ∷ cs) p = calls cs (called c p)

abbrev pub url_of : Text → Text
url_of id = text "https://prv_" ++ (id ++ text ".preview.labrys.local")

-- An available preview was healthy at some time, and so has its url; a url is never another one.
abbrev pub IsServed : Text → WebPreview → Type 0
IsServed id p =
    (p.id ≡ id)
    × ((p.url ≡ none) ⊎ (p.url ≡ some (url_of id)))
    × (is_available p.status ≡ true → p.url ≡ some (url_of id))

called-IsServed : (id : Text) (c : Call) (p : WebPreview) → IsServed id p → IsServed id (called c p)
unfolding called notify_build_started record_build built record_health observed expire_preview
called-IsServed id build_started p h = ground arith
called-IsServed id (build_recorded result) p h = ground arith
called-IsServed id (health_recorded starting) p h = ground arith
called-IsServed id (health_recorded healthy) p h = ground arith
called-IsServed id (health_recorded (unhealthy reason)) p h = ground arith
called-IsServed id (health_recorded (unknown reason)) p h = ground arith
called-IsServed id expiry p h = ground arith

calls-IsServed :
    (id : Text) (cs : List Call) (p : WebPreview) → IsServed id p → IsServed id (calls cs p)
calls-IsServed id [] p h = h
calls-IsServed id (c ∷ cs) p h = calls-IsServed id cs (called c p) (called-IsServed id c p h)

temporary_url-IsServed :
    (id : Text) (p : WebPreview)
    → IsServed id p
    → temporary_url p ≡ (if is_available p.status then some (url_of id) else none)
unfolding temporary_url
temporary_url-IsServed id p h = ground arith

-- After any calls of a new preview, its temporary url is the one that its identifier gives when it
-- is available, and none when it is not.
pub temporary_url-calls :
    (fresh : Text) (workspace : SessionWorkspace) (access : PreviewAccess)
    (expires_at : Option Instant) (cs : List Call)
    → temporary_url (calls cs (new_preview fresh workspace access expires_at)) ≡ (
        if is_available (calls cs (new_preview fresh workspace access expires_at)).status
        then some (url_of fresh)
        else none)
unfolding new_preview
temporary_url-calls fresh workspace access expires_at cs = temporary_url-IsServed fresh _ (
    calls-IsServed fresh cs (new_preview fresh workspace access expires_at)
      (refl, inl refl, λ h. cc))

called-expired :
    (c : Call) (p : WebPreview)
    → p.status ≡ Previews.expired
    → (called c p).status ≡ Previews.expired
unfolding called notify_build_started record_build record_health expire_preview
called-expired build_started p h = ground arith
called-expired (build_recorded result) p h = ground arith
called-expired (health_recorded outcome) p h = ground arith
called-expired expiry p h = refl

calls-expired :
    (cs : List Call) (p : WebPreview)
    → p.status ≡ Previews.expired
    → (calls cs p).status ≡ Previews.expired
calls-expired [] p h = h
calls-expired (c ∷ cs) p h = calls-expired cs (called c p) (called-expired c p h)

-- After `expire`, whatever builds and healths are recorded, the preview has no temporary url, cannot
-- be shared and is not live at any time.
pub expire_preview-final :
    (cs : List Call) (p : WebPreview) (now : Instant)
    → let q = calls cs (expire_preview p) in
      (temporary_url q ≡ none) × (is_shareable q ≡ false) × (is_live now q ≡ false)
unfolding temporary_url is_shareable is_live expire_preview
expire_preview-final cs p now = let e = calls-expired cs (expire_preview p) refl in ground arith
