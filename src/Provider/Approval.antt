-- ===== src/Provider/Approval.antt =====
-- The gates before a provider call and before a registry push.
use labrys.Base.{
  ◌≡◌, ◌↔◌, ◌⊎◌, refl, true, false, inl, inr, Option, none, some, ◌++◌, Text, text, ok, is_ok,
  is_blank, arith,
}
use labrys.Base.Occurrences.{Occurs, contains_iff}
use labrys.Runtime.{ExplicitApproval, RuntimeConfig, BuildResult}
use labrys.Deployment.{Revision, Image, is_addressable, build_image}
use labrys.Deployment.Gate.{build_image_lem}
use labrys.Provider.Operations.{
  ProviderKind, ProviderAction, provision, readiness_check, replace, migrate, adopt, delete,
  is_destructive, supplies, ProviderOperation, first_attempt, plan, names_scope, require_approval,
}
use labrys.Provider.Delivery.{new_artifact, gate_registry_push}

-- The approval was granted by a named person, and its summary has the identifier of the operation's
-- resource or the operation's capability somewhere in it.
abbrev pub Grants : ProviderOperation → Option ExplicitApproval → Type 0
Grants op none = ⊥
Grants op (some approval) =
    (approval.approved ≡ true)
    × (is_blank approval.approver ≡ false)
    × (Occurs (text "res_" ++ op.resource_id) approval.proposal_summary
        ⊎ Occurs op.capability approval.proposal_summary)

is_destructive_iff :
    (action : ProviderAction)
    → (is_destructive action ≡ false) ↔ ((action ≡ provision) ⊎ (action ≡ readiness_check))
unfolding is_destructive
is_destructive_iff provision = (λ _. inl refl, λ _. refl)
is_destructive_iff readiness_check = (λ _. inr refl, λ _. refl)
is_destructive_iff replace = (λ h. absurd (cc), λ h. absurd (ground arith))
is_destructive_iff migrate = (λ h. absurd (cc), λ h. absurd (ground arith))
is_destructive_iff adopt = (λ h. absurd (cc), λ h. absurd (ground arith))
is_destructive_iff delete = (λ h. absurd (cc), λ h. absurd (ground arith))

names_scope_iff :
    (op : ProviderOperation) (approval : ExplicitApproval)
    → (names_scope op approval ≡ true) ↔ (
        Occurs (text "res_" ++ op.resource_id) approval.proposal_summary
        ⊎ Occurs op.capability approval.proposal_summary)
names_scope_iff op approval =
    let resource = contains_iff (text "res_" ++ op.resource_id) approval.proposal_summary in
    let capability = contains_iff op.capability approval.proposal_summary in
    ground (arith, resource, capability)

-- A provider operation passes the gate exactly when it provisions or checks readiness, or has an
-- approval that was granted by a named person and whose summary has the identifier of its resource
-- or its capability somewhere in it.
pub require_approval_iff :
    (op : ProviderOperation) (approval : Option ExplicitApproval)
    → (require_approval op approval ≡ ok tt)
      ↔ ((op.action ≡ provision) ⊎ (op.action ≡ readiness_check) ⊎ Grants op approval)
unfolding require_approval
require_approval_iff op none = ground (arith, is_destructive_iff op.action)
require_approval_iff op (some approval) =
    ground (arith, is_destructive_iff op.action, names_scope_iff op approval)

-- A scoped operation is planned exactly when its capability, provider key and trace are not blank
-- and the kind of provider supplies the capability; the plan is the first attempt.
pub plan_iff :
    (application : Text) (environment : Option Text) (resource capability provider : Text)
    (kind : ProviderKind) (action : ProviderAction) (trace : Text)
    → (plan application environment resource capability provider kind action trace
        ≡ ok (first_attempt application environment resource capability provider kind action trace))
      ↔ ((is_blank capability ≡ false)
          × (is_blank provider ≡ false)
          × (is_blank trace ≡ false)
          × (supplies kind capability ≡ true))
unfolding plan
plan_iff application environment resource capability provider kind action trace = ground arith

-- The image of every production build that minted one passes the registry's gate as a verified
-- artifact, and is refused there as an unverified one.
pub build_image-pushable :
    (config : RuntimeConfig) (build : BuildResult) (revision : Revision) {image : Image}
    → build_image config build revision ≡ ok image
    → (gate_registry_push (new_artifact image.reference image.digest image.revision_sha true)
        ≡ ok tt)
      × (is_ok (
            gate_registry_push (new_artifact image.reference image.digest image.revision_sha false))
          ≡ false)
unfolding gate_registry_push new_artifact is_addressable
build_image-pushable config build revision {image} h =
    let kept = ((build_image_lem config build revision).1 image h).0 in (rw kept refl, refl)
