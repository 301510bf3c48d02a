-- ===== src/Scenarios/Providers.antt =====
-- Provider operations, a pushed image and a domain's delivery.
use labrys.Base.{◌≡◌, refl, ◌↔◌, ◌⊎◌, true, false, none, some, [], text, ok, is_ok}
use labrys.Runtime.{
  generic, tier0, production, docker_default, RuntimeConfig, BuildResult, succeeded,
  ExplicitApproval, is_refused,
}
use labrys.Deployment.{
  Image, Revision, new_revision, artifact, build_image, Domain, is_routable, healthy, Deployment,
  pending_deployment, is_promoted,
}
use labrys.Provider.{
  ProviderOperation, first_attempt, provision, readiness_check, postgres, delete, require_approval,
  propagated, issued, is_propagated, is_issued, DomainDelivery, is_healthy, plan_traffic_attachment,
}
use labrys.Provider.Approval.{Grants, require_approval_iff}
use labrys.Provider.Attachment.{plan_traffic_attachment_lem}

abbrev web : RuntimeConfig
web = record {
  kind = generic;
  tier = tier0;
  profile = production;
  port = 8080;
  healthcheck_path = none;
  dockerfile = none;
  run_command = [];
  oci_image = some (text "shop");
  limits = docker_default;
}

abbrev revision : Revision
revision = new_revision (text "c0ffee") (text "cfg") none

abbrev build : BuildResult
build = record {
  status = succeeded;
  cancelled = false;
  limit_enforced = none;
  recovery = none;
  detail = text "done";
}

abbrev approval : ExplicitApproval
approval = record { approved = true; approver = text "ada"; proposal_summary = text "delete res_7" }

abbrev dropping : ProviderOperation
dropping =
    first_attempt (text "1") none (text "7") (text "database") (text "pg") postgres delete
      (text "t1")

require_approval_iff_example : (require_approval dropping (some approval) ≡ ok tt) ↔ (
    (dropping.action ≡ provision)
    ⊎ (dropping.action ≡ readiness_check)
    ⊎ Grants dropping (some approval))
require_approval_iff_example = require_approval_iff dropping (some approval)

abbrev pushed : Image
pushed = artifact web (text "shop") revision

web-builds : build_image web build revision ≡ ok pushed
unfolding build_image
web-builds = refl

abbrev serving_deployment : Deployment
serving_deployment =
    record (pending_deployment (text "d1") (text "1") (text "2") revision web [] none 1) {
      phase = healthy;
    }

abbrev domain : Domain
domain = record {
  id = text "n1";
  environment_id = text "2";
  hostname = text "shop.example";
  tls = true;
  serving = none;
}

abbrev delivery : DomainDelivery
delivery = record {
  domain_id = text "n1";
  deployment_id = none;
  dns = propagated;
  tls = issued;
  traffic_attached = false;
  detail = none;
}

plan_traffic_attachment_example :
    let (result, after) = plan_traffic_attachment domain serving_deployment approval delivery in
    ((is_ok result ≡ true) ↔ (
      (is_refused approval ≡ false)
      × (is_routable domain ≡ true)
      × (is_propagated delivery.dns ≡ true)
      × (is_issued delivery.tls ≡ true)
      × (is_promoted serving_deployment ≡ true)))
    × (is_ok result ≡ true
        → (is_healthy after ≡ true) × (after.deployment_id ≡ some serving_deployment.id))
    × (is_ok result ≡ false → after ≡ delivery)
plan_traffic_attachment_example =
    plan_traffic_attachment_lem domain serving_deployment approval delivery
