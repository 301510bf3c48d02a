-- ===== src/Provider/Delivery.antt =====
-- Registry delivery and domain delivery (crates/labrys-core/src/provider.rs).
use labrys.Base.{
  Bool, true, false, not, ◌&&◌, Option, none, some, List, ◌++◌, Text, text, text_eq, starts_with,
  is_empty, is_some, Result, ok, err, CoreError, approval_required, Method, require, gets, modify,
  ◌>>=◌, ◌>>◌, if◌then◌else◌,
}
use labrys.Resource.{redact_reason}
use labrys.Runtime.{ExplicitApproval, is_refused}
use labrys.Deployment.{Domain, is_routable, Deployment, is_promoted}

pub record RegistryArtifact : Type 0 where
  pub reference : Text
  pub digest : Text
  pub revision_sha : Text
  pub verified_production_build : Bool

unfoldable pub new_artifact : Text → Text → Text → Bool → RegistryArtifact
new_artifact reference digest revision_sha verified = record {
  reference = reference;
  digest = digest;
  revision_sha = revision_sha;
  verified_production_build = verified;
}

unfoldable pub is_digest_addressable : RegistryArtifact → Bool
unfolding starts_with
is_digest_addressable artifact =
    starts_with (text "sha256:") artifact.digest && not (is_empty artifact.reference)

unfoldable pub gate_registry_push : RegistryArtifact → Result (Unit {0})
unfolding is_digest_addressable
gate_registry_push artifact =
    if not artifact.verified_production_build
    then err CoreError.deployment
    else if not (is_digest_addressable artifact)
    then err CoreError.deployment
    else ok tt

unfoldable pub verify_registry_digest : Text → Text → Result (Unit {0})
verify_registry_digest expected reported =
    if text_eq expected reported then ok tt else err CoreError.deployment

pub data DnsState : Type 0 where
  pending propagated : DnsState
  failed : Text → DnsState

abbrev pub is_propagated : DnsState → Bool
is_propagated propagated = true
is_propagated _ = false

pub data CertificateState : Type 0 where
  pending issued renewing : CertificateState
  failed : Text → CertificateState

unfoldable pub failed_certificate : Text → List Text → CertificateState
failed_certificate reason secrets = CertificateState.failed (redact_reason reason secrets)

unfoldable pub is_issued : CertificateState → Bool
is_issued issued = true
is_issued renewing = true
is_issued _ = false

pub record DomainDelivery : Type 0 where
  pub domain_id : Text
  pub deployment_id : Option Text
  pub dns : DnsState
  pub tls : CertificateState
  pub traffic_attached : Bool
  pub detail : Option Text

unfoldable pub new_delivery : Text → DomainDelivery
new_delivery domain_id = record {
  domain_id = domain_id;
  deployment_id = none;
  dns = DnsState.pending;
  tls = CertificateState.pending;
  traffic_attached = false;
  detail = none;
}

unfoldable pub is_healthy : DomainDelivery → Bool
unfolding is_issued
is_healthy delivery =
    delivery.traffic_attached
    && (is_some delivery.deployment_id && (is_propagated delivery.dns && is_issued delivery.tls))

unfoldable pub certificate_failure_recovery : Text
certificate_failure_recovery =
    text
      "TLS issuance failed; traffic was not attached. Fix DNS/issuer configuration and re-issue the certificate before attaching traffic"

unfoldable pub report_certificate_failure : Text → List Text → DomainDelivery → DomainDelivery
unfolding certificate_failure_recovery failed_certificate
report_certificate_failure reason secrets delivery = record delivery {
  tls = failed_certificate reason secrets;
  traffic_attached = false;
  detail = some (
      text "certificate issuance failed: "
      ++ (redact_reason reason secrets ++ (text ". " ++ certificate_failure_recovery)));
}

-- A certificate that failed and one that is not issued yet are refused alike but for the message.
unfoldable pub plan_traffic_attachment :
    Domain → Deployment → ExplicitApproval → Method DomainDelivery (Unit {0})
unfolding is_issued
plan_traffic_attachment domain deployment approval = do
  require (not (is_refused approval)) approval_required
  require (is_routable domain) CoreError.deployment
  dns ← gets (λ d. d.dns)
  require (is_propagated dns) CoreError.deployment
  tls ← gets (λ d. d.tls)
  require (is_issued tls) CoreError.deployment
  require (is_promoted deployment) CoreError.deployment
  let detail =
      text "traffic attached to promoted deployment dep_"
      ++ (deployment.id ++ (text " by " ++ approval.approver))
  modify (λ d. record d {
    deployment_id = some deployment.id;
    traffic_attached = true;
    detail = some detail;
  })
