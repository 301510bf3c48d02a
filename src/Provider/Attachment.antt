-- ===== src/Provider/Attachment.antt =====
-- The attachment of traffic to a domain.
use labrys.Base.{◌≡◌, ◌↔◌, true, false, some, List, Text, is_ok, arith}
use labrys.Runtime.{ExplicitApproval, is_refused}
use labrys.Deployment.{Domain, is_routable, Deployment, is_promoted}
use labrys.Provider.Delivery.{
  is_propagated, failed_certificate, is_issued, DomainDelivery, is_healthy,
  report_certificate_failure, plan_traffic_attachment,
}

-- Traffic is attached exactly with a granted and named approval, a routable hostname, propagated
-- DNS, an issued certificate and a promoted deployment. Then the domain is healthy and serves that
-- deployment; otherwise nothing changes.
pub plan_traffic_attachment_lem :
    (domain : Domain) (deployment : Deployment) (approval : ExplicitApproval)
    (delivery : DomainDelivery)
    → let (result, after) = plan_traffic_attachment domain deployment approval delivery in
      ((is_ok result ≡ true) ↔ (
        (is_refused approval ≡ false)
        × (is_routable domain ≡ true)
        × (is_propagated delivery.dns ≡ true)
        × (is_issued delivery.tls ≡ true)
        × (is_promoted deployment ≡ true)))
      × (is_ok result ≡ true
          → (is_healthy after ≡ true) × (after.deployment_id ≡ some deployment.id))
      × (is_ok result ≡ false → after ≡ delivery)
unfolding plan_traffic_attachment is_healthy
plan_traffic_attachment_lem domain deployment approval delivery = ground arith

-- After a reported certificate failure the domain is not healthy, and no deployment or approval
-- attaches traffic to it.
pub certificate_failure_blocks :
    (reason : Text) (secrets : List Text) (delivery : DomainDelivery) (domain : Domain)
    (deployment : Deployment) (approval : ExplicitApproval)
    → let broken = report_certificate_failure reason secrets delivery in
      let (result, after) = plan_traffic_attachment domain deployment approval broken in
      (is_healthy broken ≡ false) × (is_ok result ≡ false) × (after ≡ broken)
unfolding plan_traffic_attachment report_certificate_failure is_healthy failed_certificate is_issued
certificate_failure_blocks reason secrets delivery domain deployment approval = ground arith
