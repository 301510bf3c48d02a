-- ===== src/Scenarios/Trails.antt =====
-- An audit trail, a store of evidence, and a verifier.
use labrys.Base.{
  ◌≡◌, ◌≢◌, ◌↔◌, ◌≤◌, inl, refl, text_eq, text_eq_iff, true, false, not, none, [], ◌∷◌, Text, text,
  any, retain, length, min, All, ok,
}
use labrys.Base.Clock.{Instant, seconds}
use labrys.Queue.{decimal}
use labrys.Resource.{redact_reason}
use labrys.Observability.{
  AuditRecord, AuditLog, audit_digest, genesis, genesis, new_audit, restore_audit, append_audit,
  compute_hash, verify, chained, build_test, browser, VerificationEvidence, EvidenceStore,
  is_blocking_failure, is_expired, retain_evidence, is_blocking, StageResult, is_failed, Verifier,
  recorded, new_verifier, add_stage, verdict, passed, required_stages,
}
use labrys.Observability.Trail.{Entry, append_all, append-verify, verify-tampered}
use labrys.Observability.Retention.{retain_evidence_lem}
use labrys.Observability.Verdicts.{
  IsKeyed, IsSupported, adding, claiming, reports, new_verifier-IsKeyed, reports-IsKeyed,
  verdict_passed_iff, failed_never_passes,
}

abbrev stamp : Instant → Text
stamp at = decimal at

abbrev login : Entry
login = record {
  at = 5;
  actor = text "ada";
  action = text "login";
  target = text "console";
  detail = text "token s3cret used";
  secrets = text "s3cret" ∷ [];
}

abbrev removal : Entry
removal = record {
  at = 9;
  actor = text "ada";
  action = text "delete";
  target = text "res_7";
  detail = text "gone";
  secrets = [];
}

abbrev trail : AuditLog
trail = append_all stamp (login ∷ removal ∷ []) new_audit

append-verify_example : verify stamp (restore_audit trail.records) ≡ ok tt
append-verify_example = append-verify stamp (login ∷ removal ∷ [])

abbrev first_record : AuditRecord
first_record =
    chained stamp login.at login.actor login.action login.target login.detail login.secrets
      new_audit

abbrev opened_trail : AuditLog
opened_trail = record { records = first_record ∷ [] }

abbrev second_record : AuditRecord
second_record =
    chained stamp removal.at removal.actor removal.action removal.target removal.detail
      removal.secrets opened_trail

both_verify : verify stamp (record { records = first_record ∷ second_record ∷ [] }) ≡ ok tt
unfolding append_audit restore_audit new_audit
both_verify = append-verify stamp (login ∷ removal ∷ [])

-- The first record with another detail, and the digest that belongs to it.
abbrev forged_record : AuditRecord
forged_record =
    chained stamp login.at login.actor login.action login.target (text "no secret used") []
      new_audit

digests_differ :
    text_eq (compute_hash stamp first_record) (compute_hash stamp forged_record) ≡ false
unfolding compute_hash chained text_eq audit_digest decimal redact_reason new_audit genesis
digests_differ = refl

forged : compute_hash stamp first_record ≢ compute_hash stamp forged_record
forged same =
    let equal =
      (text_eq_iff (compute_hash stamp first_record) (compute_hash stamp forged_record)).1 same in
    let differ = digests_differ in cc

verify-tampered_example :
    verify stamp (record { records = forged_record ∷ second_record ∷ [] }) ≢ ok tt
verify-tampered_example =
    verify-tampered stamp [] [] [] first_record forged_record second_record both_verify (inl forged)

abbrev broken : VerificationEvidence
broken = record {
  id = text "e1";
  stage = build_test;
  check = text "tests";
  passed = false;
  summary = text "2 failed";
  resource = none;
  recovery = none;
  at = 10;
}

abbrev fine : VerificationEvidence
fine = record {
  id = text "e2";
  stage = browser;
  check = text "smoke";
  passed = true;
  summary = text "ok";
  resource = none;
  recovery = none;
  at = 20;
}

abbrev evidence_store : EvidenceStore
evidence_store = record {
  evidence = broken ∷ fine ∷ [];
  policy = record { max_age = seconds 1; keep_latest = 1 };
}

retain_evidence_example :
    (retain is_blocking_failure (retain_evidence 3000000000 evidence_store).1.evidence
      ≡ retain is_blocking_failure (broken ∷ fine ∷ []))
    × (retain
          (λ e. not (is_expired evidence_store.policy 3000000000 e))
          (retain_evidence 3000000000 evidence_store).1.evidence
        ≡ retain (λ e. not (is_expired evidence_store.policy 3000000000 e)) (broken ∷ fine ∷ []))
    × (any is_blocking_failure (broken ∷ fine ∷ []) ≡ false
        → min (length (broken ∷ fine ∷ [])) 1
          ≤ length (retain_evidence 3000000000 evidence_store).1.evidence)
retain_evidence_example = retain_evidence_lem 3000000000 evidence_store

abbrev failed_tests : StageResult
failed_tests = recorded build_test (broken ∷ [])

abbrev checked : Verifier
checked = reports (adding failed_tests ∷ []) new_verifier

checked-IsKeyed : IsKeyed checked
checked-IsKeyed = reports-IsKeyed (adding failed_tests ∷ []) new_verifier new_verifier-IsKeyed

verdict_passed_iff_example :
    (verdict checked ≡ passed) ↔ All (λ s. IsSupported (checked.stages s)) required_stages
verdict_passed_iff_example = verdict_passed_iff checked checked-IsKeyed

failed_never_passes_example :
    verdict (
      reports
        (claiming (text "all tests pass") ∷ adding (recorded build_test (fine ∷ [])) ∷ [])
        checked)
    ≢ passed
unfolding new_verifier add_stage recorded is_failed is_blocking
failed_never_passes_example =
    failed_never_passes
      (claiming (text "all tests pass") ∷ adding (recorded build_test (fine ∷ [])) ∷ []) checked
      build_test checked-IsKeyed refl (failed_tests, refl, refl)
