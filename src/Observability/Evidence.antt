-- ===== src/Observability/Evidence.antt =====
-- `VerifierStage`, `VerificationEvidence`, `RetentionPolicy` and `EvidenceStore`
-- (crates/labrys-core/src/observability.rs).
use labrys.Base.{
  ℕ, ◌-◌, ◌*◌, ◌==◌, Bool, true, false, not, ◌&&◌, Option, none, some, List, [], ◌∷◌, ◌++◌, Text,
  text, ltb, leb, length, push, any, if◌then◌else◌,
}
use labrys.Base.Clock.{Instant, Duration, seconds, since, longer}
use labrys.Resource.{redact_reason}
use labrys.Observability.Events.{EventResource}

pub data VerifierStage : Type 0 where
  deterministic build_test health schema browser advisory human : VerifierStage

-- The order of the variants.
abbrev pub rank : VerifierStage → ℕ
rank deterministic = 0
rank build_test = 1
rank health = 2
rank schema = 3
rank browser = 4
rank advisory = 5
rank human = 6

abbrev pub same_stage : VerifierStage → VerifierStage → Bool
same_stage s t = rank s == rank t

unfoldable pub is_blocking : VerifierStage → Bool
is_blocking advisory = false
is_blocking _ = true

unfoldable pub stage_name : VerifierStage → Text
stage_name deterministic = text "deterministic"
stage_name build_test = text "build_test"
stage_name health = text "health"
stage_name schema = text "schema"
stage_name browser = text "browser"
stage_name advisory = text "advisory"
stage_name human = text "human"

pub record VerificationEvidence : Type 0 where
  pub id : Text
  pub stage : VerifierStage
  pub check : Text
  pub passed : Bool
  pub summary : Text
  pub resource : Option EventResource
  pub recovery : Option Text
  pub at : Instant

unfoldable pub new_evidence :
    Text → VerifierStage → Text → Bool → Text → List Text → Instant → VerificationEvidence
new_evidence id stage check passed summary secrets at = record {
  id = id;
  stage = stage;
  check = check;
  passed = passed;
  summary = redact_reason summary secrets;
  resource = none;
  recovery = none;
  at = at;
}

pub record FailureExplanation : Type 0 where
  pub stage : VerifierStage
  pub check : Text
  pub what : Text
  pub resource : Option Text
  pub recovery : Text

abbrev pub resource_label : Option EventResource → Option Text
resource_label none = none
resource_label (some r) = some (r.id ++ (text " (" ++ (r.kind ++ text ")")))

abbrev pub recovery_or : Option Text → Text
recovery_or none = text "no automated recovery path recorded; escalate to the owning team"
recovery_or (some t) = t

unfoldable pub explanation : VerificationEvidence → FailureExplanation
explanation e = record {
  stage = e.stage;
  check = e.check;
  what = e.summary;
  resource = resource_label e.resource;
  recovery = recovery_or e.recovery;
}

pub record RetentionPolicy : Type 0 where
  pub max_age : Duration
  pub keep_latest : ℕ

unfoldable pub default_retention : RetentionPolicy
default_retention = record { max_age = seconds (90 * 86400); keep_latest = 10 }

abbrev pub is_expired : RetentionPolicy → Instant → VerificationEvidence → Bool
is_expired policy now e = longer (since now e.at) policy.max_age

-- The loop of `prune` over the first `n` records, which are not protected.
unfoldable pub prune_first :
    ℕ
    → (VerificationEvidence → Bool)
    → List VerificationEvidence
    → List Text × List VerificationEvidence
prune_first n expired [] = ([], [])
prune_first n expired (e ∷ es) =
    let (removed, kept) = prune_first (n - 1) expired es in
    if ltb 0 n && expired e then (e.id ∷ removed, kept) else (removed, e ∷ kept)

unfoldable pub prune :
    RetentionPolicy → Instant → List VerificationEvidence → List Text × List VerificationEvidence
unfolding prune_first
prune policy now evidence =
    if leb (length evidence) policy.keep_latest
    then ([], evidence)
    else prune_first (length evidence - policy.keep_latest) (is_expired policy now) evidence

pub record EvidenceStore : Type 0 where
  pub evidence : List VerificationEvidence
  pub policy : RetentionPolicy

unfoldable pub new_store : RetentionPolicy → EvidenceStore
new_store policy = record { evidence = []; policy = policy }

unfoldable pub append_evidence : VerificationEvidence → EvidenceStore → EvidenceStore
append_evidence e store = record store { evidence = push store.evidence e }

abbrev pub is_blocking_failure : VerificationEvidence → Bool
is_blocking_failure e = not e.passed && is_blocking e.stage

-- The loop of `retain` when a blocking failure is stored.
unfoldable pub retain_failures :
    (VerificationEvidence → Bool)
    → List VerificationEvidence
    → List Text × List VerificationEvidence
retain_failures expired [] = ([], [])
retain_failures expired (e ∷ es) =
    let (removed, kept) = retain_failures expired es in
    if expired e && not (is_blocking_failure e) then (e.id ∷ removed, kept) else (removed, e ∷ kept)

unfoldable pub retain_evidence : Instant → EvidenceStore → List Text × EvidenceStore
unfolding prune retain_failures
retain_evidence now store =
    let (removed, kept) =
      (if not (any is_blocking_failure store.evidence)
        then prune store.policy now store.evidence
        else retain_failures (is_expired store.policy now) store.evidence) in
    (removed, record store { evidence = kept })
