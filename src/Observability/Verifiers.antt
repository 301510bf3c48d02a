-- ===== src/Observability/Verifiers.antt =====
-- `StageResult`, `VerificationVerdict` and `Verifier` (crates/labrys-core/src/observability.rs). The
-- BTreeMap of the stages is a function, read in the order of the stages.
use labrys.Base.{
  Bool, true, false, not, ◌&&◌, Option, none, some, List, [], ◌∷◌, ◌++◌, map, Text, text, ltb, all,
  any, retain, push, ok, err, verification, Method, if◌then◌else◌,
}
use labrys.Observability.Evidence.{
  VerifierStage, deterministic, build_test, health, schema, browser, advisory, human, rank,
  same_stage, is_blocking, stage_name, VerificationEvidence, FailureExplanation, explanation,
}

pub record StageResult : Type 0 where
  pub stage : VerifierStage
  pub applicable : Bool
  pub evidence : List VerificationEvidence

unfoldable pub not_applicable : VerifierStage → StageResult
not_applicable stage = record { stage = stage; applicable = false; evidence = [] }

-- `StageResult::passed` and `StageResult::failed`, which do the same.
unfoldable pub recorded : VerifierStage → List VerificationEvidence → StageResult
recorded stage evidence = record { stage = stage; applicable = true; evidence = evidence }

abbrev pub has_evidence : List VerificationEvidence → Bool
has_evidence [] = false
has_evidence (_ ∷ _) = true

unfoldable pub is_passed : StageResult → Bool
is_passed r = r.applicable && (has_evidence r.evidence && all (λ e. e.passed) r.evidence)

unfoldable pub is_failed : StageResult → Bool
is_failed r = r.applicable && any (λ e. not e.passed) r.evidence

pub data VerificationVerdict : Type 0 where
  incomplete : List VerifierStage → VerificationVerdict
  failed : VerifierStage → VerificationVerdict
  passed : VerificationVerdict

pub record Verifier : Type 0 where
  pub stages : VerifierStage → Option StageResult
  pub agent_claim : Option Text
  pub disagreements : List Text

unfoldable pub new_verifier : Verifier
new_verifier = record { stages = λ s. none; agent_claim = none; disagreements = [] }

unfoldable pub record_agent_claim : Text → Verifier → Verifier
record_agent_claim claim v = record v { agent_claim = some claim }

-- `BTreeMap::insert`.
abbrev pub insert_stage : StageResult → Verifier → Verifier
insert_stage result v = record v {
  stages = λ s. if same_stage s result.stage then some result else v.stages s;
}

abbrev pub disagree : StageResult → Text → Verifier → Verifier
disagree result how v = record v {
  disagreements =
      push v.disagreements
        (text "stage " ++ (stage_name result.stage ++ (text " already " ++ how)));
}

-- `add_stage` when a result of the stage is stored.
unfoldable pub add_again : StageResult → StageResult → Method Verifier (Unit {0})
unfolding is_failed is_passed
add_again existing result v =
    if is_failed existing && is_passed result
    then (ok tt, disagree result (text "failed; later pass ignored") v)
    else if is_passed existing && is_failed result
    then (ok tt, insert_stage result (disagree result (text "passed; later failure recorded") v))
    else (err verification, v)

unfoldable pub add_stage : StageResult → Method Verifier (Unit {0})
unfolding add_again
add_stage result v = elim (v.stages result.stage) [
  | some existing ↦ add_again existing result v
  | none ↦ (ok tt, insert_stage result v)
]

-- `stages.values()`: the stored results in the order of the stages.
abbrev pub stored : (VerifierStage → Option StageResult) → List VerifierStage → List StageResult
stored stages [] = []
stored stages (s ∷ ss) = elim (stages s) [ none ↦ stored stages ss | some r ↦ r ∷ stored stages ss ]

abbrev pub all_stages : List VerifierStage
all_stages = deterministic ∷ build_test ∷ health ∷ schema ∷ browser ∷ advisory ∷ human ∷ []

-- The array that `missing_evidence` goes through.
abbrev pub required_stages : List VerifierStage
required_stages = deterministic ∷ build_test ∷ health ∷ schema ∷ browser ∷ human ∷ []

abbrev pub lacks_evidence : Option StageResult → Bool
lacks_evidence none = true
lacks_evidence (some r) = r.applicable && not (has_evidence r.evidence)

unfoldable pub missing_evidence : Verifier → List VerifierStage
missing_evidence v = retain (λ s. lacks_evidence (v.stages s)) required_stages

abbrev pub is_blocking_failed : StageResult → Bool
is_blocking_failed r = is_blocking r.stage && is_failed r

-- `Iterator::min` of stages.
abbrev pub min_stage : List VerifierStage → Option VerifierStage
min_stage [] = none
min_stage (s ∷ ss) = elim (min_stage ss) [
  | none ↦ some s
  | some t ↦ some (if ltb (rank t) (rank s) then t else s)
]

abbrev pub first_failure : Verifier → Option VerifierStage
first_failure v =
    min_stage (map (λ r. r.stage) (retain is_blocking_failed (stored v.stages all_stages)))

abbrev pub judge_missing : List VerifierStage → VerificationVerdict
judge_missing [] = passed
judge_missing (s ∷ ss) = incomplete (s ∷ ss)

unfoldable pub verdict : Verifier → VerificationVerdict
unfolding missing_evidence
verdict v = elim (first_failure v) [
  | some stage ↦ failed stage
  | none ↦ judge_missing (missing_evidence v)
]

abbrev pub explain_all : List StageResult → List FailureExplanation
explain_all [] = []
explain_all (r ∷ rs) = map explanation (retain (λ e. not e.passed) r.evidence) ++ explain_all rs

unfoldable pub failures : Verifier → List FailureExplanation
failures v = explain_all (retain is_blocking_failed (stored v.stages all_stages))
