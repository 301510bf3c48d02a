-- ===== src/Observability/Verdicts.antt =====
-- The verdict of the independent verifier.
use labrys.Base.{
  ◌≡◌, ◌≢◌, ◌↔◌, ◌⊎◌, refl, ap, sym, ◌∙◌, inl, inr, Bool, true, false, not, ◌&&◌, Option, none,
  some, List, [], ◌∷◌, map, Text, text, All, any, all, retain, arith, Bool-cases, Option-cases,
}
use labrys.Observability.Evidence.{
  VerifierStage, deterministic, build_test, health, schema, browser, advisory, human, same_stage,
  is_blocking, VerificationEvidence,
}
use labrys.Observability.Verifiers.{
  StageResult, is_passed, is_failed, VerificationVerdict, passed, failed, Verifier, new_verifier,
  record_agent_claim, disagree, insert_stage, add_again, add_stage, stored, all_stages,
  required_stages, lacks_evidence, missing_evidence, is_blocking_failed, min_stage, first_failure,
  judge_missing, verdict,
}

-- Each result is stored under its own stage.
abbrev pub IsKeyed : Verifier → Type 0
IsKeyed v = (s : VerifierStage) (r : StageResult) → v.stages s ≡ some r → r.stage ≡ s

-- No failed blocking result is stored here.
abbrev IsClean : Option StageResult → Type 0
IsClean none = Unit
IsClean (some r) = is_blocking_failed r ≡ false

-- A stage that is recorded, and does not apply or passed on its own evidence.
abbrev pub IsSupported : Option StageResult → Type 0
IsSupported none = ⊥
IsSupported (some r) = (r.applicable ≡ false) ⊎ (is_passed r ≡ true)

min_stage-none : (ss : List VerifierStage) → min_stage ss ≡ none → ss ≡ []
min_stage-none [] h = refl
min_stage-none (s ∷ ss) h = absurd (ground arith)

first-none : (rs : List StageResult) → (min_stage (map (λ r. r.stage) rs) ≡ none) ↔ (rs ≡ [])
first-none [] = (λ h. refl, λ h. refl)
first-none (r ∷ rs) =
    (λ h. let bad = min_stage-none (map (λ (x : StageResult). x.stage) (r ∷ rs)) h in cc, λ h. cc)

stored-IsClean :
    (m : VerifierStage → Option StageResult) (ss : List VerifierStage)
    → (retain is_blocking_failed (stored m ss) ≡ []) ↔ All (λ s. IsClean (m s)) ss
stored-IsClean m [] = (λ h. tt, λ h. refl)
stored-IsClean m (s ∷ ss) = elim (Option-cases (m s)) [
  | inl e ↦ rw e (ground (arith, stored-IsClean m ss))
  | inr (r, e) ↦ rw e (ground (arith, stored-IsClean m ss))
]

retain-nil :
    {A : Type 0} (p : A → Bool) (xs : List A) → (retain p xs ≡ []) ↔ All (λ x. p x ≡ false) xs
retain-nil p [] = (λ h. tt, λ h. refl)
retain-nil p (x ∷ xs) = ground (arith, retain-nil p xs)

judge_missing_iff : (ss : List VerifierStage) → (judge_missing ss ≡ passed) ↔ (ss ≡ [])
judge_missing_iff [] = (λ h. refl, λ h. refl)
judge_missing_iff (s ∷ ss) = (λ h. cc, λ h. cc)

judge_iff :
    (o : Option VerifierStage) (ss : List VerifierStage)
    → ((elim o as (λ _. VerificationVerdict) [ some s ↦ failed s | none ↦ judge_missing ss ])
        ≡ passed)
      ↔ ((o ≡ none) × (ss ≡ []))
judge_iff none ss =
    let missing = judge_missing_iff ss in (λ h. (refl, missing.0 h), λ h. missing.1 h.1)
judge_iff (some s) ss = (λ h. cc, λ h. absurd (let e = h.0 in cc))

verdict-split :
    (v : Verifier)
    → (verdict v ≡ passed) ↔ (
        All (λ s. IsClean (v.stages s)) all_stages
        × All (λ s. lacks_evidence (v.stages s) ≡ false) required_stages)
unfolding verdict missing_evidence
verdict-split v =
    let judged = judge_iff (first_failure v) (missing_evidence v) in
    let first = first-none (retain is_blocking_failed (stored v.stages all_stages)) in
    let clean = stored-IsClean v.stages all_stages in
    let evident = retain-nil (λ s. lacks_evidence (v.stages s)) required_stages in
    (
      λ h. (clean.0 (first.0 (judged.0 h).0), evident.0 (judged.0 h).1),
      λ h. judged.1 (first.1 (clean.1 h.0), evident.1 h.1),
    )

all-passed :
    (es : List VerificationEvidence) → all (λ e. e.passed) es ≡ not (any (λ e. not e.passed) es)
all-passed [] = refl
all-passed (e ∷ es) = ground (arith, all-passed es)

IsSupported-iff :
    (o : Option StageResult)
    → ((r : StageResult) → o ≡ some r → is_blocking r.stage ≡ true)
    → (IsClean o × (lacks_evidence o ≡ false)) ↔ IsSupported o
unfolding is_passed is_failed
IsSupported-iff none key = (λ h. let e = h.1 in cc, λ h. absurd h)
IsSupported-iff (some r) key = ground (arith, key r refl, all-passed r.evidence)

advisory-IsClean :
    (o : Option StageResult)
    → ((r : StageResult) → o ≡ some r → is_blocking r.stage ≡ false)
    → IsClean o
advisory-IsClean none key = tt
advisory-IsClean (some r) key = ground (arith, key r refl)

-- Where each result is stored under its own stage, the verdict is a pass exactly when every stage
-- but the advisory one is recorded, and does not apply or has evidence that passed throughout.
pub verdict_passed_iff :
    (v : Verifier)
    → IsKeyed v
    → (verdict v ≡ passed) ↔ All (λ s. IsSupported (v.stages s)) required_stages
unfolding is_blocking
verdict_passed_iff v keyed =
    let at_stage : (s : VerifierStage)
        → is_blocking s ≡ true
        → (IsClean (v.stages s) × (lacks_evidence (v.stages s) ≡ false))
          ↔ IsSupported (v.stages s) =
      λ s b. IsSupported-iff (v.stages s) (λ r e. rw (keyed s r e) b) in
    let advice = advisory-IsClean (v.stages advisory) (λ r e. rw (keyed advisory r e) refl) in
    let split = verdict-split v in
    (
      λ h.
          let (c, e) = split.0 h in
          (
            (at_stage deterministic refl).0 (c.0, e.0),
            (
              (at_stage build_test refl).0 (c.1.0, e.1.0),
              (
                (at_stage health refl).0 (c.1.1.0, e.1.1.0),
                (
                  (at_stage schema refl).0 (c.1.1.1.0, e.1.1.1.0),
                  (
                    (at_stage browser refl).0 (c.1.1.1.1.0, e.1.1.1.1.0),
                    ((at_stage human refl).0 (c.1.1.1.1.1.1.0, e.1.1.1.1.1.0), tt),
                  ),
                ),
              ),
            ),
          ),
      λ h. split.1 (
        (
          ((at_stage deterministic refl).1 h.0).0,
          (
            ((at_stage build_test refl).1 h.1.0).0,
            (
              ((at_stage health refl).1 h.1.1.0).0,
              (
                ((at_stage schema refl).1 h.1.1.1.0).0,
                (
                  ((at_stage browser refl).1 h.1.1.1.1.0).0,
                  (advice, (((at_stage human refl).1 h.1.1.1.1.1.0).0, tt)),
                ),
              ),
            ),
          ),
        ),
        (
          ((at_stage deterministic refl).1 h.0).1,
          (
            ((at_stage build_test refl).1 h.1.0).1,
            (
              ((at_stage health refl).1 h.1.1.0).1,
              (
                ((at_stage schema refl).1 h.1.1.1.0).1,
                (
                  ((at_stage browser refl).1 h.1.1.1.1.0).1,
                  (((at_stage human refl).1 h.1.1.1.1.1.0).1, tt),
                ),
              ),
            ),
          ),
        ),
      ),
    )

-- A call that reports to the verifier.
pub data Report : Type 0 where
  adding : StageResult → Report
  claiming : Text → Report

abbrev pub report : Report → Verifier → Verifier
report (adding result) v = (add_stage result v).1
report (claiming claim) v = record_agent_claim claim v

abbrev pub reports : List Report → Verifier → Verifier
reports [] v = v
reports (c ∷ cs) v = reports cs (report c v)

abbrev pub HasFailed : VerifierStage → Verifier → Type 0
HasFailed s v = (r : StageResult) × (v.stages s ≡ some r) × (is_failed r ≡ true)

same_stage_iff : (s t : VerifierStage) → (same_stage s t ≡ true) ↔ (s ≡ t)
same_stage_iff s t = ground arith

insert_stage-IsKeyed :
    (result : StageResult) (v : Verifier) → IsKeyed v → IsKeyed (insert_stage result v)
insert_stage-IsKeyed result v h s r e = elim (Bool-cases (same_stage s result.stage)) [
  | inl t ↦
      let same = (same_stage_iff s result.stage).0 t in
      let got : some result ≡ some r = rw t at e in
      let one : result ≡ r = cc in sym (ap (λ x. x.stage) one) ∙ sym same
  | inr t ↦ h s r (rw t at e)
]

add_again-IsKeyed :
    (existing result : StageResult) (v : Verifier)
    → IsKeyed v
    → IsKeyed (add_again existing result v).1
unfolding add_again
add_again-IsKeyed existing result v h = elim (Bool-cases (is_failed existing && is_passed result)) [
  | inl a ↦ rw a h
  | inr a ↦ elim (Bool-cases (is_passed existing && is_failed result)) [
    | inl b ↦ rw a (
        rw b (
          insert_stage-IsKeyed result (disagree result (text "passed; later failure recorded") v)
            h))
    | inr b ↦ rw a (rw b h)
  ]
]

report-IsKeyed : (c : Report) (v : Verifier) → IsKeyed v → IsKeyed (report c v)
unfolding add_stage record_agent_claim
report-IsKeyed (claiming claim) v h = h
report-IsKeyed (adding result) v h = elim (Option-cases (v.stages result.stage)) [
  | inl e ↦ rw (e, report) (insert_stage-IsKeyed result v h)
  | inr (existing, e) ↦ rw (e, report) (add_again-IsKeyed existing result v h)
]

-- An insertion leaves a failure where it was, or puts one in its place.
insert_stage-HasFailed :
    (result : StageResult) (v : Verifier) (s : VerifierStage)
    → (s ≡ result.stage → is_failed result ≡ true)
    → HasFailed s v
    → HasFailed s (insert_stage result v)
insert_stage-HasFailed result v s here (r, e, f) = elim (Bool-cases (same_stage s result.stage)) [
  | inl t ↦ (result, rw t refl, here ((same_stage_iff s result.stage).0 t))
  | inr t ↦ (r, rw t e, f)
]

add_again-HasFailed :
    (existing result : StageResult) (v : Verifier) (s : VerifierStage)
    → HasFailed s v
    → HasFailed s (add_again existing result v).1
unfolding add_again
add_again-HasFailed existing result v s h =
    elim (Bool-cases (is_failed existing && is_passed result)) [
      | inl a ↦ rw a h
      | inr a ↦ elim (Bool-cases (is_passed existing && is_failed result)) [
        | inl b ↦ rw a (
            rw b (
              insert_stage-HasFailed result
                (disagree result (text "passed; later failure recorded") v) s (λ same. ground arith)
                h))
        | inr b ↦ rw a (rw b h)
      ]
    ]

report-HasFailed :
    (c : Report) (v : Verifier) (s : VerifierStage) → HasFailed s v → HasFailed s (report c v)
unfolding add_stage record_agent_claim
report-HasFailed (claiming claim) v s h = h
report-HasFailed (adding result) v s h = elim (Option-cases (v.stages result.stage)) [
  | inl e ↦
      rw (e, report)
        (insert_stage-HasFailed result v s
          (λ same. absurd (let taken = h.1 in let free = rw (← same) at e in cc)) h)
  | inr (existing, e) ↦ rw (e, report) (add_again-HasFailed existing result v s h)
]

failed-unsupported : (r : StageResult) → is_failed r ≡ true → IsSupported (some r) → ⊥
unfolding is_failed is_passed
failed-unsupported r f h = ground (arith, all-passed r.evidence)

HasFailed-required :
    (s : VerifierStage) (v : Verifier)
    → is_blocking s ≡ true
    → HasFailed s v
    → All (λ s. IsSupported (v.stages s)) required_stages
    → ⊥
unfolding is_blocking
HasFailed-required deterministic v b (r, e, f) h = failed-unsupported r f (rw e at h.0)
HasFailed-required build_test v b (r, e, f) h = failed-unsupported r f (rw e at h.1.0)
HasFailed-required health v b (r, e, f) h = failed-unsupported r f (rw e at h.1.1.0)
HasFailed-required schema v b (r, e, f) h = failed-unsupported r f (rw e at h.1.1.1.0)
HasFailed-required browser v b (r, e, f) h = failed-unsupported r f (rw e at h.1.1.1.1.0)
HasFailed-required advisory v b (r, e, f) h = cc
HasFailed-required human v b (r, e, f) h = failed-unsupported r f (rw e at h.1.1.1.1.1.0)

pub new_verifier-IsKeyed : IsKeyed new_verifier
unfolding new_verifier
new_verifier-IsKeyed s r e = absurd (cc)

pub reports-IsKeyed : (cs : List Report) (v : Verifier) → IsKeyed v → IsKeyed (reports cs v)
reports-IsKeyed [] v h = h
reports-IsKeyed (c ∷ cs) v h = reports-IsKeyed cs (report c v) (report-IsKeyed c v h)

reports-HasFailed :
    (cs : List Report) (v : Verifier) (s : VerifierStage)
    → HasFailed s v
    → HasFailed s (reports cs v)
reports-HasFailed [] v s h = h
reports-HasFailed (c ∷ cs) v s h = reports-HasFailed cs (report c v) s (report-HasFailed c v s h)

-- Once a blocking stage has failed, no later stage result and no claim of the agent makes the
-- verdict a pass, where each result is stored under its own stage.
pub failed_never_passes :
    (cs : List Report) (v : Verifier) (s : VerifierStage)
    → IsKeyed v
    → is_blocking s ≡ true
    → HasFailed s v
    → verdict (reports cs v) ≢ passed
failed_never_passes cs v s keyed b h pass =
    HasFailed-required s (reports cs v) b (reports-HasFailed cs v s h)
      ((verdict_passed_iff (reports cs v) (reports-IsKeyed cs v keyed)).0 pass)
