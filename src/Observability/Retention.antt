-- ===== src/Observability/Retention.antt =====
-- What the retention of evidence keeps.
use labrys.Base.{
  ℕ, ◌-◌, ◌≤◌, ◌≡◌, refl, inl, inr, min, Bool, false, not, List, [], ◌∷◌, leb, length, any, retain,
  arith, Bool-cases,
}
use labrys.Base.Clock.{Instant}
use labrys.Observability.Evidence.{
  VerificationEvidence, is_expired, prune_first, prune, EvidenceStore, is_blocking_failure,
  retain_failures, retain_evidence,
}

module _ (expired : VerificationEvidence → Bool) where
  abbrev recent : VerificationEvidence → Bool
  recent e = not (expired e)

  prune_first-recent :
      (n : ℕ) (es : List VerificationEvidence)
      → retain recent (prune_first n expired es).1 ≡ retain recent es
  unfolding prune_first
  prune_first-recent n [] = refl
  prune_first-recent n (e ∷ es) = ground (arith, prune_first-recent (n - 1) es)

  prune_first-length :
      (n : ℕ) (es : List VerificationEvidence) → length es - n ≤ length (prune_first n expired es).1
  unfolding prune_first
  prune_first-length n [] = omega arith
  prune_first-length n (e ∷ es) = ground (arith, prune_first-length (n - 1) es)

  retain_failures-recent :
      (es : List VerificationEvidence)
      → retain recent (retain_failures expired es).1 ≡ retain recent es
  unfolding retain_failures
  retain_failures-recent [] = refl
  retain_failures-recent (e ∷ es) = ground (arith, retain_failures-recent es)

  retain_failures-failures :
      (es : List VerificationEvidence)
      → retain is_blocking_failure (retain_failures expired es).1 ≡ retain is_blocking_failure es
  unfolding retain_failures
  retain_failures-failures [] = refl
  retain_failures-failures (e ∷ es) = ground (arith, retain_failures-failures es)

  prune_first-failures :
      (n : ℕ) (es : List VerificationEvidence)
      → any is_blocking_failure es ≡ false
      → retain is_blocking_failure (prune_first n expired es).1 ≡ retain is_blocking_failure es
  unfolding prune_first
  prune_first-failures n [] h = refl
  prune_first-failures n (e ∷ es) h = ground (arith, prune_first-failures (n - 1) es)

-- Retention keeps every blocking failure and every record that has not expired, each in its order;
-- and where no blocking failure is stored, it keeps at least as many records as the policy's
-- minimum, or all that there are.
pub retain_evidence_lem :
    (now : Instant) (store : EvidenceStore)
    → let kept = (retain_evidence now store).1.evidence in
      (retain is_blocking_failure kept ≡ retain is_blocking_failure store.evidence)
      × (retain (λ e. not (is_expired store.policy now e)) kept
          ≡ retain (λ e. not (is_expired store.policy now e)) store.evidence)
      × (any is_blocking_failure store.evidence ≡ false
          → min (length store.evidence) store.policy.keep_latest ≤ length kept)
unfolding retain_evidence prune
retain_evidence_lem now store =
    let es = store.evidence in
    let expired : VerificationEvidence → Bool = is_expired store.policy now in
    let n = length es - store.policy.keep_latest in
    elim (Bool-cases (any is_blocking_failure es)) [
      | inl some_failed ↦
          rw some_failed
            (retain_failures-failures expired es, retain_failures-recent expired es, λ h. cc)
      | inr clean ↦ elim (Bool-cases (leb (length es) store.policy.keep_latest)) [
        | inl few ↦ rw clean (rw few (refl, refl, λ h. omega arith))
        | inr many ↦
            let long = prune_first-length expired n es in
            rw clean (
              rw many (
                prune_first-failures expired n es clean,
                prune_first-recent expired n es,
                λ h. omega (arith, long),
              ))
      ]
    ]
