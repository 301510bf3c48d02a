-- ===== src/Observability/Trail.antt =====
-- The chain of the audit trail.
use labrys.Base.{
  ℕ, ◌+◌, ◌≡◌, ◌≢◌, ◌↔◌, ◌⊎◌, inl, inr, refl, sym, ◌∙◌, List, [], ◌∷◌, ◌++◌, Text, text_eq_iff,
  length, last, ok, arith,
}
use labrys.Base.Clock.{Instant}
use labrys.Observability.Audit.{
  AuditRecord, AuditLog, new_audit, genesis, hash_of, compute_hash, chained, append_audit,
  restore_audit, verify_from, verify,
}

-- A call of `append`, with its arguments.
pub record Entry : Type 0 where
  pub at : Instant
  pub actor : Text
  pub action : Text
  pub target : Text
  pub detail : Text
  pub secrets : List Text

module _ (rfc3339 : Instant → Text) where
  abbrev pub appended : Entry → AuditLog → AuditLog
  appended e log = (append_audit rfc3339 e.at e.actor e.action e.target e.detail e.secrets log).1

  abbrev pub append_all : List Entry → AuditLog → AuditLog
  append_all [] log = log
  append_all (e ∷ es) log = append_all es (appended e log)

  -- Numbered from `n`, linked from `prev`, each with its own digest.
  abbrev pub IsChained : ℕ → Text → List AuditRecord → Type 0
  IsChained n prev [] = Unit
  IsChained n prev (r ∷ rs) =
      (r.sequence ≡ n)
      × (r.prev_hash ≡ prev)
      × (r.hash ≡ compute_hash rfc3339 r)
      × IsChained (n + 1) r.hash rs

  verify_from_iff :
      (n : ℕ) (prev : Text) (rs : List AuditRecord)
      → (verify_from rfc3339 n prev rs ≡ ok tt) ↔ IsChained n prev rs
  unfolding verify_from
  verify_from_iff n prev [] = (λ _. tt, λ _. refl)
  verify_from_iff n prev (r ∷ rs) = ground (
    arith,
    text_eq_iff r.prev_hash prev,
    text_eq_iff r.hash (compute_hash rfc3339 r),
    verify_from_iff (n + 1) r.hash rs,
  )

  -- The hash that the next record links to.
  abbrev pub end_hash : Text → List AuditRecord → Text
  end_hash prev [] = prev
  end_hash prev (r ∷ rs) = end_hash r.hash rs

  -- The number of the next record.
  abbrev pub end_at : ℕ → List AuditRecord → ℕ
  end_at n [] = n
  end_at n (r ∷ rs) = end_at (n + 1) rs

  IsChained-append :
      (n : ℕ) (prev : Text) (rs ss : List AuditRecord)
      → IsChained n prev (rs ++ ss)
        ↔ (IsChained n prev rs × IsChained (end_at n rs) (end_hash prev rs) ss)
  IsChained-append n prev [] ss = (λ h. (tt, h), λ h. h.1)
  IsChained-append n prev (r ∷ rs) ss =
      let rest = IsChained-append (n + 1) r.hash rs ss in
      (
        λ h. let both = rest.0 h.3 in ((h.0, h.1, h.2, both.0), both.1),
        λ h. (h.0.0, h.0.1, h.0.2, rest.1 (h.0.3, h.1)),
      )

  end_at-length : (n : ℕ) (rs : List AuditRecord) → end_at n rs ≡ length rs + n
  end_at-length n [] = omega arith
  end_at-length n (r ∷ rs) = omega (arith, end_at-length (n + 1) rs)

  end_hash-last :
      (prev : Text) (r : AuditRecord) (rs : List AuditRecord)
      → end_hash prev (r ∷ rs) ≡ hash_of (last (r ∷ rs))
  end_hash-last prev r [] = refl
  end_hash-last prev r (s ∷ rs) = end_hash-last r.hash s rs

  end_hash-genesis : (rs : List AuditRecord) → end_hash genesis rs ≡ hash_of (last rs)
  end_hash-genesis [] = refl
  end_hash-genesis (r ∷ rs) = end_hash-last genesis r rs

  abbrev IsIntact : AuditLog → Type 0
  IsIntact log = IsChained 1 genesis log.records

  appended-IsIntact : (e : Entry) (log : AuditLog) → IsIntact log → IsIntact (appended e log)
  unfolding append_audit chained compute_hash
  appended-IsIntact e log h =
      let r = chained rfc3339 e.at e.actor e.action e.target e.detail e.secrets log in
      (IsChained-append 1 genesis log.records (r ∷ [])).1
        (h, (sym (end_at-length 1 log.records), sym (end_hash-genesis log.records), refl, tt))

  append_all-IsIntact :
      (es : List Entry) (log : AuditLog) → IsIntact log → IsIntact (append_all es log)
  append_all-IsIntact [] log h = h
  append_all-IsIntact (e ∷ es) log h =
      append_all-IsIntact es (appended e log) (appended-IsIntact e log h)

  -- A trail that was written by appends to a new one passes the verification, also after its
  -- records were stored and restored.
  pub append-verify :
      (es : List Entry) → verify rfc3339 (restore_audit (append_all es new_audit).records) ≡ ok tt
  unfolding verify restore_audit new_audit
  append-verify es =
      (verify_from_iff 1 genesis (append_all es new_audit).records).1
        (append_all-IsIntact es new_audit tt)

  verify-IsIntact : (log : AuditLog) → verify rfc3339 log ≡ ok tt → IsIntact log
  unfolding verify
  verify-IsIntact log h = (verify_from_iff 1 genesis log.records).0 h

  -- Two trails that pass and have the same record after different ones: these share the stored hash
  -- and the digest.
  verify-collision :
      (before after after' : List AuditRecord) (r r' next : AuditRecord)
      → verify rfc3339 (record { records = before ++ r ∷ next ∷ after }) ≡ ok tt
      → verify rfc3339 (record { records = before ++ r' ∷ next ∷ after' }) ≡ ok tt
      → (r.hash ≡ r'.hash) × (compute_hash rfc3339 r ≡ compute_hash rfc3339 r')
  verify-collision before after after' r r' next h h' =
      let c = (IsChained-append 1 genesis before (r ∷ next ∷ after)).0 (verify-IsIntact _ h) in
      let c' = (IsChained-append 1 genesis before (r' ∷ next ∷ after')).0 (verify-IsIntact _ h') in
      let same : r.hash ≡ r'.hash = sym c.1.3.1 ∙ c'.1.3.1 in (same, sym c.1.2 ∙ same ∙ c'.1.2)

  -- When a record of a trail that passes the verification is replaced by one with another digest or
  -- another stored hash, the verification fails, as long as the next record is the same; what comes
  -- after that may be anything, and the stored hash may have been computed anew.
  pub verify-tampered :
      (before after after' : List AuditRecord) (r r' next : AuditRecord)
      → verify rfc3339 (record { records = before ++ r ∷ next ∷ after }) ≡ ok tt
      → (compute_hash rfc3339 r ≢ compute_hash rfc3339 r') ⊎ (r.hash ≢ r'.hash)
      → verify rfc3339 (record { records = before ++ r' ∷ next ∷ after' }) ≢ ok tt
  verify-tampered before after after' r r' next h (inl other) h' =
      other (verify-collision before after after' r r' next h h').1
  verify-tampered before after after' r r' next h (inr other) h' =
      other (verify-collision before after after' r r' next h h').0

  -- A trail that passes the verification still passes when its newest records are dropped.
  pub verify-truncated :
      (kept dropped : List AuditRecord)
      → verify rfc3339 (record { records = kept ++ dropped }) ≡ ok tt
      → verify rfc3339 (record { records = kept }) ≡ ok tt
  unfolding verify
  verify-truncated kept dropped h =
      (verify_from_iff 1 genesis kept).1
        ((IsChained-append 1 genesis kept dropped).0
          ((verify_from_iff 1 genesis (kept ++ dropped)).0 h)).0
