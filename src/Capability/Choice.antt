-- ===== src/Capability/Choice.antt =====
-- Which binding is resolved, and what a change of mode needs.
use labrys.Base.{
  ◌≡◌, ◌↔◌, ◌⊎◌, refl, true, false, Option, none, some, List, [], ◌∷◌, Text, text_eq, find, retain,
  Result, ok, err, CoreError, capability_binding, if◌then◌else◌, is_ok, is_blank, arith, Bool-cases,
  inl, inr,
}
use labrys.Base.Clock.{Instant}
use labrys.Runtime.{ExplicitApproval}
use labrys.Capability.Bindings.{
  Provider, Binding, CapabilityMode, mode_eq, supplies, supports_mode, is_generic, deep_ones,
  connects, only_generic, choose, resolve_candidates, resolve_binding,
}
use labrys.Capability.Modes.{BoundCapability, transition, is_stuck}

-- The one binding of the project's framework, or without any the one generic binding.
abbrev pub IsChosen : Option Text → List Binding → Binding → Type 0
IsChosen wanted candidates b =
    (deep_ones wanted candidates ≡ b ∷ [])
    ⊎ ((deep_ones wanted candidates ≡ []) × (retain is_generic candidates ≡ b ∷ []))

only_generic_iff : (bs : List Binding) (b : Binding) → (only_generic bs ≡ ok b) ↔ (bs ≡ b ∷ [])
unfolding only_generic
only_generic_iff [] b = (λ h. cc, λ h. cc)
only_generic_iff (x ∷ []) b = (λ h. let e : x ≡ b = cc in cc, λ h. let e : x ≡ b = cc in cc)
only_generic_iff (x ∷ y ∷ bs) b = (λ h. cc, λ h. cc)

choose_iff :
    (deep generic : List Binding) (b : Binding)
    → (choose deep generic ≡ ok b) ↔ ((deep ≡ b ∷ []) ⊎ ((deep ≡ []) × (generic ≡ b ∷ [])))
unfolding choose
choose_iff [] generic b = let one = only_generic_iff generic b in ground (arith, one)
choose_iff (x ∷ []) generic b = ground arith
choose_iff (x ∷ y ∷ bs) generic b = ground arith

resolve_candidates_iff :
    (wanted : Option Text) (bs : List Binding) (b : Binding)
    → (resolve_candidates wanted bs ≡ ok b) ↔ IsChosen wanted bs b
unfolding resolve_candidates
resolve_candidates_iff none [] b = (λ h. cc, λ h. ground arith)
resolve_candidates_iff (some w) [] b = (λ h. cc, λ h. ground arith)
resolve_candidates_iff wanted (x ∷ bs) b =
    choose_iff (deep_ones wanted (x ∷ bs)) (retain is_generic (x ∷ bs)) b

-- A binding is resolved exactly when the first provider with the key supplies the capability, and
-- among the bindings of the capability to the provider the binding is the only one of the project's
-- framework, or there is none of that framework and the binding is the only generic one.
pub resolve_binding_iff :
    (bindings : List Binding) (providers : List Provider) (capability_key provider_key : Text)
    (wanted : Option Text) (b : Binding)
    → (resolve_binding bindings providers capability_key provider_key wanted ≡ ok b) ↔ (
        ((p : Provider) × (find (λ p. text_eq p.key provider_key) providers ≡ some p)
          × (supplies p capability_key ≡ true))
        × IsChosen wanted (retain (connects capability_key provider_key) bindings) b)
unfolding resolve_binding
resolve_binding_iff bindings providers capability_key provider_key wanted b =
    held (find (λ p. text_eq p.key provider_key) providers)
  where
    candidates : List Binding
    candidates = retain (connects capability_key provider_key) bindings

    held :
        (o : Option Provider)
        → ((elim o as (λ _. Result Binding) [
          | none ↦ err capability_binding
          | some provider ↦
              if supplies provider capability_key
              then resolve_candidates wanted candidates
              else err capability_binding
        ])
            ≡ ok b)
          ↔ (((p : Provider) × (o ≡ some p) × (supplies p capability_key ≡ true))
              × IsChosen wanted candidates b)
    held none = (λ h. cc, λ h. let e = h.0.1 in cc)
    held (some p) = elim (Bool-cases (supplies p capability_key)) [
      | inl t ↦ rw t (
        λ h. ((p, refl, t), (resolve_candidates_iff wanted candidates b).0 h),
        λ h. (resolve_candidates_iff wanted candidates b).1 h.1,
      )
      | inr t ↦ rw t (λ h. cc, λ h. let e = h.0.1 in let s = h.0.2 in ground arith)
    ]

-- What a change of mode needs.
pub record IsPermitted (next : CapabilityMode) (provider : Provider) (a : ExplicitApproval)
    (b : BoundCapability) : Type 0 where
  pub approved : a.approved ≡ true
  pub named : is_blank a.approver ≡ false
  pub changes : mode_eq next b.mode ≡ false
  pub operated : supports_mode provider next ≡ true
  pub unstuck : is_stuck provider next b ≡ false

transition_ok :
    (next : CapabilityMode) (provider : Provider) (a : ExplicitApproval) (at : Instant)
    (b : BoundCapability)
    → is_ok (transition next provider a at b).0 ≡ true
    → IsPermitted next provider a b × ((transition next provider a at b).1.mode ≡ next)
unfolding transition
transition_ok next provider a at b h = ground arith

transition_err :
    (next : CapabilityMode) (provider : Provider) (a : ExplicitApproval) (at : Instant)
    (b : BoundCapability) {e : CoreError}
    → (transition next provider a at b).0 ≡ err e
    → (transition next provider a at b).1 ≡ b
unfolding transition
transition_err next provider a at b {e} h = ground arith

-- A change of mode that succeeds had a granted approval with an approver's name, a mode that is
-- another one and that the provider operates, and does not leave the adopted mode with a provider
-- that cannot reverse; the capability is then in that mode. One that fails with an error changes
-- nothing.
pub transition_lem :
    (next : CapabilityMode) (provider : Provider) (a : ExplicitApproval) (at : Instant)
    (b : BoundCapability)
    → (is_ok (transition next provider a at b).0 ≡ true
        → IsPermitted next provider a b × ((transition next provider a at b).1.mode ≡ next))
      × ((e : CoreError)
          → (transition next provider a at b).0 ≡ err e
          → (transition next provider a at b).1 ≡ b)
transition_lem next provider a at b =
    (transition_ok next provider a at b, λ e. transition_err next provider a at b {e = e})
