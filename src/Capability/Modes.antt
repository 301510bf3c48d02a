-- ===== src/Capability/Modes.antt =====
-- `BoundCapability` and its mode transitions (crates/labrys-core/src/capability.rs).
use labrys.Base.{
  Bool, not, ◌&&◌, ◌||◌, Option, none, some, List, [], ◌∷◌, ◌++◌, Text, text, text_eq, is_blank,
  push, last, Result, ok, err, panic, approval_required, capability_binding, Method, pure, require,
  gets, modify, lift, ◌>>=◌, ◌>>◌, if◌then◌else◌,
}
use labrys.Base.Clock.{Instant}
use labrys.Runtime.{ExplicitApproval}
use labrys.Capability.Bindings.{
  CapabilityMode, adopted, mode_eq, Provider, supplies, supports_mode, Binding, ResourceRef,
}

pub record ModeTransition : Type 0 where
  pub from : CapabilityMode
  pub to : CapabilityMode
  pub approved_by : Text
  pub at : Instant
  pub reversible : Bool
  pub source : Option Text

pub record BoundCapability : Type 0 where
  pub id : Text
  pub application_id : Text
  pub environment_name : Text
  pub capability : Text
  pub provider : Text
  pub binding : Text
  pub mode : CapabilityMode
  pub resource : ResourceRef
  pub history : List ModeTransition

abbrev pub bound :
    Text
    → Text
    → Text
    → Binding
    → Provider
    → CapabilityMode
    → ResourceRef
    → Text
    → Instant
    → BoundCapability
bound fresh application_id environment_name binding provider mode resource actor at = record {
  id = fresh;
  application_id = application_id;
  environment_name = environment_name;
  capability = binding.capability;
  provider = binding.provider;
  binding = binding.key;
  mode = mode;
  resource = resource;
  history =
      record {
        from = mode;
        to = mode;
        approved_by = actor;
        at = at;
        reversible = provider.supports_reversal;
        source = none;
      }
      ∷ [];
}

unfoldable pub bind :
    Text
    → Text
    → Text
    → Binding
    → Provider
    → CapabilityMode
    → ResourceRef
    → Text
    → Instant
    → Result BoundCapability
unfolding supplies supports_mode
bind fresh application_id environment_name binding provider mode resource actor at =
    if not (text_eq binding.capability resource.capability)
      || not (text_eq binding.provider resource.provider)
    then err capability_binding
    else if not (supplies provider binding.capability)
        || not (text_eq provider.key binding.provider)
    then err capability_binding
    else if not (supports_mode provider mode)
    then err capability_binding
    else ok (bound fresh application_id environment_name binding provider mode resource actor at)

-- `history.last().expect("history is never empty").to`.
abbrev pub latest : Option ModeTransition → Result CapabilityMode
latest none = panic
latest (some t) = ok t.to

-- Out of the adopted mode, which the provider may not support.
abbrev pub is_stuck : Provider → CapabilityMode → BoundCapability → Bool
is_stuck provider next b =
    mode_eq b.mode adopted && not (mode_eq next adopted) && not provider.supports_reversal

unfoldable pub transition :
    CapabilityMode → Provider → ExplicitApproval → Instant → Method BoundCapability ModeTransition
unfolding supports_mode
transition next provider approval at = do
  require approval.approved approval_required
  require (not (is_blank approval.approver)) approval_required
  same ← gets (λ b. mode_eq next b.mode)
  require (not same) capability_binding
  require (supports_mode provider next) capability_binding
  stuck ← gets (is_stuck provider next)
  require (not stuck) capability_binding
  source ← gets (λ b.
      if mode_eq next adopted
      then some (b.provider ++ (text ":" ++ b.resource.external_ref))
      else none)
  modify (λ b. record b { mode = next })
  former ← gets (λ b. latest (last b.history))
  from ← lift former
  let t : ModeTransition = record {
    from = from;
    to = next;
    approved_by = approval.approver;
    at = at;
    reversible = provider.supports_reversal;
    source = source;
  }
  modify (λ b. record b { history = push b.history t })
  pure t
