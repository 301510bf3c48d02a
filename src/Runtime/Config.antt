-- ===== src/Runtime/Config.antt =====
-- `RuntimeKind`, `SupportTier`, `RuntimeProfile`, `HealthStatus`, `Endpoint`, `SandboxLimits` and
-- `RuntimeConfig` (crates/labrys-core/src/runtime.rs); `ExplicitApproval`
-- (crates/labrys-core/src/inspector.rs).
use labrys.Base.{
  ℕ, ◌==◌, ◌||◌, Bool, true, false, not, Option, List, [], ◌∷◌, Text, text, is_blank, Result, ok,
  err, invalid_runtime, if◌then◌else◌,
}

pub data RuntimeKind : Type 0 where
  generic node dot_net python rust expo : RuntimeKind

unfoldable pub canonical_name : RuntimeKind → Text
canonical_name generic = text "generic"
canonical_name node = text "node"
canonical_name dot_net = text "dotnet"
canonical_name python = text "python"
canonical_name rust = text "rust"
canonical_name expo = text "expo"

pub data SupportTier : Type 0 where
  tier0 tier1 tier2 tier3 : SupportTier

pub data RuntimeProfile : Type 0 where
  development production : RuntimeProfile

abbrev pub is_production : RuntimeProfile → Bool
is_production development = false
is_production production = true

pub data HealthStatus : Type 0 where
  starting healthy : HealthStatus
  unhealthy unknown : Text → HealthStatus

abbrev pub is_status_healthy : HealthStatus → Bool
is_status_healthy healthy = true
is_status_healthy _ = false

pub record Endpoint : Type 0 where
  pub host : Text
  pub port : ℕ  -- u16
  pub exposed : Bool

unfoldable pub new_endpoint : Text → ℕ → Bool → Result Endpoint
new_endpoint host port exposed =
    if port == 0
    then err invalid_runtime
    else ok (record { host = host; port = port; exposed = exposed })

unfoldable pub loopback : ℕ → Bool → Result Endpoint
unfolding new_endpoint
loopback port exposed = new_endpoint (text "127.0.0.1") port exposed

pub data NetworkMode : Type 0 where
  disabled isolated bridged : NetworkMode

pub record SandboxLimits : Type 0 where
  pub cpu_millicpus : ℕ  -- u32
  pub memory_mb : ℕ  -- u32
  pub timeout_secs : ℕ  -- u64
  pub readonly_root : Bool
  pub network : NetworkMode
  pub drop_capabilities : List Text
  pub max_processes : ℕ  -- u32

unfoldable pub docker_default : SandboxLimits
docker_default = record {
  cpu_millicpus = 1000;
  memory_mb = 512;
  timeout_secs = 600;
  readonly_root = true;
  network = isolated;
  drop_capabilities = text "ALL" ∷ [];
  max_processes = 128;
}

unfoldable pub validate : SandboxLimits → Result (Unit {0})
validate limits =
    if limits.cpu_millicpus == 0
    then err invalid_runtime
    else if limits.memory_mb == 0
    then err invalid_runtime
    else if limits.timeout_secs == 0
    then err invalid_runtime
    else if limits.max_processes == 0
    then err invalid_runtime
    else ok tt

abbrev pub is_disabled : NetworkMode → Bool
is_disabled disabled = true
is_disabled _ = false

unfoldable pub allows_port_exposure : SandboxLimits → Bool
allows_port_exposure limits = not (is_disabled limits.network)

pub record RuntimeConfig : Type 0 where
  pub kind : RuntimeKind
  pub tier : SupportTier
  pub profile : RuntimeProfile
  pub port : ℕ  -- u16
  pub healthcheck_path : Option Text
  pub dockerfile : Option Text
  pub run_command : List Text
  pub oci_image : Option Text
  pub limits : SandboxLimits

unfoldable pub config_endpoint : RuntimeConfig → Result Endpoint
unfolding loopback allows_port_exposure
config_endpoint config = loopback config.port (allows_port_exposure config.limits)

pub record ExplicitApproval : Type 0 where
  pub approved : Bool
  pub approver : Text
  pub proposal_summary : Text

-- `!approval.approved || approval.approver.trim().is_empty()`, the test that the gates share.
abbrev pub is_refused : ExplicitApproval → Bool
is_refused approval = not approval.approved || is_blank approval.approver
