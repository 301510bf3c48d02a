-- ===== src/Plugin/Handshakes.antt =====
-- Manifests, errors and the handshake (crates/labrys-core/src/plugin.rs). Of an error the code is
-- kept, not its message.
use labrys.Base.{
  ℕ, ◌==◌, Bool, not, List, [], ◌∷◌, Text, text, text_eq, is_blank, any, all, Result, ok, err,
  CoreError, protocol_version, plugin, plugin_unavailable, if◌then◌else◌,
}

abbrev pub plugin_protocol_version : ℕ
plugin_protocol_version = 1

pub data PluginFamily : Type 0 where
  agent_provider capability_provider binding_provider : PluginFamily
  runtime_provider inspector_provider deploy_provider : PluginFamily

abbrev pub family_rank : PluginFamily → ℕ
family_rank agent_provider = 0
family_rank capability_provider = 1
family_rank binding_provider = 2
family_rank runtime_provider = 3
family_rank inspector_provider = 4
family_rank deploy_provider = 5

abbrev pub same_family : PluginFamily → PluginFamily → Bool
same_family a b = family_rank a == family_rank b

unfoldable pub family_name : PluginFamily → Text
family_name agent_provider = text "agent_provider"
family_name capability_provider = text "capability_provider"
family_name binding_provider = text "binding_provider"
family_name runtime_provider = text "runtime_provider"
family_name inspector_provider = text "inspector_provider"
family_name deploy_provider = text "deploy_provider"

unfoldable pub required_methods : PluginFamily → List Text
required_methods agent_provider = text "agent.draft_events" ∷ text "agent.interrupt" ∷ []
required_methods capability_provider = text "capability.plan" ∷ text "capability.observe" ∷ []
required_methods binding_provider = text "binding.resolve" ∷ []
required_methods runtime_provider = text "runtime.detect" ∷ text "runtime.prepare" ∷ []
required_methods inspector_provider = text "inspect.snapshot" ∷ text "inspect.findings" ∷ []
required_methods deploy_provider = text "deploy.build" ∷ text "deploy.rollback" ∷ []

pub record PluginManifest : Type 0 where
  pub id : Text
  pub name : Text
  pub version : Text
  pub family : PluginFamily
  pub offered : ℕ  -- the field `protocol_version`, a u32
  pub methods : List Text
  pub command : List Text
  pub capabilities : List Text

unfoldable pub new_manifest : Text → Text → PluginFamily → ℕ → List Text → PluginManifest
new_manifest id name family offered methods = record {
  id = id;
  name = name;
  version = text "0.1.0";
  family = family;
  offered = offered;
  methods = methods;
  command = [];
  capabilities = [];
}

unfoldable pub with_command : PluginManifest → List Text → PluginManifest
with_command m command = record m { command = command }

unfoldable pub with_capabilities : PluginManifest → List Text → PluginManifest
with_capabilities m capabilities = record m { capabilities = capabilities }

-- `self.methods.iter().any(|m| m == method)`.
abbrev pub answers : List Text → Text → Bool
answers methods method = any (λ m. text_eq m method) methods

unfoldable pub implements_family : PluginManifest → Bool
unfolding required_methods
implements_family m = all (answers m.methods) (required_methods m.family)

pub data RpcErrorCode : Type 0 where
  parse_error invalid_request method_not_found invalid_params : RpcErrorCode
  internal_error unavailable cancelled version_mismatch : RpcErrorCode

-- `RpcError::from_core_error`.
unfoldable pub from_core_error : CoreError → RpcErrorCode
from_core_error plugin_unavailable = unavailable
from_core_error plugin = invalid_params
from_core_error protocol_version = version_mismatch
from_core_error _ = internal_error

pub record Handshake : Type 0 where
  pub plugin_id : Text
  pub family : PluginFamily
  pub negotiated_version : ℕ  -- u32
  pub methods : List Text
  pub capabilities : List Text

abbrev pub agreed : PluginManifest → Handshake
agreed m = record {
  plugin_id = m.id;
  family = m.family;
  negotiated_version = plugin_protocol_version;
  methods = m.methods;
  capabilities = m.capabilities;
}

unfoldable pub negotiate : PluginManifest → Result Handshake
unfolding implements_family
negotiate m =
    if not (m.offered == plugin_protocol_version)
    then err protocol_version
    else if is_blank m.name
    then err plugin
    else if not (implements_family m)
    then err plugin
    else ok (agreed m)
