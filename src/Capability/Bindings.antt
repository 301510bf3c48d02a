-- ===== src/Capability/Bindings.antt =====
-- Capabilities, providers, bindings and `resolve_binding` (crates/labrys-core/src/capability.rs).
use labrys.Base.{
  ℕ, Bool, true, false, ◌&&◌, Option, none, some, List, [], ◌∷◌, ◌++◌, Text, text, text_eq, any,
  find, retain, TreeMap, insert, Result, ok, err, capability_binding, if◌then◌else◌,
}

pub data EnvSource : Type 0 where
  literal secret_ref resource_field : Text → EnvSource

abbrev pub EnvContract : Type 0
EnvContract = TreeMap EnvSource

pub record Capability : Type 0 where
  pub key : Text
  pub version : ℕ  -- u32
  pub dependencies : List Text

unfoldable pub new_capability : Text → ℕ → Capability
new_capability key version = record { key = key; version = version; dependencies = [] }

unfoldable pub with_dependencies : Capability → List Text → Capability
with_dependencies c dependencies = record c { dependencies = dependencies }

pub data CapabilityMode : Type 0 where
  managed external adopted : CapabilityMode

abbrev pub mode_eq : CapabilityMode → CapabilityMode → Bool
mode_eq managed managed = true
mode_eq external external = true
mode_eq adopted adopted = true
mode_eq _ _ = false

pub record Provider : Type 0 where
  pub key : Text
  pub capability : Text
  pub version : ℕ  -- u32
  pub supports_reversal : Bool
  pub modes : List CapabilityMode

unfoldable pub supplies : Provider → Text → Bool
supplies p capability_key = text_eq p.capability capability_key

unfoldable pub supports_mode : Provider → CapabilityMode → Bool
supports_mode p mode = any (λ m. mode_eq m mode) p.modes

pub data BindingKind : Type 0 where
  framework_kind : Text → BindingKind
  generic_kind : BindingKind

pub record Binding : Type 0 where
  pub key : Text
  pub capability : Text
  pub provider : Text
  pub version : ℕ  -- u32
  pub kind : BindingKind
  pub env : EnvContract

unfoldable pub is_generic : Binding → Bool
is_generic b = elim b.kind [ framework_kind _ ↦ false | generic_kind ↦ true ]

unfoldable pub framework : Binding → Option Text
framework b = elim b.kind [ framework_kind name ↦ some name | generic_kind ↦ none ]

abbrev refs_of : EnvContract → List Text
refs_of [] = []
refs_of ((_, secret_ref id) ∷ env) = id ∷ refs_of env
refs_of ((_, literal _) ∷ env) = refs_of env
refs_of ((_, resource_field _) ∷ env) = refs_of env

unfoldable pub secret_refs : Binding → List Text
secret_refs b = refs_of b.env

pub record ResourceRef : Type 0 where
  pub id : Text
  pub capability : Text
  pub provider : Text
  pub external_ref : Text

-- `b.framework() == Some(framework)`.
abbrev pub is_deep : Text → Binding → Bool
unfolding framework
is_deep name b = elim (framework b) [ some f ↦ text_eq f name | none ↦ false ]

abbrev pub connects : Text → Text → Binding → Bool
connects capability_key provider_key b =
    text_eq b.capability capability_key && text_eq b.provider provider_key

-- The one generic binding.
unfoldable pub only_generic : List Binding → Result Binding
only_generic (b ∷ []) = ok b
only_generic _ = err capability_binding

-- The bindings of the framework, and the generic ones among the candidates.
unfoldable pub choose : List Binding → List Binding → Result Binding
unfolding only_generic
choose [] generic = only_generic generic
choose (b ∷ []) generic = ok b
choose (b ∷ c ∷ bs) generic = err capability_binding

abbrev pub deep_ones : Option Text → List Binding → List Binding
deep_ones none candidates = []
deep_ones (some name) candidates = retain (is_deep name) candidates

unfoldable pub resolve_candidates : Option Text → List Binding → Result Binding
unfolding choose is_generic
resolve_candidates wanted [] = err capability_binding
resolve_candidates wanted (b ∷ bs) = choose (deep_ones wanted (b ∷ bs)) (retain is_generic (b ∷ bs))

unfoldable pub resolve_binding :
    List Binding → List Provider → Text → Text → Option Text → Result Binding
unfolding supplies resolve_candidates
resolve_binding bindings providers capability_key provider_key wanted =
    elim (find (λ p. text_eq p.key provider_key) providers) [
      | none ↦ err capability_binding
      | some provider ↦
          if supplies provider capability_key
          then resolve_candidates wanted (retain (connects capability_key provider_key) bindings)
          else err capability_binding
    ]

unfoldable pub generic_postgres_binding : Text → Binding
unfolding insert
generic_postgres_binding provider_key = record {
  key = text "postgres.generic";
  capability = text "database.postgres";
  provider = provider_key;
  version = 1;
  kind = generic_kind;
  env = insert (text "DATABASE_URL") (secret_ref (provider_key ++ text ".database_url")) [];
}

unfoldable pub generic_object_storage_binding : Text → Binding
unfolding insert
generic_object_storage_binding provider_key = record {
  key = text "object-storage.generic";
  capability = text "storage.object";
  provider = provider_key;
  version = 1;
  kind = generic_kind;
  env =
      insert (text "OBJECT_STORAGE_SECRET_KEY") (secret_ref (provider_key ++ text ".secret_key")) (
        insert (text "OBJECT_STORAGE_ACCESS_KEY") (secret_ref (provider_key ++ text ".access_key"))
          (insert (text "OBJECT_STORAGE_BUCKET") (resource_field (text "bucket"))
            (insert (text "OBJECT_STORAGE_URL") (resource_field (text "endpoint")) [])));
}

unfoldable pub generic_auth_binding : Text → Binding
unfolding insert
generic_auth_binding provider_key = record {
  key = text "auth.generic";
  capability = text "auth";
  provider = provider_key;
  version = 1;
  kind = generic_kind;
  env =
      insert (text "AUTH_SECRET_KEY") (secret_ref (provider_key ++ text ".signing_key"))
        (insert (text "AUTH_URL") (resource_field (text "issuer")) []);
}

unfoldable pub generic_file_storage_binding : Text → Binding
unfolding insert
generic_file_storage_binding provider_key = record {
  key = text "file-storage.generic";
  capability = text "storage.file";
  provider = provider_key;
  version = 1;
  kind = generic_kind;
  env =
      insert (text "FILE_STORAGE_TOKEN") (secret_ref (provider_key ++ text ".token"))
        (insert (text "FILE_STORAGE_URL") (resource_field (text "root")) []);
}
