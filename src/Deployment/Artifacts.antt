-- ===== src/Deployment/Artifacts.antt =====
-- `Revision`, `Image`, `build_image`, `digest_of`, the log records and `Domain`
-- (crates/labrys-core/src/deployment.rs).
use labrys.Base.Fnv.{as_bytes, fnv_round, hex_digits}
use labrys.Base.{
  Bool, false, not, ◌&&◌, Option, none, some, [], ◌++◌, Text, text, any, is_blank, is_empty,
  is_whitespace, starts_with, Result, ok, err, deployment, if◌then◌else◌,
}
use labrys.Base.Clock.{Instant}
use labrys.Runtime.{RuntimeKind, generic, is_production, RuntimeConfig, BuildResult, is_success}

pub record Revision : Type 0 where
  pub source_sha : Text
  pub config_hash : Text
  pub capability_hash : Option Text
  pub introduces_migration : Bool

unfoldable pub new_revision : Text → Text → Option Text → Revision
new_revision source_sha config_hash capability_hash = record {
  source_sha = source_sha;
  config_hash = config_hash;
  capability_hash = capability_hash;
  introduces_migration = false;
}

unfoldable pub with_migration : Revision → Bool → Revision
with_migration revision introduces = record revision { introduces_migration = introduces }

pub data ImageSource : Type 0 where
  generic_source native_source : ImageSource

unfoldable pub label : ImageSource → Text
label generic_source = text "generic container runtime"
label native_source = text "native runtime adapter"

pub record Image : Type 0 where
  pub reference : Text
  pub digest : Text
  pub source : ImageSource
  pub runtime_kind : RuntimeKind
  pub revision_sha : Text

unfoldable pub is_addressable : Image → Bool
unfolding starts_with
is_addressable image = starts_with (text "sha256:") image.digest && not (is_empty image.reference)

pub data LogLevel : Type 0 where
  info warn error : LogLevel

pub record DeploymentLog : Type 0 where
  pub level : LogLevel
  pub message : Text
  pub at : Instant

unfoldable pub digest_of : Text → Text → Text
unfolding as_bytes fnv_round hex_digits
digest_of base revision_sha =
    let hash = fnv_round 0xcbf29ce484222325 (as_bytes base ++ as_bytes revision_sha) in
    let second = fnv_round hash (as_bytes revision_sha ++ as_bytes base) in
    hex_digits 16 hash [] ++ hex_digits 16 second []

abbrev pub image_source : RuntimeKind → ImageSource
image_source generic = generic_source
image_source _ = native_source

-- The image that a build mints from an image reference.
unfoldable pub artifact : RuntimeConfig → Text → Revision → Image
unfolding digest_of
artifact config base revision =
    let digest = text "sha256:" ++ digest_of base revision.source_sha in
    record {
      reference = base ++ (text "@" ++ digest);
      digest = digest;
      source = image_source config.kind;
      runtime_kind = config.kind;
      revision_sha = revision.source_sha;
    }

-- `build_image`. The secrets only shape the message of an error, so they are left out.
unfoldable pub build_image : RuntimeConfig → BuildResult → Revision → Result Image
unfolding artifact
build_image config build revision =
    if not (is_production config.profile)
    then err deployment
    else if not (is_success build)
    then err deployment
    else elim config.oci_image [
      | none ↦ err deployment
      | some base ↦ ok (artifact config base revision)
    ]

pub record Domain : Type 0 where
  pub id : Text
  pub environment_id : Text
  pub hostname : Text
  pub tls : Bool
  pub serving : Option Text  -- the field `deployment`

-- `Domain::new`; the fresh identifier is an argument.
unfoldable pub new_domain : Text → Text → Text → Bool → Domain
new_domain fresh environment_id hostname tls = record {
  id = fresh;
  environment_id = environment_id;
  hostname = hostname;
  tls = tls;
  serving = none;
}

unfoldable pub is_routable : Domain → Bool
is_routable domain = not (is_blank domain.hostname) && not (any is_whitespace domain.hostname)
