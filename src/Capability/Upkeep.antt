-- ===== src/Capability/Upkeep.antt =====
-- The rotation of the key, replacement, deletion and redaction of secrets
-- (crates/labrys-core/src/capability.rs).
use labrys.Base.{
  ℕ, ◌+◌, ◌%◌, ◌^◌, Bool, false, not, ◌&&◌, Option, none, some, List, [], ◌∷◌, ◌++◌, Text, text,
  is_empty, contains, length, push, any, values, TreeMap, lookup, insert, Result, ok, err, panic,
  secret_not_found, approval_required, secret_leak, Method, pure, require, gets, modify, lift,
  ◌>>=◌, ◌>>◌, if◌then◌else◌,
}
use labrys.Base.Clock.{Instant}
use labrys.Resource.{replace}
use labrys.Runtime.{ExplicitApproval}
use labrys.Capability.Secrets.{
  Bytes, MasterKey, InjectionGrant, SealedSecret, rotation, replacement, deletion, SecretAudit,
  SecretStore,
}
use labrys.Capability.Store.{
  Cipher, Plain, is_granted, granted_by, found, has, without, seal, open_sealed, open_envelope, put,
}

module _ (c : Cipher) where
  -- Every value under the old key, in the order of the references; the first that fails ends it.
  unfoldable pub open_all : SecretStore → TreeMap SealedSecret → Result (List Plain)
  unfolding open_envelope
  open_all s [] = ok []
  open_all s ((ref_id, sealed) ∷ m) =
      let rest = open_all s m in
      elim (open_envelope c s sealed) [
        | err e ↦ err e
        | panic ↦ panic
        | ok value ↦ elim rest [
          | ok plains ↦ ok (
              record {
                ref_id = ref_id;
                version = (sealed.version + 1) % 2 ^ 64;
                scope = sealed.scope;
                value = value;
              }
              ∷ plains)
          | err e ↦ err e
          | panic ↦ panic
        ]
      ]

  -- One value sealed under the new key, and its audit record.
  unfoldable pub reseal :
      MasterKey
      → (Text → Bytes)
      → ExplicitApproval
      → Text
      → Instant
      → Plain
      → SecretStore
      → SecretStore
  unfolding seal
  reseal new_key nonces approval actor at p s = record s {
    secrets =
        insert p.ref_id (seal c new_key (nonces p.ref_id) p.ref_id p.version p.scope p.value)
          s.secrets;
    audit = push s.audit (record {
      ref_id = p.ref_id;
      action = rotation;
      version = p.version;
      actor = actor;
      at = at;
      approved_by = granted_by approval;
    });
  }

  unfoldable pub reseal_all :
      MasterKey
      → (Text → Bytes)
      → ExplicitApproval
      → Text
      → Instant
      → List Plain
      → SecretStore
      → SecretStore
  unfolding reseal
  reseal_all new_key nonces approval actor at [] s = s
  reseal_all new_key nonces approval actor at (p ∷ ps) s =
      reseal_all new_key nonces approval actor at ps (reseal new_key nonces approval actor at p s)

  -- The fresh nonce of each reference is an argument.
  unfoldable pub rotate_key :
      MasterKey → (Text → Bytes) → ExplicitApproval → Text → Instant → Method SecretStore ℕ
  unfolding open_all reseal_all
  rotate_key new_key nonces approval actor at = do
    guarded ← gets (λ s. any (λ sealed. sealed.scope.production) (values s.secrets))
    require (not (guarded && not (is_granted approval))) approval_required
    opening ← gets (λ s. open_all s s.secrets)
    plains ← lift opening
    modify (reseal_all new_key nonces approval actor at plains)
    modify (λ s. record s { master_key = new_key })
    pure (length plains)

  unfoldable pub replace_secret :
      Bytes
      → Text
      → Text
      → InjectionGrant
      → ExplicitApproval
      → Text
      → Instant
      → Method SecretStore SecretAudit
  unfolding put
  replace_secret nonce ref_id new_value grant approval actor at = do
    require (not (grant.production && not (is_granted approval))) approval_required
    known ← gets (has ref_id)
    require known secret_not_found
    put c nonce ref_id new_value grant actor at
    stored ← gets (λ s. found (lookup ref_id s.secrets))
    sealed ← lift stored
    let audit : SecretAudit = record {
      ref_id = ref_id;
      action = replacement;
      version = sealed.version;
      actor = actor;
      at = at;
      approved_by = granted_by approval;
    }
    modify (λ s. record s { audit = push s.audit audit })
    pure audit

  -- `redact` over the sealed values in the order of the references.
  abbrev pub redact_value : Option Text → Text → Text → Text
  redact_value none ref_id t = t
  redact_value (some value) ref_id t =
      if not (is_empty value) && contains value t
      then replace value (text "[redacted:" ++ (ref_id ++ text "]")) t
      else t

  unfoldable pub redact_all : MasterKey → List SealedSecret → Text → Text
  unfolding open_sealed
  redact_all key [] t = t
  redact_all key (s ∷ ss) t = redact_all key ss (redact_value (open_sealed c key s) s.ref_id t)

  unfoldable pub redact_text : SecretStore → Text → Text
  unfolding redact_all
  redact_text s t = redact_all s.master_key (values s.secrets) t

  abbrev pub holds_value : Option Text → Text → Bool
  holds_value none t = false
  holds_value (some value) t = not (is_empty value) && contains value t

  unfoldable pub leaks_value : SecretStore → Text → Bool
  unfolding open_sealed
  leaks_value s t =
      any (λ sealed. holds_value (open_sealed c s.master_key sealed) t) (values s.secrets)

  unfoldable pub guard_text : SecretStore → Text → Result Text
  unfolding redact_text leaks_value
  guard_text s t = if leaks_value s (redact_text s t) then err secret_leak else ok (redact_text s t)

unfoldable pub delete_secret : Text → Text → Instant → Method SecretStore (Unit {0})
delete_secret ref_id actor at = do
  known ← gets (has ref_id)
  require known secret_not_found
  modify (λ s. record s {
    secrets = without ref_id s.secrets;
    audit = push s.audit (record {
      ref_id = ref_id;
      action = deletion;
      version = 0;
      actor = actor;
      at = at;
      approved_by = none;
    });
  })
