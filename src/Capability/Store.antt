-- ===== src/Capability/Store.antt =====
-- The operations of `SecretStore` (crates/labrys-core/src/capability.rs).
use labrys.Base.{
  ℕ, ◌+◌, ◌%◌, ◌^◌, ◌==◌, Bool, true, false, not, ◌&&◌, Option, none, some, [], ◌∷◌, Text, text_eq,
  is_blank, push, TreeMap, lookup, insert, Result, ok, err, panic, secret_not_found,
  capability_binding, approval_required, verification, Method, pure, require, gets, modify, lift,
  ◌>>=◌, ◌>>◌, if◌then◌else◌,
}
use labrys.Base.Clock.{Instant}
use labrys.Base.Fnv.{as_bytes}
use labrys.Base.Utf8.{from_utf8}
use labrys.Runtime.{ExplicitApproval}
use labrys.Capability.Bindings.{literal, secret_ref, resource_field, Binding, EnvContract}
use labrys.Capability.Secrets.{
  Bytes, MasterKey, InjectionGrant, SealedSecret, store, rotation, SecretStore, envelope_version,
  legacy_xor, envelope_aad, open_legacy,
}

-- SHA-256 and ChaCha20-Poly1305: the key, the nonce and the associated data come before the message.
pub record Cipher : Type 0 where
  pub sha256 : Bytes → Bytes
  pub encrypt : Bytes → Bytes → Bytes → Bytes → Bytes
  pub decrypt : Bytes → Bytes → Bytes → Bytes → Option Bytes

abbrev pub is_granted : ExplicitApproval → Bool
is_granted approval = approval.approved && not (is_blank approval.approver)

-- `approved.then(|| approval.approver.clone())`.
abbrev pub granted_by : ExplicitApproval → Option Text
granted_by approval = if is_granted approval then some approval.approver else none

abbrev pub next_version : Option SealedSecret → ℕ
next_version none = 1
next_version (some s) = (s.version + 1) % 2 ^ 64

abbrev pub found : Option SealedSecret → Result SealedSecret
found none = err secret_not_found
found (some s) = ok s

abbrev pub has : Text → SecretStore → Bool
has ref_id s = elim (lookup ref_id s.secrets) [ some _ ↦ true | none ↦ false ]

-- `map.remove(k)`.
abbrev pub without : Text → TreeMap SealedSecret → TreeMap SealedSecret
without k [] = []
without k ((j, v) ∷ m) = let rest = without k m in if text_eq k j then m else (j, v) ∷ rest

-- A value that `rotate_key` has opened, with what it is sealed under next.
pub record Plain : Type 0 where
  pub ref_id : Text
  pub version : ℕ
  pub scope : InjectionGrant
  pub value : Text

module _ (c : Cipher) where
  -- `seal`, in the envelope that it goes into.
  unfoldable pub seal : MasterKey → Bytes → Text → ℕ → InjectionGrant → Text → SealedSecret
  unfolding envelope_aad as_bytes
  seal key nonce ref_id version scope value = record {
    ref_id = ref_id;
    version = version;
    scope = scope;
    cipher_version = envelope_version;
    nonce = nonce;
    ciphertext = c.encrypt (c.sha256 key) nonce (envelope_aad ref_id version) (as_bytes value);
  }

  abbrev pub decoded : Option Bytes → Option Text
  decoded none = none
  decoded (some bytes) = from_utf8 bytes

  unfoldable pub open_sealed : MasterKey → SealedSecret → Option Text
  unfolding envelope_aad open_legacy
  open_sealed key s =
      if s.cipher_version == envelope_version
      then decoded (c.decrypt (c.sha256 key) s.nonce (envelope_aad s.ref_id s.version) s.ciphertext)
      else if s.cipher_version == legacy_xor
      then open_legacy key s
      else none

  abbrev pub opened : Option Text → Result Text
  opened none = err verification
  opened (some value) = ok value

  unfoldable pub open_envelope : SecretStore → SealedSecret → Result Text
  unfolding open_sealed
  open_envelope s sealed = opened (open_sealed s.master_key sealed)

  unfoldable pub put :
      Bytes → Text → Text → InjectionGrant → Text → Instant → Method SecretStore SealedSecret
  unfolding seal
  put nonce ref_id value scope actor at = do
    require (not (is_blank ref_id)) secret_not_found
    version ← gets (λ s. next_version (lookup ref_id s.secrets))
    sealed ← gets (λ s. seal s.master_key nonce ref_id version scope value)
    modify (λ s. record s {
      secrets = insert ref_id sealed s.secrets;
      audit = push s.audit (record {
        ref_id = ref_id;
        action = store;
        version = version;
        actor = actor;
        at = at;
        approved_by = none;
      });
    })
    pure sealed

  abbrev pub is_for : InjectionGrant → SealedSecret → Bool
  is_for grant sealed =
      text_eq sealed.scope.application_id grant.application_id
      && text_eq sealed.scope.environment_name grant.environment_name

  abbrev pub injected : InjectionGrant → SecretStore → Option SealedSecret → Result Text
  unfolding open_envelope
  injected grant s none = err secret_not_found
  injected grant s (some sealed) =
      if is_for grant sealed then open_envelope s sealed else err capability_binding

  unfoldable pub inject : InjectionGrant → Text → SecretStore → Result Text
  unfolding injected
  inject grant ref_id s = injected grant s (lookup ref_id s.secrets)

  -- The loop of `inject_binding` over the contract in the order of its names.
  unfoldable pub inject_env : InjectionGrant → SecretStore → EnvContract → Result (TreeMap Text)
  unfolding inject
  inject_env grant s [] = ok []
  inject_env grant s ((name, literal _) ∷ env) = inject_env grant s env
  inject_env grant s ((name, resource_field _) ∷ env) = inject_env grant s env
  inject_env grant s ((name, secret_ref ref_id) ∷ env) =
      let rest = inject_env grant s env in
      elim (inject grant ref_id s) [
        | err e ↦ err e
        | panic ↦ panic
        | ok value ↦ elim rest [
          | ok out ↦ ok (insert name value out)
          | err e ↦ err e
          | panic ↦ panic
        ]
      ]

  unfoldable pub inject_binding : InjectionGrant → Binding → SecretStore → Result (TreeMap Text)
  unfolding inject_env
  inject_binding grant binding s = inject_env grant s binding.env

  -- What a rotation writes, when the value is known.
  unfoldable pub reseal_as :
      Bytes → Text → ExplicitApproval → Text → Instant → SealedSecret → Text → Method SecretStore ℕ
  unfolding seal
  reseal_as nonce ref_id approval actor at sealed value = do
    let version = (sealed.version + 1) % 2 ^ 64
    modify (λ s. record s {
      secrets = insert ref_id (seal s.master_key nonce ref_id version sealed.scope value) s.secrets;
      audit = push s.audit (record {
        ref_id = ref_id;
        action = rotation;
        version = version;
        actor = actor;
        at = at;
        approved_by = granted_by approval;
      });
    })
    pure version

  -- `rotate` of a secret that is stored.
  unfoldable pub rotate_sealed :
      Bytes → Text → ExplicitApproval → Text → Instant → SealedSecret → Method SecretStore ℕ
  unfolding open_envelope reseal_as
  rotate_sealed nonce ref_id approval actor at sealed = do
    require (not (sealed.scope.production && not (is_granted approval))) approval_required
    plain ← gets (λ s. open_envelope s sealed)
    value ← lift plain
    reseal_as nonce ref_id approval actor at sealed value

  unfoldable pub rotate : Bytes → Text → ExplicitApproval → Text → Instant → Method SecretStore ℕ
  unfolding rotate_sealed
  rotate nonce ref_id approval actor at = do
    held ← gets (λ s. found (lookup ref_id s.secrets))
    sealed ← lift held
    rotate_sealed nonce ref_id approval actor at sealed
