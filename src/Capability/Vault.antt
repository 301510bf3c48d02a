-- ===== src/Capability/Vault.antt =====
-- What a store of secrets gives back.
use mathlib.Core.Path.{subst}
use labrys.Base.{
  ℕ, ◌+◌, ◌%◌, ◌^◌, ◌==◌, ◌≡◌, refl, sym, ap, ◌∙◌, Bool, true, false, not, ◌&&◌, Option, none, some,
  Text, text_eq, text_eq_iff, lookup, insert, lookup-insert, ok, err, capability_binding, Method,
  lift, length, approval_required, ◌>>=◌, is_blank, require, modify, pure, push, secret_not_found,
  ◌>>◌, if◌then◌else◌,
}
use labrys.Base.Clock.{Instant}
use labrys.Base.Fnv.{as_bytes}
use labrys.Base.Utf8.{IsValid, HoldsValid, from_utf8-as_bytes, from_utf8-HoldsValid}
use labrys.Runtime.{ExplicitApproval}
use labrys.Capability.Secrets.{
  Bytes, MasterKey, InjectionGrant, SealedSecret, SecretAudit, store, SecretStore, envelope_aad,
  open_legacy, keystream, xor_with,
}
use labrys.Capability.Store.{
  Cipher, seal, open_sealed, open_envelope, opened, next_version, found, put, inject, injected,
  reseal_as, rotate_sealed, rotate, is_granted, decoded,
}

-- What the documentation of the cipher says: a message decrypts under the key, the nonce and the
-- associated data that it was encrypted with.
abbrev pub IsCipher : Cipher → Type 0
IsCipher c =
    (key nonce aad message : Bytes)
    → c.decrypt key nonce aad (c.encrypt key nonce aad message) ≡ some message

-- The grant names the application and the environment of the scope.
abbrev pub names_scope : InjectionGrant → InjectionGrant → Bool
names_scope grant scope =
    text_eq scope.application_id grant.application_id
    && text_eq scope.environment_name grant.environment_name

module _ (c : Cipher) (law : IsCipher c) where
  open_sealed-seal :
      (key : MasterKey) (nonce : Bytes) (ref_id : Text) (version : ℕ) (scope : InjectionGrant)
      (value : Text)
      → IsValid value
      → open_sealed c key (seal c key nonce ref_id version scope value) ≡ some value
  unfolding open_sealed seal
  open_sealed-seal key nonce ref_id version scope value valid =
      ap (decoded c) (law (c.sha256 key) nonce (envelope_aad ref_id version) (as_bytes value))
      ∙ from_utf8-as_bytes value valid

  -- What a lookup after an insertion injects.
  injected-insert :
      (grant : InjectionGrant) (s : SecretStore) (ref_id asked : Text) (sealed : SealedSecret)
      → injected c grant s (lookup asked (insert ref_id sealed s.secrets)) ≡ (
          if text_eq asked ref_id
          then injected c grant s (some sealed)
          else injected c grant s (lookup asked s.secrets))
  injected-insert grant s ref_id asked sealed =
      rw (lookup-insert ref_id asked sealed s.secrets)
        (after (text_eq asked ref_id) (some sealed) (lookup asked s.secrets))
    where
      after :
          (b : Bool) (x y : Option SealedSecret)
          → injected c grant s (if b then x else y)
            ≡ (if b then injected c grant s x else injected c grant s y)
      after true x y = refl
      after false x y = refl

  pub sealed_for :
      (grant scope : InjectionGrant) (s : SecretStore) (nonce : Bytes) (ref_id : Text) (version : ℕ)
      (value : Text)
      → IsValid value
      → injected c grant s (some (seal c s.master_key nonce ref_id version scope value))
        ≡ (if names_scope grant scope then ok value else err capability_binding)
  unfolding open_envelope seal
  sealed_for grant scope s nonce ref_id version value valid =
      ap (λ r. if names_scope grant scope then opened c r else err capability_binding)
        (open_sealed-seal s.master_key nonce ref_id version scope value valid)

  -- A value that was stored under a reference is injected for a grant of its application and
  -- environment, and for no other; what is stored under the other references is injected as before.
  pub put-inject :
      (nonce : Bytes) (ref_id value : Text) (scope : InjectionGrant) (actor : Text) (at : Instant)
      (s : SecretStore) (grant : InjectionGrant) (asked : Text)
      → is_blank ref_id ≡ false
      → IsValid value
      → inject c grant asked (put c nonce ref_id value scope actor at s).1 ≡ (
          if text_eq asked ref_id
          then (if names_scope grant scope then ok value else err capability_binding)
          else inject c grant asked s)
  unfolding put inject open_envelope
  put-inject nonce ref_id value scope actor at s grant asked named valid =
      stored (is_blank ref_id) named
    where
      version : ℕ
      version = next_version (lookup ref_id s.secrets)

      sealed : SealedSecret
      sealed = seal c s.master_key nonce ref_id version scope value

      kept : SecretAudit
      kept = record {
        ref_id = ref_id;
        action = store;
        version = version;
        actor = actor;
        at = at;
        approved_by = none;
      }

      written : SecretStore
      written = record s { secrets = insert ref_id sealed s.secrets; audit = push s.audit kept }

      stored :
          (blank : Bool)
          → blank ≡ false
          → inject c grant asked
              ((require (not blank) secret_not_found
                  >> (modify (λ s. record s {
                    secrets = insert ref_id sealed s.secrets;
                    audit = push s.audit kept;
                  })
                      >> pure sealed))
                s).1
            ≡ (if text_eq asked ref_id
                then (if names_scope grant scope then ok value else err capability_binding)
                else inject c grant asked s)
      stored true h = absurd (cc)
      stored false h =
          injected-insert grant s ref_id asked sealed
          ∙ ap (λ r. if text_eq asked ref_id then r else inject c grant asked s)
              (sealed_for grant scope s nonce ref_id version value valid)

  open_legacy-HoldsValid : (key : MasterKey) (x : SealedSecret) → HoldsValid (open_legacy key x)
  unfolding open_legacy
  open_legacy-HoldsValid key x =
      from_utf8-HoldsValid (xor_with x.ciphertext (keystream key x.ref_id (length x.ciphertext)))

  decoded-HoldsValid : (o : Option Bytes) → HoldsValid (decoded c o)
  decoded-HoldsValid none = tt
  decoded-HoldsValid (some bytes) = from_utf8-HoldsValid bytes

  open_sealed-HoldsValid : (key : MasterKey) (x : SealedSecret) → HoldsValid (open_sealed c key x)
  unfolding open_sealed
  open_sealed-HoldsValid key x =
      test (x.cipher_version == 1) (x.cipher_version == 0) _ _
        (decoded-HoldsValid
          (c.decrypt (c.sha256 key) x.nonce (envelope_aad x.ref_id x.version) x.ciphertext))
        (open_legacy-HoldsValid key x)
    where
      test :
          (a b : Bool) (x y : Option Text)
          → HoldsValid x
          → HoldsValid y
          → HoldsValid (if a then x else if b then y else none)
      test true b x y h k = h
      test false true x y h k = k
      test false false x y h k = tt

  module _ (nonce : Bytes) (ref_id : Text) (approval : ExplicitApproval) (actor : Text)
      (at : Instant) (s : SecretStore) (grant : InjectionGrant) (asked : Text) where
    -- The new envelope holds the value of the old one, for the same scope.
    resealed-inject :
        (sealed : SealedSecret) (value : Text)
        → lookup ref_id s.secrets ≡ some sealed
        → open_sealed c s.master_key sealed ≡ some value
        → inject c grant asked (reseal_as c nonce ref_id approval actor at sealed value s).1
          ≡ inject c grant asked s
    unfolding inject open_envelope reseal_as
    resealed-inject sealed value here opens =
        let next =
          seal c s.master_key nonce ref_id ((sealed.version + 1) % 2 ^ 64) sealed.scope value in
        let valid : IsValid value =
          subst HoldsValid opens (open_sealed-HoldsValid s.master_key sealed) in
        let fresh =
          sealed_for grant sealed.scope s nonce ref_id ((sealed.version + 1) % 2 ^ 64) value
            valid in
        let before : injected c grant s (some sealed)
            ≡ (if names_scope grant sealed.scope then ok value else err capability_binding) =
          ap (λ o. if names_scope grant sealed.scope then opened c o else err capability_binding)
            opens in
        injected-insert grant s ref_id asked next
        ∙ ap (λ r. if text_eq asked ref_id then r else inject c grant asked s) (fresh ∙ sym before)
        ∙ same sealed here (text_eq asked ref_id) refl
      where
        same :
            (sealed : SealedSecret)
            → lookup ref_id s.secrets ≡ some sealed
            → (b : Bool) → text_eq asked ref_id ≡ b
            → (if b then injected c grant s (some sealed) else inject c grant asked s)
              ≡ inject c grant asked s
        same sealed here true e =
            let at_ref : asked ≡ ref_id = (text_eq_iff asked ref_id).0 e in
            ap (λ o. injected c grant s o) (sym here) ∙ ap (λ k. inject c grant k s) (sym at_ref)
        same sealed here false e = refl

    rotate_sealed-inject :
        (sealed : SealedSecret)
        → lookup ref_id s.secrets ≡ some sealed
        → inject c grant asked (rotate_sealed c nonce ref_id approval actor at sealed s).1
          ≡ inject c grant asked s
    unfolding open_envelope inject rotate_sealed
    rotate_sealed-inject sealed here =
        after (not (sealed.scope.production && not (is_granted approval)))
          (open_sealed c s.master_key sealed) refl
      where
        rest : Bool → Option Text → Method SecretStore ℕ
        rest allowed o =
            require allowed approval_required
            >> (lift (opened c o) >>= λ value.
                reseal_as c nonce ref_id approval actor at sealed value)

        after :
            (allowed : Bool) (o : Option Text)
            → open_sealed c s.master_key sealed ≡ o
            → inject c grant asked (rest allowed o s).1 ≡ inject c grant asked s
        after true (some value) e = resealed-inject sealed value here e
        after true none e = refl
        after false o e = refl

    -- A rotation, whether it succeeds or not, changes no value: whatever is asked for under whatever
    -- grant is injected, or refused, as before.
    pub rotate-inject :
        inject c grant asked (rotate c nonce ref_id approval actor at s).1 ≡ inject c grant asked s
    unfolding rotate inject
    rotate-inject = held (lookup ref_id s.secrets) refl
      where
        held :
            (o : Option SealedSecret)
            → lookup ref_id s.secrets ≡ o
            → inject c grant asked
                ((lift (found o) >>= λ sealed.
                    rotate_sealed c nonce ref_id approval actor at sealed)
                  s).1
              ≡ inject c grant asked s
        held none e = refl
        held (some sealed) e = rotate_sealed-inject sealed e
