-- ===== src/Capability/Bypass.antt =====
-- What the replacement of a secret asks for.
use labrys.Base.{
  ◌≡◌, refl, sym, ap, ◌∙◌, true, false, Option, none, some, Text, text_eq_refl, is_blank, lookup,
  lookup-insert, is_ok, ok, err, capability_binding, if◌then◌else◌, arith,
}
use labrys.Base.Clock.{Instant}
use labrys.Base.Utf8.{IsValid}
use labrys.Runtime.{ExplicitApproval}
use labrys.Capability.Secrets.{Bytes, InjectionGrant, SealedSecret, SecretStore}
use labrys.Capability.Store.{Cipher, found, put, seal, next_version, inject, injected}
use labrys.Capability.Vault.{IsCipher, names_scope, sealed_for}
use labrys.Capability.Upkeep.{replace_secret}

found_ok : (o : Option SealedSecret) (x : SealedSecret) → o ≡ some x → is_ok (found o) ≡ true
found_ok none x h = absurd (cc)
found_ok (some y) x h = refl

module _ (c : Cipher) (law : IsCipher c) (nonce : Bytes) (ref_id new_value : Text)
    (grant : InjectionGrant) (approval : ExplicitApproval) (actor : Text) (at : Instant)
    (s : SecretStore) where
  -- The envelope that a replacement stores.
  abbrev renewed : SealedSecret
  renewed =
      seal c s.master_key nonce ref_id (next_version (lookup ref_id s.secrets)) grant new_value

  renewed-inject :
      (asked : InjectionGrant) (s' : SecretStore)
      → IsValid new_value
      → s'.master_key ≡ s.master_key
      → lookup ref_id s'.secrets ≡ some renewed
      → inject c asked ref_id s'
        ≡ (if names_scope asked grant then ok new_value else err capability_binding)
  unfolding inject
  renewed-inject asked s' valid key here =
      let version = next_version (lookup ref_id s.secrets) in
      ap (injected c asked s') here
      ∙ ap (λ k. injected c asked s' (some (seal c k nonce ref_id version grant new_value)))
          (sym key)
      ∙ sealed_for c law asked grant s' nonce ref_id version new_value valid

  replaced :
      {sealed : SealedSecret}
      → lookup ref_id s.secrets ≡ some sealed
      → is_blank ref_id ≡ false
      → grant.production ≡ false
      → let outcome = replace_secret c nonce ref_id new_value grant approval actor at s in
        (is_ok outcome.0 ≡ true)
        × (outcome.1.master_key ≡ s.master_key)
        × (lookup ref_id outcome.1.secrets ≡ some renewed)
  unfolding replace_secret put
  replaced {sealed} here named open_grant =
      let self = text_eq_refl ref_id in
      ground (arith, lookup-insert ref_id ref_id renewed s.secrets)

  -- A call with a grant that is not for production replaces a secret that is stored under a reference
  -- that is not blank, whatever the approval says and also where the secret was stored for
  -- production. It succeeds; under the documented law of the cipher the new value, a text of Unicode
  -- scalar values, is what is injected from then on, for the application and the environment of the
  -- grant only; and the stored secret is not one for production.
  pub replace_secret-unapproved :
      {sealed : SealedSecret}
      → lookup ref_id s.secrets ≡ some sealed
      → is_blank ref_id ≡ false
      → grant.production ≡ false
      → IsValid new_value
      → let outcome = replace_secret c nonce ref_id new_value grant approval actor at s in
        (is_ok outcome.0 ≡ true)
        × ((asked : InjectionGrant)
            → inject c asked ref_id outcome.1
              ≡ (if names_scope asked grant then ok new_value else err capability_binding))
        × ((kept : SealedSecret) × (lookup ref_id outcome.1.secrets ≡ some kept)
            × (kept.scope.production ≡ false))
  unfolding seal
  replace_secret-unapproved {sealed} here named open_grant valid =
      let outcome = replace_secret c nonce ref_id new_value grant approval actor at s in
      let (done, key, stored) = replaced here named open_grant in
      (
        done,
        λ asked. renewed-inject asked outcome.1 valid key stored,
        (renewed, stored, open_grant),
      )
