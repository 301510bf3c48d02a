-- ===== src/Scenarios/Vaults.antt =====
-- Bindings, modes, and a store of secrets under a cipher that leaves the message as it is.
use labrys.Base.{
  ◌≡◌, ◌↔◌, refl, true, false, some, [], ◌∷◌, text, text_eq, find, retain, CoreError, Result, ok,
  err, is_ok, is_blank, lookup, capability_binding, if◌then◌else◌,
}
use labrys.Runtime.{ExplicitApproval}
use labrys.Capability.Bindings.{
  Provider, Binding, managed, external, adopted, supplies, connects, generic_kind, resolve_binding,
}
use labrys.Capability.Modes.{BoundCapability, bound, transition}
use labrys.Capability.Secrets.{InjectionGrant, SealedSecret, SecretAudit, SecretStore}
use labrys.Capability.Store.{Cipher, seal, put, inject, rotate}
use labrys.Capability.Upkeep.{replace_secret}
use labrys.Capability.Vault.{IsCipher, names_scope, put-inject, rotate-inject}
use labrys.Capability.Bypass.{replace_secret-unapproved}
use labrys.Capability.Choice.{IsChosen, resolve_binding_iff, IsPermitted, transition_lem}

abbrev plain_cipher : Cipher
plain_cipher = record {
  sha256 = λ key. key;
  encrypt = λ key nonce aad message. message;
  decrypt = λ key nonce aad message. some message;
}

plain_cipher-IsCipher : IsCipher plain_cipher
plain_cipher-IsCipher key nonce aad message = refl

abbrev live : InjectionGrant
live = record { application_id = text "7"; environment_name = text "prod"; production = true }

abbrev staging : InjectionGrant
staging = record {
  application_id = text "7";
  environment_name = text "staging";
  production = false;
}

abbrev url : SealedSecret
url = seal plain_cipher (9 ∷ []) (1 ∷ []) (text "db.url") 1 live (text "pg")

abbrev vault : SecretStore
vault = record { master_key = 9 ∷ []; secrets = (text "db.url", url) ∷ []; audit = [] }

abbrev refusal : ExplicitApproval
refusal = record { approved = false; approver = text ""; proposal_summary = text "" }

abbrev grant : ExplicitApproval
grant = record { approved = true; approver = text "ada"; proposal_summary = text "adopt" }

named : is_blank (text "api.key") ≡ false
unfolding is_blank
named = refl

put-inject_example :
    inject plain_cipher live
      (text "api.key")
      (put plain_cipher (2 ∷ []) (text "api.key") (text "k1") live (text "ada") 5 vault).1
    ≡ (if text_eq (text "api.key") (text "api.key")
        then (if names_scope live live then ok (text "k1") else err capability_binding)
        else inject plain_cipher live (text "api.key") vault)
put-inject_example =
    put-inject plain_cipher plain_cipher-IsCipher (2 ∷ []) (text "api.key") (text "k1") live
      (text "ada") 5 vault live (text "api.key") named (refl, (refl, tt))

rotate-inject_example :
    inject plain_cipher live
      (text "db.url")
      (rotate plain_cipher (3 ∷ []) (text "db.url") grant (text "ada") 6 vault).1
    ≡ inject plain_cipher live (text "db.url") vault
rotate-inject_example =
    rotate-inject plain_cipher plain_cipher-IsCipher (3 ∷ []) (text "db.url") grant (text "ada") 6
      vault live (text "db.url")

held : lookup (text "db.url") vault.secrets ≡ some url
unfolding lookup text_eq
held = refl

url_named : is_blank (text "db.url") ≡ false
unfolding is_blank
url_named = refl

abbrev bypassed : Result SecretAudit × SecretStore
bypassed =
    replace_secret plain_cipher (4 ∷ []) (text "db.url") (text "other") staging refusal (text "bob")
      7 vault

replace_secret-unapproved_example :
    (is_ok bypassed.0 ≡ true)
    × ((asked : InjectionGrant)
        → inject plain_cipher asked (text "db.url") bypassed.1
          ≡ (if names_scope asked staging then ok (text "other") else err capability_binding))
    × ((kept : SealedSecret) × (lookup (text "db.url") bypassed.1.secrets ≡ some kept)
        × (kept.scope.production ≡ false))
replace_secret-unapproved_example =
    replace_secret-unapproved plain_cipher plain_cipher-IsCipher (4 ∷ []) (text "db.url")
      (text "other") staging refusal (text "bob") 7 vault {sealed = url} held url_named refl
      (refl, (refl, (refl, (refl, (refl, tt)))))

abbrev postgres : Provider
postgres = record {
  key = text "pg";
  capability = text "database";
  version = 1;
  supports_reversal = false;
  modes = managed ∷ external ∷ adopted ∷ [];
}

abbrev portable : Binding
portable = record {
  key = text "pg.generic";
  capability = text "database";
  provider = text "pg";
  version = 1;
  kind = generic_kind;
  env = [];
}

resolve_binding_iff_example :
    (resolve_binding
        (portable ∷ [])
        (postgres ∷ [])
        (text "database")
        (text "pg")
        (some (text "sqlx"))
      ≡ ok portable)
    ↔ (((p : Provider) × (find (λ p. text_eq p.key (text "pg")) (postgres ∷ []) ≡ some p)
          × (supplies p (text "database") ≡ true))
        × IsChosen
            (some (text "sqlx"))
            (retain (connects (text "database") (text "pg")) (portable ∷ []))
            portable)
resolve_binding_iff_example =
    resolve_binding_iff (portable ∷ []) (postgres ∷ []) (text "database") (text "pg")
      (some (text "sqlx")) portable

abbrev database : BoundCapability
database =
    bound (text "1") (text "7") (text "prod") portable postgres external
      (record {
        id = text "2";
        capability = text "database";
        provider = text "pg";
        external_ref = text "prod-db";
      })
      (text "ada") 5

transition_example :
    (is_ok (transition adopted postgres grant 8 database).0 ≡ true
      → IsPermitted adopted postgres grant database
        × ((transition adopted postgres grant 8 database).1.mode ≡ adopted))
    × ((e : CoreError)
        → (transition adopted postgres grant 8 database).0 ≡ err e
        → (transition adopted postgres grant 8 database).1 ≡ database)
transition_example = transition_lem adopted postgres grant 8 database
