-- ===== src/Capability/Secrets.antt =====
-- `SecretStore` and its envelopes (crates/labrys-core/src/capability.rs). SHA-256 and the cipher
-- ChaCha20-Poly1305 are parameters; a nonce that the code draws at random is an argument.
use Prim.Native.Nat.{bit_xor}
use labrys.Base.{
  ℕ, zero, suc, ◌+◌, ◌/◌, ◌%◌, Bool, Option, List, [], ◌∷◌, ◌++◌, Text, text, length, TreeMap,
  Result, ok, err, capability_binding,
}
use labrys.Base.Clock.{Instant}
use labrys.Base.Fnv.{as_bytes, fnv_round}
use labrys.Base.Utf8.{from_utf8}
use labrys.Queue.{decimal}

abbrev pub Bytes : Type 0
Bytes = List ℕ

-- The key material.
abbrev pub MasterKey : Type 0
MasterKey = Bytes

unfoldable pub new_master_key : Bytes → Result MasterKey
new_master_key [] = err capability_binding
new_master_key (b ∷ bytes) = ok (b ∷ bytes)

pub record InjectionGrant : Type 0 where
  pub application_id : Text
  pub environment_name : Text
  pub production : Bool

pub record SealedSecret : Type 0 where
  pub ref_id : Text
  pub version : ℕ  -- u64
  pub scope : InjectionGrant
  pub cipher_version : ℕ  -- u32
  pub nonce : Bytes
  pub ciphertext : Bytes

pub data SecretAction : Type 0 where
  store rotation replacement deletion : SecretAction

pub record SecretAudit : Type 0 where
  pub ref_id : Text
  pub action : SecretAction
  pub version : ℕ  -- u64
  pub actor : Text
  pub at : Instant
  pub approved_by : Option Text

pub record SecretStore : Type 0 where
  pub master_key : MasterKey
  pub secrets : TreeMap SealedSecret
  pub audit : List SecretAudit

unfoldable pub new_secret_store : MasterKey → SecretStore
new_secret_store master_key = record { master_key = master_key; secrets = []; audit = [] }

abbrev pub envelope_version : ℕ
envelope_version = 1

abbrev pub legacy_xor : ℕ
legacy_xor = 0

-- `envelope_aad`.
unfoldable pub envelope_aad : Text → ℕ → Bytes
envelope_aad ref_id version =
    as_bytes (text "labrys-secret v1:" ++ (ref_id ++ (text ":v" ++ decimal version)))

-- `n.to_le_bytes()` of a u64, on 8 bytes.
abbrev pub le_bytes : ℕ → ℕ → Bytes
le_bytes zero n = []
le_bytes (suc k) n = n % 256 ∷ le_bytes k (n / 256)

-- The loop of `keystream`: a round gives eight bytes, so the length asked for is enough fuel.
abbrev rounds : ℕ → ℕ → ℕ → Bytes
rounds zero hash counter = []
rounds (suc fuel) hash counter =
    let next = fnv_round hash (le_bytes 8 counter) in
    le_bytes 8 next ++ rounds fuel next (counter + 1)

-- `zip` with a map of the pairs.
abbrev pub xor_with : Bytes → Bytes → Bytes
xor_with [] ks = []
xor_with (b ∷ bs) [] = []
xor_with (b ∷ bs) (k ∷ ks) = bit_xor b k ∷ xor_with bs ks

abbrev take_bytes : ℕ → Bytes → Bytes
take_bytes zero bs = []
take_bytes (suc n) [] = []
take_bytes (suc n) (b ∷ bs) = b ∷ take_bytes n bs

unfoldable pub keystream : MasterKey → Text → ℕ → Bytes
unfolding as_bytes fnv_round
keystream key ref_id len =
    take_bytes len (rounds len (fnv_round (fnv_round 0xcbf29ce484222325 key) (as_bytes ref_id)) 0)

unfoldable pub seal_legacy : MasterKey → Text → Text → Bytes
unfolding keystream
seal_legacy key ref_id plaintext =
    xor_with (as_bytes plaintext) (keystream key ref_id (length (as_bytes plaintext)))

unfoldable pub open_legacy : MasterKey → SealedSecret → Option Text
unfolding keystream from_utf8
open_legacy key sealed =
    from_utf8 (xor_with sealed.ciphertext (keystream key sealed.ref_id (length sealed.ciphertext)))
