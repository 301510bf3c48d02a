-- ===== src/Base/Fnv.antt =====
-- FNV-1a on 64 bits over the UTF-8 form of texts, and hexadecimal digits: the digests of
-- crates/labrys-core/src/deployment.rs and crates/labrys-core/src/observability.rs.
use Prim.Native.Nat.{ℕ, zero, suc, ◌+◌, ◌-◌, ◌*◌, ◌/◌, ◌%◌, ◌^◌, bit_xor}
use mathlib.Core.List.{List, [], ◌∷◌, ◌++◌}
use labrys.Base.Tests.{ltb, if◌then◌else◌}
use labrys.Base.Chars.{Text}

-- `str::as_bytes`: the UTF-8 form of each code point.
unfoldable pub utf8 : ℕ → List ℕ
utf8 c =
    if ltb c 0x80
    then c ∷ []
    else if ltb c 0x800
    then (0xc0 + c / 64) ∷ (0x80 + c % 64) ∷ []
    else if ltb c 0x10000
    then (0xe0 + c / 4096) ∷ (0x80 + c / 64 % 64) ∷ (0x80 + c % 64) ∷ []
    else (0xf0 + c / 262144) ∷ (0x80 + c / 4096 % 64) ∷ (0x80 + c / 64 % 64) ∷ (0x80 + c % 64) ∷ []

unfoldable pub as_bytes : Text → List ℕ
unfolding utf8
as_bytes [] = []
as_bytes (c ∷ cs) = utf8 c ++ as_bytes cs

-- One round of FNV-1a on u64: `hash ^= byte; hash = hash.wrapping_mul(prime)`.
unfoldable pub fnv_round : ℕ → List ℕ → ℕ
fnv_round hash [] = hash
fnv_round hash (byte ∷ bytes) = fnv_round (bit_xor hash byte * 0x100000001b3 % 2 ^ 64) bytes

-- `{n:016x}`, from the lowest of `k` digits.
unfoldable pub hex_digits : ℕ → ℕ → Text → Text
hex_digits zero n out = out
hex_digits (suc k) n out =
    let d = n % 16 in hex_digits k (n / 16) ((if ltb d 10 then d + b'0' else d - 10 + b'a') ∷ out)
