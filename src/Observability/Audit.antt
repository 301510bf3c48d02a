-- ===== src/Observability/Audit.antt =====
-- `AuditRecord`, `audit_digest` and `AuditLog` (crates/labrys-core/src/observability.rs). The form
-- of an instant, `to_rfc3339`, is chrono's: a parameter.
use Prim.Native.Nat.{bit_xor}
use labrys.Base.{
  ℕ, ◌+◌, ◌==◌, not, Option, none, some, List, [], ◌∷◌, ◌++◌, Text, text, text_eq, length, push,
  last, Result, ok, err, audit_integrity, if◌then◌else◌,
}
use labrys.Base.Clock.{Instant}
use labrys.Base.Fnv.{as_bytes, fnv_round, hex_digits}
use labrys.Resource.{redact_reason}
use labrys.Queue.{decimal}

pub record AuditRecord : Type 0 where
  pub sequence : ℕ  -- u64
  pub at : Instant
  pub actor : Text
  pub action : Text
  pub target : Text
  pub detail : Text
  pub prev_hash : Text
  pub hash : Text

-- A part is followed by the separator 0x1f.
hash_parts : ℕ → List Text → ℕ
unfolding as_bytes fnv_round
hash_parts hash [] = hash
hash_parts hash (part ∷ parts) = hash_parts (fnv_round hash (as_bytes part ++ 0x1f ∷ [])) parts

-- The parts from the last to the first.
hash_backwards : ℕ → List Text → ℕ
unfolding as_bytes fnv_round
hash_backwards hash [] = hash
hash_backwards hash (part ∷ parts) = fnv_round (hash_backwards hash parts) (as_bytes part)

unfoldable pub audit_digest : List Text → Text
unfolding hash_parts hash_backwards hex_digits
audit_digest parts =
    let hash = hash_parts 0xcbf29ce484222325 parts in
    let second = hash_backwards (bit_xor hash 0x51ed270b07a5ac65) parts in
    hex_digits 16 hash [] ++ hex_digits 16 second []

pub record AuditLog : Type 0 where
  pub records : List AuditRecord

unfoldable pub new_audit : AuditLog
new_audit = record { records = [] }

unfoldable pub genesis : Text
genesis = text "0000000000000000000000000000000000000000000000000000000000000000"

unfoldable pub restore_audit : List AuditRecord → AuditLog
restore_audit records = record { records = records }

abbrev pub hash_of : Option AuditRecord → Text
hash_of none = genesis
hash_of (some r) = r.hash

module _ (rfc3339 : Instant → Text) where
  unfoldable pub compute_hash : AuditRecord → Text
  compute_hash r = audit_digest (
      decimal r.sequence
      ∷ rfc3339 r.at
      ∷ r.actor
      ∷ r.action
      ∷ r.target
      ∷ r.detail
      ∷ r.prev_hash
      ∷ [])

  -- The record that an append stores: made with an empty hash, which is then computed.
  unfoldable pub chained : Instant → Text → Text → Text → Text → List Text → AuditLog → AuditRecord
  unfolding compute_hash
  chained at actor action target detail secrets log =
      let unhashed : AuditRecord = record {
        sequence = length log.records + 1;
        at = at;
        actor = actor;
        action = action;
        target = target;
        detail = redact_reason detail secrets;
        prev_hash = hash_of (last log.records);
        hash = [];
      } in
      record unhashed { hash = compute_hash unhashed }

  unfoldable pub append_audit :
      Instant → Text → Text → Text → Text → List Text → AuditLog → AuditRecord × AuditLog
  unfolding chained
  append_audit at actor action target detail secrets log =
      let r = chained at actor action target detail secrets log in
      (r, record { records = push log.records r })

  -- The loop of `verify`, from a sequence number and the hash that the next record links to.
  unfoldable pub verify_from : ℕ → Text → List AuditRecord → Result (Unit {0})
  unfolding compute_hash
  verify_from n expected_prev [] = ok tt
  verify_from n expected_prev (r ∷ rs) =
      let rest = verify_from (n + 1) r.hash rs in
      if not (r.sequence == n)
      then err audit_integrity
      else if not (text_eq r.prev_hash expected_prev)
      then err audit_integrity
      else if not (text_eq r.hash (compute_hash r))
      then err audit_integrity
      else rest

  unfoldable pub verify : AuditLog → Result (Unit {0})
  unfolding verify_from genesis
  verify log = verify_from 1 genesis log.records
