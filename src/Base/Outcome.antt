-- ===== src/Base/Outcome.antt =====
-- Results of fallible code, and methods that change a record and may fail.
use mathlib.Core.Bool.{Bool, true, false}

-- crates/labrys-core/src/error.rs: the kind of an error. The message that a kind carries is left
-- out, since no code branches on it.
pub data CoreError : Type 0 where
  unsupported_version invalid_manifest not_found approval_required policy_denied : CoreError
  session_state protocol_version secret_leak timed_out sequence_violation : CoreError
  unsupported_runtime invalid_runtime limit_exceeded workspace_state : CoreError
  preview_unavailable capability_binding secret_not_found reconciliation deployment : CoreError
  verification audit_integrity plugin plugin_unavailable permission_denied : CoreError
  serialization : CoreError

-- `Result<T>`, with the panics (`expect`, chrono's range checks) as a third outcome.
pub data Result {ℓ} (A : Type ℓ) : Type ℓ where
  ok : A → Result A
  err : CoreError → Result A
  panic : Result A

-- A method on `&mut S`. The state comes back on every outcome: what was written stays written.
abbrev pub Method : Type 0 → Type 0 → Type 0
Method S A = S → Result A × S

abbrev pub pure : {S A : Type 0} → A → Method S A
pure a s = (ok a, s)

abbrev pub throw : {S A : Type 0} → CoreError → Method S A
throw e s = (err e, s)

-- `if !c { return Err(e) }`.
abbrev pub require : {S : Type 0} → Bool → CoreError → Method S (Unit {0})
require c e s = (elim c [ true ↦ ok tt | false ↦ err e ], s)

abbrev pub gets : {S A : Type 0} → (S → A) → Method S A
gets f s = (ok (f s), s)

abbrev pub modify : {S : Type 0} → (S → S) → Method S (Unit {0})
modify f s = (ok tt, f s)

-- A value that is computed and may fail.
abbrev pub lift : {S A : Type 0} → Result A → Method S A
lift r s = (r, s)

infixl 5 ◌>>=◌ ◌>>◌
abbrev pub ◌>>=◌ : {S A B : Type 0} → Method S A → (A → Method S B) → Method S B
◌>>=◌ m f s =
    let (r, s') = m s in elim r [ ok a ↦ f a s' | err e ↦ (err e, s') | panic ↦ (panic, s') ]

abbrev pub ◌>>◌ : {S A B : Type 0} → Method S A → Method S B → Method S B
m >> k = m >>= λ _. k

-- `Result::is_ok`.
abbrev pub is_ok {ℓ} : {A : Type ℓ} → Result A → Bool
is_ok (ok _) = true
is_ok (err _) = false
is_ok panic = false
