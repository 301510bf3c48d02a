-- ===== src/Resource/Redact.antt =====
-- `redact_reason` (crates/labrys-core/src/controller.rs), with `str::replace` of the standard
-- library written out for a pattern that is not empty.
use labrys.Base.{
  ℕ, zero, suc, none, some, List, [], ◌∷◌, ◌++◌, Text, text, strip_prefix, is_empty, length,
  if◌then◌else◌,
}

-- One replacement pass over at most `fuel` characters: what is left after a match is not read again
-- by the same match.
replace_from : ℕ → Text → Text → Text → Text
replace_from zero pattern_text new s = s
replace_from (suc fuel) pattern_text new [] = []
replace_from (suc fuel) pattern_text new (c ∷ cs) = elim (strip_prefix pattern_text (c ∷ cs)) [
  | some rest ↦ new ++ replace_from fuel pattern_text new rest
  | none ↦ c ∷ replace_from fuel pattern_text new cs
]

-- `s.replace(pattern, new)`; each round consumes a character, so the length is enough fuel.
unfoldable pub replace : Text → Text → Text → Text
unfolding replace_from strip_prefix
replace pattern_text new s = replace_from (length s) pattern_text new s

unfoldable pub redacted : Text
redacted = text "[redacted]"

unfoldable pub redact_reason : Text → List Text → Text
unfolding replace redacted
redact_reason reason [] = reason
redact_reason reason (secret ∷ secrets) =
    redact_reason (if is_empty secret then reason else replace secret redacted reason) secrets
