-- ===== src/Agent/Backends.antt =====
-- The native agent and the adapter of an external process (crates/labrys-core/src/agent.rs).
use labrys.Base.{
  ℕ, Bool, ◌||◌, ◌==◌, Option, none, some, List, [], ◌∷◌, ◌++◌, map, Text, text, text_eq, any, trim,
  to_ascii_lowercase, split, join, Result, ok, err, panic, session_state, if◌then◌else◌,
}
use labrys.Agent.Protocol.{
  BackendIdentity, native_identity, external_identity, agent_protocol_version, AgentEventKind,
  planning, file_changed, command_run, capability_requested, build, preview, deployment,
  verification, completed, AgentBackend, ensure_protocol_version,
}

pub data NativePhase : Type 0 where
  plan act observe verify retry : NativePhase

unfoldable pub as_event_kind : NativePhase → AgentEventKind
as_event_kind plan = planning
as_event_kind act = command_run
as_event_kind observe = file_changed
as_event_kind verify = verification
as_event_kind retry = planning

unfoldable pub phase_detail : NativePhase → Text → Text
phase_detail plan prompt = text "native plan for prompt: " ++ prompt
phase_detail act prompt = text "native act for prompt: " ++ prompt
phase_detail observe prompt = text "native observe for prompt: " ++ prompt
phase_detail verify prompt = text "native verify for prompt: " ++ prompt
phase_detail retry prompt = text "native retry for prompt: " ++ prompt

unfoldable pub reference_flow : List NativePhase
reference_flow = plan ∷ act ∷ observe ∷ verify ∷ []

-- `NativeAgent` as a backend: neither the context nor the sequence has a part in its answer.
unfoldable pub native_agent : AgentBackend
unfolding native_identity as_event_kind phase_detail reference_flow
native_agent = record {
  identity = native_identity;
  version = agent_protocol_version;
  draft_events = λ context input start.
      ok (map (λ p. (as_event_kind p, phase_detail p input.prompt_text)) reference_flow);
}

-- The command that starts the process is left out.
pub record ExternalProcessAgent : Type 0 where
  pub identity : BackendIdentity
  pub version : ℕ  -- the field `protocol_version`
  pub scripted : List (AgentEventKind × Text)

unfoldable pub new_external : Text → ℕ → ExternalProcessAgent
unfolding external_identity
new_external name version = record {
  identity = external_identity name;
  version = version;
  scripted = [];
}

unfoldable pub with_scripted :
    List (AgentEventKind × Text) → ExternalProcessAgent → ExternalProcessAgent
with_scripted scripted a = record a { scripted = scripted }

-- `draft_events`, with the agent that it leaves: the script is taken once.
unfoldable pub draft_external :
    ExternalProcessAgent → Result (List (AgentEventKind × Text)) × ExternalProcessAgent
unfolding ensure_protocol_version
draft_external a = elim (ensure_protocol_version a.version) [
  | ok _ ↦ drafted a a.scripted
  | err e ↦ (err e, a)
  | panic ↦ (panic, a)
]
  where
    drafted :
        ExternalProcessAgent
        → List (AgentEventKind × Text)
        → Result (List (AgentEventKind × Text)) × ExternalProcessAgent
    drafted a [] = (
      ok ((planning, text "external '" ++ (a.identity.name ++ text "' planned the prompt")) ∷ []),
      a,
    )
    drafted a (d ∷ ds) = (ok (d ∷ ds), record a { scripted = [] })

unfoldable pub external_agent : ExternalProcessAgent → AgentBackend
unfolding draft_external
external_agent a = record {
  identity = a.identity;
  version = a.version;
  draft_events = λ context input start. (draft_external a).0;
}

-- One name of the table in `normalize`.
abbrev pub is_one_of : Text → List Text → Bool
is_one_of candidate names = any (λ n. text_eq candidate n) names

unfoldable pub canonical : Text → Option AgentEventKind
canonical c =
    if is_one_of c (text "planning" ∷ text "plan" ∷ [])
    then some planning
    else if is_one_of c (text "file_changed" ∷ text "file" ∷ text "files" ∷ text "observe" ∷ [])
    then some file_changed
    else if is_one_of c (text "command_run" ∷ text "command" ∷ text "act" ∷ text "exec" ∷ [])
    then some command_run
    else if is_one_of c (text "capability_requested" ∷ text "capability" ∷ [])
    then some capability_requested
    else if is_one_of c (text "build" ∷ [])
    then some build
    else if is_one_of c (text "preview" ∷ [])
    then some preview
    else if is_one_of c (text "deployment" ∷ text "deploy" ∷ [])
    then some deployment
    else if is_one_of c (text "verification" ∷ text "verify" ∷ [])
    then some verification
    else if is_one_of c (text "completed" ∷ text "complete" ∷ text "done" ∷ [])
    then some completed
    else none

-- The loop over `parts[start..]`, for each start in turn: the first suffix in the table.
unfoldable pub first_suffix : List Text → Option AgentEventKind
unfolding canonical join
first_suffix [] = none
first_suffix (p ∷ ps) =
    let rest = first_suffix ps in
    elim (canonical (join (text "_") (p ∷ ps))) [ some k ↦ some k | none ↦ rest ]

-- `.replace(['.', '-'], "_")`.
abbrev pub underscored : Text → Text
underscored t = map (λ c. if c == b'.' || c == b'-' then b'_' else c) t

unfoldable pub normalize : Text → Text → Result (AgentEventKind × Text)
unfolding trim to_ascii_lowercase split first_suffix
normalize raw_name detail =
    elim (first_suffix (split b'_' (underscored (to_ascii_lowercase (trim raw_name))))) [
      | some kind ↦ ok (kind, detail)
      | none ↦ err session_state
    ]
