-- ===== src/Scenarios/Conversations.antt =====
-- Sessions of an agent.
use labrys.Base.{
  Result, push, approval_required, session_state, if◌then◌else◌, err, ◌≡◌, refl, true, false, none,
  List, [], ◌∷◌, Text, text, All, ok, is_ok,
}
use labrys.Agent.{
  with_action, request_of, resolve_approval, build, event_name, normalize, AgentContext, AgentEvent,
  AgentInput, AgentSession, leaks, native_agent, native_identity, production_deploy,
  requires_approval, opened, open_session, prompt, interrupt, resume_session, complete_session,
  ensure_protocol_version, finished, gate, answer, enter, reenter, append_system_event,
  append_normalized, scan_text, scan_refs, check_policy, Call, prompted, interruption, resumption,
  completion, called, calls,
}
use labrys.Runtime.{ExplicitApproval}
use labrys.Agent.Soundness.{IsSound}
use labrys.Agent.Sequence.{open_session-calls-IsSound}
use labrys.Agent.Gate.{IsAllowed, prompt-IsAllowed}
use labrys.Agent.Asking.{counted, prompt-again}
use labrys.Agent.Closing.{Refuses, calls-closed_refuse}
use labrys.Agent.Replay.{normalize-event_name, is_backend_kind, replay_all, replay_all-calls}

abbrev context : AgentContext
context = record {
  application_id = text "7";
  environment_name = text "staging";
  production = false;
  principal = text "ada";
}

abbrev secrets : List Text
secrets = text "s3cret" ∷ []

abbrev begun : AgentSession
begun = opened (text "1") native_identity context secrets

abbrev wish : AgentInput
wish = record {
  prompt_text = text "add a page";
  secret_refs = [];
  requested_action = none;
  tool = none;
}

abbrev work : List Call
work = prompted native_agent wish 5 ∷ interruption ∷ resumption ∷ []

opens : open_session (text "1") native_agent context secrets ≡ ok begun
unfolding open_session ensure_protocol_version native_agent
opens = refl

open_session-calls-IsSound_example :
    IsSound (calls work begun)
    × ((calls work begun).id ≡ text "1")
    × ((calls work begun).protected_secrets ≡ secrets)
open_session-calls-IsSound_example =
    open_session-calls-IsSound (text "1") native_agent context secrets work opens

prompt_runs : is_ok (prompt native_agent wish 5 begun).0 ≡ true
unfolding prompt gate answer native_agent leaks scan_refs check_policy
prompt_runs = refl

prompt-IsAllowed_example : IsAllowed native_agent wish 5 begun
prompt-IsAllowed_example = prompt-IsAllowed native_agent wish 5 begun prompt_runs

abbrev asked : Result (List AgentEvent) × AgentSession
asked = prompt native_agent (with_action wish production_deploy) 5 begun

deploy_guarded : requires_approval production_deploy ≡ true
unfolding requires_approval
deploy_guarded = refl

prompt-again_example :
    (asked.0 ≡ err approval_required)
    × (asked.1.pending_approvals
        ≡ push begun.pending_approvals (request_of (counted begun) production_deploy))
    × (asked.1.status ≡ begun.status)
    × (asked.1.deadline ≡ begun.deadline)
    × ((id : Text) (approval : ExplicitApproval)
        → (prompt native_agent
            (with_action wish production_deploy)
            5
            (resolve_approval id approval asked.1).1).0
          ≡ err approval_required)
prompt-again_example =
    prompt-again native_agent wish production_deploy 5 begun prompt-IsAllowed_example deploy_guarded

abbrev done : AgentSession
done = record begun { status = finished }

calls-closed_refuse_example :
    ((calls (interruption ∷ completion ∷ []) done).status ≡ finished)
    × Refuses (prompt native_agent wish 5) (calls (interruption ∷ completion ∷ []) done)
    × Refuses interrupt (calls (interruption ∷ completion ∷ []) done)
    × Refuses resume_session (calls (interruption ∷ completion ∷ []) done)
    × Refuses complete_session (calls (interruption ∷ completion ∷ []) done)
calls-closed_refuse_example =
    calls-closed_refuse (interruption ∷ completion ∷ []) done native_agent wish 5 tt

own_events : All (λ (e : AgentEvent). e.backend ≡ native_identity) (calls work begun).events
unfolding called prompt gate answer native_agent leaks scan_refs check_policy interrupt
    resume_session enter reenter append_system_event append_normalized scan_text
own_events = (refl, (refl, (refl, (refl, (refl, (refl, tt))))))

replay_all-calls_example : replay_all (calls work begun).events begun ≡ (
  ok tt,
  record begun {
    events = (calls work begun).events;
    next_sequence = (calls work begun).next_sequence;
  },
)
replay_all-calls_example =
    replay_all-calls (text "1") native_agent context secrets work begun opens own_events

normalize-event_name_example :
    normalize (event_name build) (text "vite build")
    ≡ (if is_backend_kind build then ok (build, text "vite build") else err session_state)
normalize-event_name_example = normalize-event_name build (text "vite build")
