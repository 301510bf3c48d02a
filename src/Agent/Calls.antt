-- ===== src/Agent/Calls.antt =====
-- The calls that a session receives, in any order, whatever their arguments.
use labrys.Base.{List, [], ◌∷◌, Text}
use labrys.Base.Clock.{Instant}
use labrys.Runtime.{ExplicitApproval}
use labrys.Agent.Protocol.{AgentEvent, AgentInput, AgentBackend}
use labrys.Agent.Sessions.{
  AgentSession, set_deadline, prompt, interrupt, resume_session, complete_session, replay_event,
  resolve_approval,
}

pub data Call : Type 0 where
  prompted : AgentBackend → AgentInput → Instant → Call
  interruption resumption completion : Call
  replayed : AgentEvent → Call
  answered : Text → ExplicitApproval → Call
  limited : Instant → Call

unfoldable pub called : Call → AgentSession → AgentSession
called (prompted backend input now) s = (prompt backend input now s).1
called interruption s = (interrupt s).1
called resumption s = (resume_session s).1
called completion s = (complete_session s).1
called (replayed e) s = (replay_event e s).1
called (answered id approval) s = (resolve_approval id approval s).1
called (limited deadline) s = set_deadline deadline s

abbrev pub calls : List Call → AgentSession → AgentSession
calls [] s = s
calls (c ∷ cs) s = calls cs (called c s)
