-- ===== src/Lib.antt =====
-- Labrys: the control logic of the platform core (crates/labrys-core), a deterministic library that
-- reconciles desired with observed state, runs jobs with retries, and takes deployments from a
-- build over a health gate to traffic and back by rollbacks.
--
-- The parts, and the files that model them:
-- - Base: lists, texts, maps ordered by key (BTreeMap), results with state, and chrono's instants.
-- - Retry: RetryPolicy::delay_for of crates/labrys-core/src/controller.rs.
-- - Resource: ResourcePhase and Resource of controller.rs. observe, fail, begin_delete and
--   mark_deleted are methods on the record; request makes one.
-- - Queue: Job and JobQueue of controller.rs: enqueue, claim_next, complete, fail, pause, resume,
--   requeue. Queue/Steps gives the transition system that they implement.
-- - Health: HealthReport and aggregate_health of controller.rs.
-- - Reconcile: DesiredState and ObservedState of crates/labrys-core/src/state.rs and the five
--   controllers of controller.rs, which read a resource or a record of observations, and enqueue
--   jobs on the queue that they are given.
-- - Runtime: the configuration, builds and health probes of crates/labrys-core/src/runtime.rs, and
--   ExplicitApproval of crates/labrys-core/src/inspector.rs.
-- - Deployment: crates/labrys-core/src/deployment.rs. Artifacts, Phase, Lifecycle, Rollouts and
--   Rollback are the code; a deployment uses the runtime's build results and health statuses.
-- - Provider: crates/labrys-core/src/provider.rs, on the deployments and domains of Deployment.
-- - Observability: crates/labrys-core/src/observability.rs. Events and Metrics are its logs and
--   measures, Audit the chained trail, Evidence the stages and retention, Verifiers the verdict.
-- - Agent: crates/labrys-core/src/agent.rs. Protocol has the vocabulary and the policy, Sessions the
--   methods of AgentSession, Backends the two implementations of AgentBackend, and Calls any sequence
--   of calls of a session.
-- - Workspace: crates/labrys-core/src/workspace.rs: Worktrees with their merges, Registry, Previews,
--   Shares (ExpoShare) and Comments (Feedback). A merge reads the approval of the inspector, a
--   preview the builds and healths of Runtime.
-- - Capability: crates/labrys-core/src/capability.rs: Bindings with their resolution, Modes
--   (BoundCapability), Secrets with the two envelopes, Store and Upkeep with the operations of
--   SecretStore.
-- - Plugin: crates/labrys-core/src/plugin.rs: Handshakes, Processes (PluginProcess) and Registry. A
--   handler of a method is a function of the call; what it changes in its own process is not seen.
-- - Scenarios: concrete inputs.
--
-- A method on `&mut self` is a function from the record to a result and the record as it is left,
-- also when it fails. A result is a value, an error or a panic. The message of an error is left
-- out; no code branches on it. An error that only a message distinguishes is one.
--
-- Numbers are natural numbers, and a u32 or u64 that the code adds to wraps, as in a release build,
-- or saturates as written; a number that counts the members of a list in memory does not wrap. The largest argument of chrono's Duration::seconds is written out as the constant
-- seconds_max; an instant is a number of nanoseconds since the earliest, and the addition of a
-- delay to an instant is not bounded above. A fresh uuid is an argument, and an identifier is its
-- text of digits, printed after the prefix of its kind. The clock is an argument where the code
-- reads it. A text is a list of code points. JSON values and the debug form of texts are
-- parameters. The form of an instant in the audit trail (to_rfc3339), SHA-256 and the cipher of
-- sealed secrets are parameters too; a random nonce is an argument. A backend of an agent is a
-- record of its identity, its version and the function that drafts events; what it changes in
-- itself is a second result of that function where the code shows it (draft_external).
--
-- Fuel: `str::replace` runs on the length of the text, of which each round takes a character or
-- more; the decimal form of a u64 runs on 20 digits; the key stream of the legacy envelope on
-- the number of bytes asked for, of which a round gives eight. All other loops are structural.
--
-- Not modelled: serde's JSON and YAML forms, text for display, the detection of runtimes in
-- runtime.rs, the findings of observability.rs, the requests that agent.rs only prints, the
-- JSON frames and SDK examples of plugin.rs, and the other files of crates/labrys-core and crates/labrys-control-plane.
pub mod Base
pub mod Retry
pub mod Resource
pub mod Queue
pub mod Health
pub mod Reconcile
pub mod Runtime
pub mod Deployment
pub mod Provider
pub mod Observability
pub mod Agent
pub mod Workspace
pub mod Capability
pub mod Plugin
pub mod Scenarios
