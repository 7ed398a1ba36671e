-- ===== src/Harness.antt =====
-- src/harness/mod.rs: the sessions of agents. Ids are generated and answers of models come from
-- outside, so both are arguments; `created_at` is left out. A call waits for its model, and other
-- calls may come in between, so `spawn` and `send` are each the two steps around that wait.
pub mod Bus
pub mod Usage
pub mod SubAgents
pub mod Metrics
mod Tests
use cli_agent.Common.{
  ℕ, ◌+◌, min, String, string_eq, ◌≡◌, Bool, true, false, Option, none, some, List, [], ◌∷◌, ◌++◌,
  if◌then◌else◌,
}
use cli_agent.Common.Map
use cli_agent.Common.Map.{Map}
use cli_agent.Types.{AgentRole, TokenUsage, merge, saturating_add}
use cli_agent.Harness.Bus.{MessageBus, new_bus, ensure_mailbox, close}

pub data AgentSessionStatus : Type 0 where
  idle running ready : AgentSessionStatus
  failed : String → AgentSessionStatus
  terminated : AgentSessionStatus

-- src/agents/mod.rs: what a model answers.
pub record AgentOutput : Type 0 where
  pub model : String
  pub content : String
  pub usage : Option TokenUsage

pub record AgentSession : Type 0 where
  pub session_id : String
  pub agent_role : AgentRole
  pub status : AgentSessionStatus
  pub total_usage : Option TokenUsage
  pub iteration_count : ℕ
  pub parent_session : Option String
  pub child_sessions : List String
  pub last_output : Option AgentOutput

-- `AgentSession::new`
abbrev pub new_session : String → AgentRole → Option String → AgentSession
new_session id role parent = record {
  session_id = id;
  agent_role = role;
  status = idle;
  total_usage = none;
  iteration_count = 0;
  parent_session = parent;
  child_sessions = [];
  last_output = none;
}

unfoldable pub add_usage : Option TokenUsage → Option TokenUsage → Option TokenUsage
add_usage before none = before
add_usage none (some used) = some used
add_usage (some before) (some used) = some (merge before used)

-- `AgentSession::record_output`
unfoldable pub note_output : AgentOutput → AgentSession → AgentSession
note_output output s = record s {
  iteration_count = saturating_add s.iteration_count 1;
  status = ready;
  total_usage = add_usage s.total_usage output.usage;
  last_output = some output;
}

pub record AgentHarness : Type 0 where
  pub sessions : Map String AgentSession
  pub bus : MessageBus

-- `AgentHarness::new`
abbrev pub new_harness : AgentHarness
new_harness = record { sessions = []; bus = new_bus }

abbrev pub update : String → (AgentSession → AgentSession) → AgentHarness → AgentHarness
update id f h = record h { sessions = Map.modify id f h.sessions }

abbrev pub set_status : AgentSessionStatus → AgentSession → AgentSession
set_status st s = record s { status = st }

-- The new session is written down with its parent.
unfoldable pub link_child : Option String → String → AgentHarness → AgentHarness
link_child none id h = h
link_child (some parent) id h =
    update parent (λ p. record p { child_sessions = p.child_sessions ++ id ∷ [] }) h

-- `spawn` up to the call of the model.
unfoldable pub begin_spawn : String → AgentRole → Option String → AgentHarness → AgentHarness
begin_spawn id role parent h =
    let linked = link_child parent id h in
    update id (set_status running)
      (record linked { sessions = Map.insert id (new_session id role parent) linked.sessions })

pub data Answer : Type 0 where
  produced : AgentOutput → Answer
  refused : String → Answer

-- The end of `spawn` and of `send`.
unfoldable pub finish_call : String → Answer → AgentHarness → AgentHarness
finish_call id (produced output) h = update id (note_output output) h
finish_call id (refused e) h = update id (set_status (failed e)) h

-- `send` up to the call of the model: the role to call it with, or nothing for an unknown session.
unfoldable pub begin_send : String → AgentHarness → Option (AgentRole × AgentHarness)
begin_send id h = elim (Map.get id h.sessions) [
  | none ↦ none
  | some s ↦ some (s.agent_role, update id (set_status running) h)
]

abbrev pub session_status : String → AgentHarness → Option AgentSessionStatus
session_status id h = elim (Map.get id h.sessions) [ none ↦ none | some s ↦ some s.status ]

-- The harness, or nothing for an unknown session.
unfoldable pub terminate : String → AgentHarness → Option AgentHarness
terminate id h = elim (Map.get id h.sessions) [
  | none ↦ none
  | some s ↦
      let ended = update id (set_status terminated) h in
      some (record ended { bus = close id ended.bus })
]

unfoldable pub create_session : String → AgentRole → Option String → AgentHarness → AgentHarness
create_session id role parent h =
    let linked = link_child parent id h in
    record linked {
      sessions = Map.insert id (set_status running (new_session id role parent)) linked.sessions;
      bus = ensure_mailbox id linked.bus;
    }

unfoldable pub record_output : String → AgentOutput → AgentHarness → AgentHarness
record_output id output h = update id (note_output output) h

unfoldable pub record_error : String → String → AgentHarness → AgentHarness
record_error id e h = update id (set_status (failed e)) h
