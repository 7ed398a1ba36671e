-- ===== src/Harness/SubAgents.antt =====
-- src/harness/sub_agent.rs: the sessions of subtasks below a parent's, what they produced, and the hint
-- that a failed child gives.
use cli_agent.Common.{
  ℕ, ◌+◌, ◌*◌, ◌≤◌, ◌<◌, String, string_eq, ◌≡◌, Bool, true, false, Option, none, some, List, [],
  ◌∷◌, leb, if◌then◌else◌, All,
}
use cli_agent.Common.Map
use cli_agent.Types.{AgentRole, SubtaskDefinition}
use cli_agent.Harness.{
  AgentSessionStatus, failed, AgentSession, AgentHarness, create_session, record_error,
}

pub record ChildOutput : Type 0 where
  pub session_id : String
  pub agent_role : AgentRole
  pub content : String
  pub status : AgentSessionStatus

pub data RecoveryAction : Type 0 where
  go_on escalate_to_planner abort_parent : RecoveryAction

-- `spawn_child`; the id is the one that `create_session` generates.
abbrev pub spawn_child : String → AgentRole → String → AgentHarness → AgentHarness
spawn_child parent role id h = create_session id role (some parent) h

-- `spawn_from_plan`, with the ids that are generated: the pairs of a subtask and its session.
unfoldable pub spawn_from_plan :
    String
    → List SubtaskDefinition
    → List String
    → AgentHarness
    → List (String × String) × AgentHarness
spawn_from_plan parent [] ids h = ([], h)
spawn_from_plan parent (s ∷ rest) [] h = ([], h)
spawn_from_plan parent (s ∷ rest) (id ∷ ids) h =
    let (pairs, h') =
      spawn_from_plan parent rest ids (create_session id s.agent_role (some parent) h) in
    ((s.id, id) ∷ pairs, h')

-- The `filter_map` over the children.
unfoldable pub outputs_of : AgentHarness → List String → List ChildOutput
outputs_of h [] = []
outputs_of h (id ∷ ids) =
    let rest = outputs_of h ids in
    elim (Map.get id h.sessions) [
      | none ↦ rest
      | some s ↦ elim s.last_output [
        | none ↦ rest
        | some out ↦
            record {
              session_id = id;
              agent_role = s.agent_role;
              content = out.content;
              status = s.status;
            }
            ∷ rest
      ]
    ]

unfoldable pub collect_child_outputs : String → AgentHarness → List ChildOutput
unfolding outputs_of
collect_child_outputs parent h = elim (Map.get parent h.sessions) [
  | none ↦ []
  | some s ↦ outputs_of h s.child_sessions
]

abbrev pub is_failure : AgentSessionStatus → Bool
is_failure (failed e) = true
is_failure _ = false

-- The loop over the siblings: how many are registered, and how many of them failed.
unfoldable pub count_failed : AgentHarness → List String → ℕ × ℕ
count_failed h [] = (0, 0)
count_failed h (id ∷ ids) =
    let rest = count_failed h ids in
    elim (Map.get id h.sessions) [
      | none ↦ rest
      | some s ↦ (rest.0 + 1, if is_failure s.status then rest.1 + 1 else rest.1)
    ]

abbrev pub action_of : ℕ × ℕ → RecoveryAction
action_of (total, failures) =
    if leb total failures
    then abort_parent
    else if leb total (failures * 2)
    then escalate_to_planner
    else go_on

-- The harness with the error, and the hint; none where the parent is not registered.
unfoldable pub classify_child_failure :
    String → String → String → AgentHarness → AgentHarness × Option RecoveryAction
unfolding record_error count_failed
classify_child_failure parent child e h =
    let h' = record_error child e h in
    (
      h',
      elim (Map.get parent h'.sessions) [
        | none ↦ none
        | some p ↦ some (action_of (count_failed h' p.child_sessions))
      ],
    )

-- A child that is registered has failed.
abbrev pub HasFailed : AgentHarness → String → Type 0
HasFailed h id = (s : AgentSession) → Map.get id h.sessions ≡ some s → is_failure s.status ≡ true

-- What the hint says, where the parent is registered with these children behind the error.
abbrev pub Hints : AgentHarness → List String → RecoveryAction → Type 0
Hints h children abort_parent = All (HasFailed h) children
Hints h children escalate_to_planner =
    (¬ All (HasFailed h) children) × ((count_failed h children).0 ≤ 2 * (count_failed h children).1)
Hints h children go_on = 2 * (count_failed h children).1 < (count_failed h children).0
