-- ===== src/Graph.antt =====
-- src/runtime/graph.rs: the dependency graph of a run and the status of each of its nodes.
-- The hash maps and sets are the association lists of `Common.Map` and `Common.Set`.
pub mod Cycle
pub mod Valid
pub mod Ordered
pub mod Keeps
pub mod Samples
mod Tests
use cli_agent.Common.{
  ℕ, zero, suc, ltb, String, string_eq, Bool, true, false, ◌&&◌, Option, none, some, List, [], ◌∷◌,
  ◌==◌, if◌then◌else◌, filter, all, length,
}
use cli_agent.Common.Map
use cli_agent.Common.Map.{Map}
use cli_agent.Common.Set
use cli_agent.Types.{AgentRole, role_eq}

pub data NodeStatus : Type 0 where
  pending running succeeded failed skipped : NodeStatus

unfoldable pub is_terminal : NodeStatus → Bool
is_terminal pending = false
is_terminal running = false
is_terminal succeeded = true
is_terminal failed = true
is_terminal skipped = true

pub data DependencyFailurePolicy : Type 0 where
  fail_fast continue_on_error fallback_node : DependencyFailurePolicy

pub record ExecutionPolicy : Type 0 where
  pub max_parallelism : ℕ
  pub retry : ℕ
  pub timeout_ms : ℕ
  pub circuit_breaker : ℕ
  pub on_dependency_failure : DependencyFailurePolicy
  pub fallback_target : Option String

abbrev pub default_policy : ExecutionPolicy
default_policy = record {
  max_parallelism = 1;
  retry = 1;
  timeout_ms = 120000;
  circuit_breaker = 3;
  on_dependency_failure = fail_fast;
  fallback_target = none;
}

pub record AgentNode : Type 0 where
  pub id : String
  pub role : AgentRole
  pub instructions : String
  pub dependencies : List String
  pub policy : ExecutionPolicy
  pub depth : ℕ
  pub retry_context : Option String
  pub mcp_tools : List String
  pub git_commands : List String
  pub assigned_persona : Option String

-- `AgentNode::new`
abbrev pub new_node : String → AgentRole → String → AgentNode
new_node id role instructions = record {
  id = id;
  role = role;
  instructions = instructions;
  dependencies = [];
  policy = default_policy;
  depth = 0;
  retry_context = none;
  mcp_tools = [];
  git_commands = [];
  assigned_persona = none;
}

pub record ExecutionGraph : Type 0 where
  pub nodes : Map String AgentNode
  pub statuses : Map String NodeStatus
  pub forced_ready : List String
  pub fallback_only : List String
  pub max_depth : ℕ

-- `ExecutionGraph::new`
unfoldable pub new_graph : ℕ → ExecutionGraph
new_graph max_depth = record {
  nodes = [];
  statuses = [];
  forced_ready = [];
  fallback_only = [];
  max_depth = max_depth;
}

-- The messages of `add_node`; the last is not the program's, and never occurs
-- (`Graph.Cycle.has_cycle_total`).
pub data GraphError : Type 0 where
  duplicate_id : String → GraphError
  depth_exceeded : String → ℕ → ℕ → GraphError
  self_dependency : String → GraphError
  missing_dependency : String → String → GraphError
  introduces_cycle : String → GraphError
  out_of_fuel : GraphError

pub data Result (A : Type 0) : Type 0 where
  ok : A → Result A
  err : GraphError → Result A

-- The two sets of the depth-first search.
pub record Marks : Type 0 where
  pub temp : List String
  pub perm : List String

abbrev pub deps_of : Map String AgentNode → String → List String
deps_of nodes id = elim (Map.get id nodes) [ none ↦ [] | some node ↦ node.dependencies ]

-- Goes on with the next dependency unless a cycle was found.
abbrev pub proceed : (Marks → Option (Bool × Marks)) → Option (Bool × Marks) → Option (Bool × Marks)
proceed next none = none
proceed next (some (true, s)) = some (true, s)
proceed next (some (false, s)) = next s

-- The loop over the dependencies of a node; `visit` is the recursive call of `dfs`.
unfoldable pub any_cycle :
    (String → Marks → Option (Bool × Marks)) → List String → Marks → Option (Bool × Marks)
any_cycle visit [] s = some (false, s)
any_cycle visit (dep ∷ deps) s = proceed (any_cycle visit deps) (visit dep s)

-- What `dfs` does behind the loop.
unfoldable pub leave : String → Option (Bool × Marks) → Option (Bool × Marks)
leave id none = none
leave id (some (true, s)) = some (true, s)
leave id (some (false, s)) =
    some (false, record { temp = Set.remove id s.temp; perm = Set.insert id s.perm })

unfoldable pub dfs : Map String AgentNode → ℕ → String → Marks → Option (Bool × Marks)
dfs nodes zero id s = none
dfs nodes (suc fuel) id s =
    let entered : Marks = record s { temp = Set.insert id s.temp } in
    let below = any_cycle (dfs nodes fuel) (deps_of nodes id) entered in
    let left = leave id below in
    if Set.contains id s.perm
    then some (false, s)
    else if Set.contains id s.temp
    then some (true, s)
    else left

-- A path of the search enters each node at most once, so its depth is at most the number of nodes.
unfoldable pub has_cycle : ExecutionGraph → Option Bool
unfolding any_cycle
has_cycle g =
    elim (any_cycle (dfs g.nodes (suc (length g.nodes))) (Map.keys g.nodes)
      (record { temp = []; perm = [] })) [ none ↦ none | some (found, _) ↦ some found ]

-- The loop over `node.dependencies` in `add_node`.
unfoldable pub check_dependencies :
    AgentNode → Map String AgentNode → List String → Option GraphError
check_dependencies node nodes [] = none
check_dependencies node nodes (dep ∷ deps) =
    if dep == node.id
    then some (self_dependency node.id)
    else if Map.contains_key dep nodes
    then check_dependencies node nodes deps
    else some (missing_dependency node.id dep)

-- `existing.policy.fallback_node.as_deref() == Some(id)`
abbrev pub falls_back_to : String → AgentNode → Bool
falls_back_to id node = elim node.policy.fallback_target [
  | none ↦ false
  | some target ↦ target == id
]

-- The loop over the existing nodes in `add_node`.
unfoldable pub mark_targeted : String → List AgentNode → List String → List String
mark_targeted id [] fallback_only = fallback_only
mark_targeted id (existing ∷ rest) fallback_only =
    mark_targeted id rest
      (if falls_back_to id existing then Set.insert id fallback_only else fallback_only)

-- Both ways in which `add_node` extends `fallback_only`.
unfoldable pub note_fallback : AgentNode → ExecutionGraph → List String
unfolding mark_targeted
note_fallback node g =
    mark_targeted node.id (Map.values g.nodes) (elim node.policy.fallback_target [
      | none ↦ g.fallback_only
      | some target ↦ Set.insert target g.fallback_only
    ])

-- The part of `add_node` behind the checks.
unfoldable pub commit_node : AgentNode → ExecutionGraph → ExecutionGraph × Option GraphError
unfolding note_fallback
commit_node node g =
    let g' : ExecutionGraph = record g {
      nodes = Map.insert node.id node g.nodes;
      statuses = Map.insert node.id pending g.statuses;
      fallback_only = note_fallback node g;
    } in
    elim (has_cycle g') [
      | none ↦ (g', some out_of_fuel)
      | some false ↦ (g', none)
      | some true ↦ (
        record g' {
          nodes = Map.remove node.id g'.nodes;
          statuses = Map.remove node.id g'.statuses;
        },
        some (introduces_cycle node.id),
      )
    ]

-- The graph is changed in place, so it is returned beside the error.
unfoldable pub add_node : AgentNode → ExecutionGraph → ExecutionGraph × Option GraphError
unfolding check_dependencies commit_node
add_node node g =
    if Map.contains_key node.id g.nodes
    then (g, some (duplicate_id node.id))
    else if ltb g.max_depth node.depth
    then (g, some (depth_exceeded node.id node.depth g.max_depth))
    else elim (check_dependencies node g.nodes node.dependencies) [
      | some e ↦ (g, some e)
      | none ↦ commit_node node g
    ]

unfoldable pub add_nodes : List AgentNode → ExecutionGraph → ExecutionGraph × Option GraphError
add_nodes [] g = (g, none)
add_nodes (node ∷ rest) g =
    let (g', result) = add_node node g in
    elim result [ some e ↦ (g', some e) | none ↦ add_nodes rest g' ]

unfoldable pub with_nodes : ℕ → List AgentNode → Result ExecutionGraph
unfolding add_nodes new_graph
with_nodes max_depth nodes =
    let (g, result) = add_nodes nodes (new_graph max_depth) in
    elim result [ some e ↦ err e | none ↦ ok g ]

unfoldable pub pin_persona : String → Option String → ExecutionGraph → ExecutionGraph
pin_persona id persona g = record g {
  nodes = Map.modify id (λ node. record node { assigned_persona = persona }) g.nodes;
}

unfoldable pub force_ready : String → ExecutionGraph → ExecutionGraph
force_ready id g =
    if Map.contains_key id g.nodes
    then record g { forced_ready = Set.insert id g.forced_ready }
    else g

abbrev pub is_forced_ready : String → ExecutionGraph → Bool
is_forced_ready id g = Set.contains id g.forced_ready

unfoldable pub clear_forced_ready : String → ExecutionGraph → ExecutionGraph
clear_forced_ready id g = record g { forced_ready = Set.remove id g.forced_ready }

abbrev pub is_fallback_only : String → ExecutionGraph → Bool
is_fallback_only id g = Set.contains id g.fallback_only

abbrev pub status : String → ExecutionGraph → Option NodeStatus
status id g = Map.get id g.statuses

unfoldable pub set_status : String → NodeStatus → ExecutionGraph → ExecutionGraph
set_status id st g = record g { statuses = Map.modify id (λ _. st) g.statuses }

abbrev pub is_pending : Option NodeStatus → Bool
is_pending (some pending) = true
is_pending _ = false

unfoldable pub pending_nodes : ExecutionGraph → List AgentNode
pending_nodes g = filter (λ node. is_pending (status node.id g)) (Map.values g.nodes)

unfoldable pub all_terminal : ExecutionGraph → Bool
unfolding is_terminal
all_terminal g = all is_terminal (Map.values g.statuses)

-- The `filter_map` of `dependencies`.
unfoldable pub known_statuses : ExecutionGraph → List String → List (String × NodeStatus)
known_statuses g [] = []
known_statuses g (dep ∷ deps) = elim (status dep g) [
  | none ↦ known_statuses g deps
  | some st ↦ (dep, st) ∷ known_statuses g deps
]

unfoldable pub dependencies : ExecutionGraph → AgentNode → List (String × NodeStatus)
unfolding known_statuses
dependencies g node = known_statuses g node.dependencies

-- The loop over the collected targets in the two functions below.
unfoldable pub skip_all : List AgentNode → ExecutionGraph → ExecutionGraph
unfolding set_status
skip_all [] g = g
skip_all (node ∷ rest) g = skip_all rest (set_status node.id skipped g)

unfoldable pub mark_role_pending_as_skipped : AgentRole → ExecutionGraph → ExecutionGraph
unfolding skip_all
mark_role_pending_as_skipped role g =
    skip_all
      (filter (λ node. node.role == role && is_pending (status node.id g)) (Map.values g.nodes)) g

unfoldable pub mark_dependents_pending_as_skipped : String → ExecutionGraph → ExecutionGraph
unfolding skip_all
mark_dependents_pending_as_skipped id g =
    skip_all
      (filter (λ node. Set.contains id node.dependencies && is_pending (status node.id g))
        (Map.values g.nodes))
      g
