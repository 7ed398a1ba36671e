-- ===== src/Runtime.antt =====
-- src/runtime/mod.rs: the results of nodes, the events of a run, and how the next node is chosen.
-- The loop over these is in `Runtime.Loop`, the attempts at one node in `Runtime.Attempts`.
pub mod Attempts
pub mod Loop
mod Tests
use cli_agent.Common.{
  ℕ, zero, suc, ◌+◌, ◌-◌, ◌*◌, ◌/◌, ◌%◌, ◌^◌, ◌≤◌, ◌<◌, min, max, String, ◌≡◌, refl, sym, ap, ◌∙◌,
  subst, ◌≢◌, ◌↔◌, ◌⊎◌, inl, inr, Bool, true, false, not, ◌&&◌, ◌||◌, Option, none, some, List, [],
  ◌∷◌, ◌++◌, map, arith, ltb, leb, if◌then◌else◌, Bool-cases, Option-cases, Eq, ◌==◌, nat_eq,
  string_eq, ==_refl, eq_of_==, ==_comm, derive_eq, length, filter, any, all, All, length-append,
  length-filter-le, All-append,
}
use cli_agent.Common.Map
use cli_agent.Common.Map.{Map}
use cli_agent.Common.Set
use cli_agent.Common.Sort.{sort_by}
use Prim.Native.String
use Prim.Native.String.{compare}
use text.Mathlib.Text.{is_le}
use cli_agent.Types.{AgentRole, role_eq, TokenUsage}
use cli_agent.Graph.{
  NodeStatus, pending, running, succeeded, failed, skipped, is_terminal, DependencyFailurePolicy,
  fail_fast, continue_on_error, fallback_node, AgentNode, ExecutionGraph, is_forced_ready,
  is_fallback_only, clear_forced_ready, force_ready, set_status, pending_nodes, dependencies,
}

pub record NodeExecutionResult : Type 0 where
  pub node_id : String
  pub role : AgentRole
  pub model : String
  pub output : String
  pub duration_ms : ℕ
  pub succeeded : Bool
  pub error : Option String
  pub token_usage : Option TokenUsage

-- The constructors of `NodeExecutionResult`; `duration_ms` is `started.elapsed().as_millis()`.
unfoldable pub success : String → AgentRole → String → String → ℕ → NodeExecutionResult
success node_id role model output duration_ms = record {
  node_id = node_id;
  role = role;
  model = model;
  output = output;
  duration_ms = duration_ms;
  succeeded = true;
  error = none;
  token_usage = none;
}

unfoldable pub success_with_usage :
    String → AgentRole → String → String → Option TokenUsage → ℕ → NodeExecutionResult
unfolding success
success_with_usage node_id role model output usage duration_ms =
    record (success node_id role model output duration_ms) { token_usage = usage }

unfoldable pub failure_with_output :
    String → AgentRole → String → String → String → ℕ → NodeExecutionResult
failure_with_output node_id role model output error duration_ms = record {
  node_id = node_id;
  role = role;
  model = model;
  output = output;
  duration_ms = duration_ms;
  succeeded = false;
  error = some error;
  token_usage = none;
}

unfoldable pub failure : String → AgentRole → String → String → ℕ → NodeExecutionResult
failure node_id role model error duration_ms = record {
  node_id = node_id;
  role = role;
  model = model;
  output = "";
  duration_ms = duration_ms;
  succeeded = false;
  error = some error;
  token_usage = none;
}

-- The events that the run loop emits; the other variants of `RuntimeEvent` come from the
-- orchestrator. The texts of `reason` are those of the source.
pub data RuntimeEvent : Type 0 where
  node_started : String → AgentRole → Option String → RuntimeEvent
  node_completed :
      String
      → AgentRole
      → String
      → ℕ
      → String
      → Bool
      → Option TokenUsage
      → Option String
      → RuntimeEvent
  node_failed : String → AgentRole → String → Option String → RuntimeEvent
  node_skipped : String → String → RuntimeEvent
  dynamic_node_added : String → String → AgentRole → List String → Option String → RuntimeEvent
  graph_completed : RuntimeEvent

abbrev pub node_output_preview_chars : ℕ
node_output_preview_chars = 8192

-- The loop takes characters while it has room; the flag says that one was left.
unfoldable pub truncate_for_event : String → ℕ → String × Bool
truncate_for_event String.[] max_chars = ("", false)
truncate_for_event (String.◌∷◌ ch rest) zero = ("", true)
truncate_for_event (String.◌∷◌ ch rest) (suc room) =
    let (out, truncated) = truncate_for_event rest room in (String.◌∷◌ ch out, truncated)

-- The arguments of the two reasons are the dependency and its state.
pub data DepResolution : Type 0 where
  ready blocked : DepResolution
  stop_fail_fast : String → NodeStatus → DepResolution
  use_fallback : String → NodeStatus → DepResolution

abbrev on_failed : DependencyFailurePolicy → String → NodeStatus → DepResolution → DepResolution
on_failed continue_on_error dep st rest = rest
on_failed fail_fast dep st rest = stop_fail_fast dep st
on_failed fallback_node dep st rest = use_fallback dep st

-- The loop over the dependencies in `is_runnable`.
unfoldable pub resolve : DependencyFailurePolicy → List (String × NodeStatus) → DepResolution
resolve policy [] = ready
resolve policy ((dep, succeeded) ∷ deps) = resolve policy deps
resolve policy ((dep, pending) ∷ deps) = blocked
resolve policy ((dep, running) ∷ deps) = blocked
resolve policy ((dep, failed) ∷ deps) = on_failed policy dep failed (resolve policy deps)
resolve policy ((dep, skipped) ∷ deps) = on_failed policy dep skipped (resolve policy deps)

unfoldable pub is_runnable : ExecutionGraph → AgentNode → DepResolution
unfolding resolve
is_runnable g node =
    if is_forced_ready node.id g
    then ready
    else if is_fallback_only node.id g
    then blocked
    else resolve node.policy.on_dependency_failure (dependencies g node)

-- What `select_next_node` returns: its `Ok(Some)`, `Ok(None)` and its error.
pub data Selection : Type 0 where
  chosen : AgentNode → Selection
  nothing : Selection
  aborted : String → String → NodeStatus → Selection

abbrev force_fallback : AgentNode → ExecutionGraph → ExecutionGraph
force_fallback node g = elim node.policy.fallback_target [
  | none ↦ g
  | some target ↦ force_ready target g
]

-- The `match` on the resolution; `more` is the rest of the loop.
abbrev pub after_resolution :
    (ExecutionGraph → ExecutionGraph × Selection)
    → AgentNode
    → ExecutionGraph
    → DepResolution
    → ExecutionGraph × Selection
after_resolution more node g ready = (clear_forced_ready node.id g, chosen node)
after_resolution more node g blocked = more g
after_resolution more node g (stop_fail_fast dep st) =
    (set_status node.id skipped g, aborted node.id dep st)
after_resolution more node g (use_fallback dep st) =
    more (force_fallback node (set_status node.id skipped g))

abbrev pub by_id : AgentNode → AgentNode → Bool
by_id a b = is_le (compare a.id b.id)

module _ (in_flight : List String) (by_role : Map AgentRole ℕ) where
  -- `role_running >= role_limit`
  abbrev pub role_is_full : AgentNode → Bool
  role_is_full node = leb (max node.policy.max_parallelism 1) (Map.get_or node.role 0 by_role)

  -- The loop over the sorted pending nodes.
  unfoldable pub select_from : List AgentNode → ExecutionGraph → ExecutionGraph × Selection
  unfolding is_runnable
  select_from [] g = (g, nothing)
  select_from (node ∷ rest) g =
      let decided = after_resolution (select_from rest) node g (is_runnable g node) in
      let passed_over = select_from rest g in
      if Set.contains node.id in_flight || role_is_full node then passed_over else decided

  unfoldable pub select_next_node : ExecutionGraph → ExecutionGraph × Selection
  unfolding select_from
  select_next_node g = select_from (sort_by by_id (pending_nodes g)) g

abbrev pub is_failed : NodeStatus → Bool
is_failed failed = true
is_failed skipped = true
is_failed _ = false

-- One round of `resolve_blocked_nodes`: the graph, whether it progressed, and the events.
unfoldable pub unblock :
    AgentNode → DependencyFailurePolicy → ExecutionGraph → ExecutionGraph × List RuntimeEvent
unblock node continue_on_error g = (force_ready node.id g, [])
unblock node fail_fast g =
    (set_status node.id skipped g, node_skipped node.id "dependency failed (fail-fast)" ∷ [])
unblock node fallback_node g = (
  force_fallback node (set_status node.id skipped g),
  node_skipped node.id "dependency failed (fallback-node)" ∷ [],
)

-- The two tests before the round.
unfoldable pub is_stuck : ExecutionGraph → AgentNode → Bool
is_stuck g node =
    let deps = dependencies g node in
    all (λ d. is_terminal d.1) deps && any (λ d. is_failed d.1) deps

unfoldable pub resolve_each :
    List AgentNode
    → Bool
    → List RuntimeEvent
    → ExecutionGraph
    → ExecutionGraph × Bool × List RuntimeEvent
unfolding unblock is_stuck
resolve_each [] progressed events g = (g, progressed, events)
resolve_each (node ∷ rest) progressed events g =
    let (g', new) = unblock node node.policy.on_dependency_failure g in
    let moved = resolve_each rest true (events ++ new) g' in
    let stayed = resolve_each rest progressed events g in if is_stuck g node then moved else stayed

unfoldable pub resolve_blocked_nodes : ExecutionGraph → ExecutionGraph × Bool × List RuntimeEvent
unfolding resolve_each
resolve_blocked_nodes g = resolve_each (pending_nodes g) false [] g
