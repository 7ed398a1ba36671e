-- ===== src/Runtime/Loop.antt =====
-- `AgentRuntime::execute_graph_with_pause_notify` of src/runtime/mod.rs, one round of its loop at a
-- time. What happens outside the loop in a round is a `Tick`: the answers of `should_cancel` and
-- `should_pause`, which of the running tasks `join_next` returns and with what, and the answer of
-- `on_completed`. The wait while the run is paused takes time and changes nothing.
pub mod Breaker
pub mod Cancel
pub mod Books
pub mod Capacity
pub mod GraphRule
pub mod Fallback
pub mod Saturation
pub mod Unasked
pub mod Ready
pub mod Replaced
use cli_agent.Common.{
  ℕ, zero, suc, ◌+◌, ◌-◌, ◌*◌, ◌/◌, ◌%◌, ◌^◌, ◌≤◌, ◌<◌, min, max, String, ◌≡◌, refl, sym, ap, ◌∙◌,
  subst, ◌≢◌, ◌↔◌, ◌⊎◌, inl, inr, Bool, true, false, not, ◌&&◌, ◌||◌, Option, none, some, List, [],
  ◌∷◌, ◌++◌, map, arith, ltb, leb, if◌then◌else◌, Bool-cases, Option-cases, Eq, ◌==◌, nat_eq,
  string_eq, ==_refl, eq_of_==, ==_comm, derive_eq, length, filter, any, all, All, length-append,
  length-filter-le, All-append,
}
use cli_agent.Common.Map
use cli_agent.Common.Map.{Map}
use cli_agent.Common.Set
use cli_agent.Common.Sort.{sort_by}
use Prim.Native.String.{compare}
use text.Mathlib.Text.{is_le}
use cli_agent.Types.{AgentRole, role_eq}
use cli_agent.Graph.{
  NodeStatus, pending, running, succeeded, failed, skipped, AgentNode, ExecutionGraph, GraphError,
  is_forced_ready, is_fallback_only, is_pending, status, force_ready, set_status, pending_nodes,
  all_terminal, add_node, mark_dependents_pending_as_skipped,
}
use cli_agent.Runtime.{
  NodeExecutionResult, RuntimeEvent, node_started, node_completed, node_failed, node_skipped,
  dynamic_node_added, graph_completed, node_output_preview_chars, truncate_for_event, Selection,
  chosen, nothing, aborted, select_next_node, resolve_blocked_nodes,
}
use cli_agent.Runtime.Attempts.{Execution, ok, err}

-- `AgentRuntime::new`: the field `global_max_parallelism`.
unfoldable pub effective_parallelism : ℕ → ℕ
effective_parallelism requested = max requested 1

-- A spawned task: the node and the outputs of its dependencies.
pub record Task : Type 0 where
  pub node : AgentNode
  pub dep_outputs : List NodeExecutionResult

-- The variables of the loop. `events` holds what was sent to the sink, the newest last.
pub record State : Type 0 where
  pub graph : ExecutionGraph
  pub outputs : Map String NodeExecutionResult
  pub in_flight : List String
  pub running_by_role : Map AgentRole ℕ
  pub node_failures : Map String ℕ
  pub tasks : List Task
  pub events : List RuntimeEvent

unfoldable pub initial : ExecutionGraph → State
initial g = record {
  graph = g;
  outputs = [];
  in_flight = [];
  running_by_role = [];
  node_failures = [];
  tasks = [];
  events = [];
}

pub data RuntimeError : Type 0 where
  skipped_fail_fast : String → String → NodeStatus → RuntimeError
  deadlock : RuntimeError
  join_failed : String → RuntimeError
  callback_failed : String → RuntimeError
  add_failed : GraphError → RuntimeError

abbrev emit : List RuntimeEvent → State → State
emit new s = record s { events = s.events ++ new }

-- The `filter_map` over the dependencies of a started node.
unfoldable pub collect_outputs :
    Map String NodeExecutionResult → List String → List NodeExecutionResult
collect_outputs outputs [] = []
collect_outputs outputs (dep ∷ deps) = elim (Map.get dep outputs) [
  | none ↦ collect_outputs outputs deps
  | some r ↦ r ∷ collect_outputs outputs deps
]

-- The body of the inner loop for a chosen node.
unfoldable pub start_node : AgentNode → State → State
unfolding collect_outputs
start_node node s = record s {
  graph = set_status node.id running s.graph;
  in_flight = Set.insert node.id s.in_flight;
  running_by_role =
      Map.insert node.role (Map.get_or node.role 0 s.running_by_role + 1) s.running_by_role;
  tasks =
      s.tasks
      ++ record { node = node; dep_outputs = collect_outputs s.outputs node.dependencies } ∷ [];
  events = s.events ++ node_started node.id node.role node.assigned_persona ∷ [];
}

-- How the inner loop ends: whether it launched anything, or the error of `select_next_node`.
pub data Launch : Type 0 where
  launched : Bool → State → Launch
  stopped : RuntimeError → State → Launch

-- What a turn of the inner loop does with the selection; `again` is the rest of the loop.
abbrev pub launch_next :
    (AgentNode → State → Launch) → Bool → State → ExecutionGraph × Selection → Launch
launch_next again any_launched s (g, chosen node) = again node (record s { graph = g })
launch_next again any_launched s (g, nothing) = launched any_launched (record s { graph = g })
launch_next again any_launched s (g, aborted id dep st) =
    stopped (skipped_fail_fast id dep st) (record s { graph = g })

-- The inner loop without the test of the two flags, which do not change in a round. Each turn adds
-- a node to `in_flight`, so `cap` turns are enough (`Runtime.Loop.Saturation.launch_saturates`).
unfoldable pub launch : ℕ → ℕ → Bool → State → Launch
unfolding start_node
launch cap zero any_launched s = launched any_launched s
launch cap (suc turns) any_launched s =
    let next =
      launch_next (λ node s'. launch cap turns true (start_node node s')) any_launched s
        (select_next_node s.in_flight s.running_by_role s.graph) in
    if ltb (length s.in_flight) cap then next else launched any_launched s

-- The answer of `on_completed`: the dynamic nodes and the ids to skip, or its error.
pub data Callback : Type 0 where
  answer : List AgentNode → List String → Callback
  broken : String → Callback

pub data Joined : Type 0 where
  finished : Execution → Joined
  panicked : String → Joined

pub record Tick : Type 0 where
  pub cancel : Bool
  pub pause : Bool
  pub index : ℕ
  pub joined : Joined
  pub callback : Callback

pub data Round : Type 0 where
  continues : State → Round
  ends : State → Round
  fails : RuntimeError → State → Round

-- The status and the event of a node that is skipped.
abbrev pub skip_with : String → String → State → State
skip_with reason id s = record s {
  graph = set_status id skipped s.graph;
  events = s.events ++ node_skipped id reason ∷ [];
}

-- The loop over `graph.pending_nodes()` when the run is cancelled.
unfoldable pub skip_cancelled : List AgentNode → State → State
skip_cancelled [] s = s
skip_cancelled (node ∷ rest) s = skip_cancelled rest (skip_with "cancel_requested" node.id s)

abbrev pub put_back : Task → Option (Task × List Task) → Option (Task × List Task)
put_back t none = none
put_back t (some (found, others)) = some (found, t ∷ others)

-- The task at a position, and the others.
unfoldable pub take_task : ℕ → List Task → Option (Task × List Task)
take_task index [] = none
take_task zero (t ∷ rest) = some (t, rest)
take_task (suc index) (t ∷ rest) = put_back t (take_task index rest)

abbrev pub preview_event : AgentNode → NodeExecutionResult → RuntimeEvent
preview_event node r =
    let (preview, truncated) = truncate_for_event r.output node_output_preview_chars in
    node_completed node.id node.role r.model r.duration_ms preview truncated r.token_usage
      node.assigned_persona

-- "When a node succeeds, its fallback node is no longer needed".
abbrev pub drop_target : Option String → State → State
drop_target none s = s
drop_target (some target) s =
    if is_fallback_only target s.graph && not (is_forced_ready target s.graph)
    then skip_with "parent_succeeded" target s
    else s

unfoldable pub drop_fallback : AgentNode → State → State
drop_fallback node s = drop_target node.policy.fallback_target s

-- The loop over `skip_ids`.
unfoldable pub skip_superseded : List String → State → State
skip_superseded [] s = s
skip_superseded (id ∷ rest) s =
    skip_superseded rest
      (if is_pending (status id s.graph) then skip_with "superseded_by_subtask_plan" id s else s)

-- The loop over `dynamic_nodes`.
unfoldable pub add_dynamic : String → List AgentNode → State → Round
add_dynamic from [] s = continues s
add_dynamic from (node ∷ rest) s =
    let (g, result) = add_node node s.graph in
    let s' : State = record s { graph = g } in
    let later = add_dynamic from rest (record s' {
      events =
          s'.events
          ++ dynamic_node_added node.id from node.role node.dependencies
              (elim (Map.get node.id g.nodes) [ none ↦ none | some n ↦ n.assigned_persona ])
            ∷ [];
    }) in
    elim result [ some e ↦ fails (add_failed e) s' | none ↦ later ]

-- The branch `Ok(ok) if ok.succeeded`.
unfoldable pub on_success : AgentNode → NodeExecutionResult → Callback → State → Round
unfolding drop_fallback skip_superseded add_dynamic
on_success node r callback s =
    let s' : State = drop_fallback node (record s {
      graph = set_status node.id succeeded s.graph;
      outputs = Map.insert node.id r s.outputs;
      events = s.events ++ preview_event node r ∷ [];
    }) in
    elim callback [
      | broken e ↦ fails (callback_failed e) s'
      | answer dynamic_nodes skip_ids ↦
          add_dynamic node.id dynamic_nodes (skip_superseded skip_ids s')
    ]

abbrev pub force_target : AgentNode → ExecutionGraph → ExecutionGraph
force_target node g = elim node.policy.fallback_target [
  | none ↦ g
  | some target ↦ force_ready target g
]

-- `u8::saturating_add`
abbrev saturating_suc_u8 : ℕ → ℕ
saturating_suc_u8 n = min (n + 1) 255

-- The branch `Ok(failed)`, with the circuit breaker.
unfoldable pub on_failed_output : AgentNode → NodeExecutionResult → State → State
on_failed_output node r s =
    let count = saturating_suc_u8 (Map.get_or node.id 0 s.node_failures) in
    let g = force_target node (set_status node.id failed s.graph) in
    record s {
      graph =
          if ltb 0 node.policy.circuit_breaker && leb node.policy.circuit_breaker count
          then mark_dependents_pending_as_skipped node.id g
          else g;
      outputs = Map.insert node.id r s.outputs;
      node_failures = Map.insert node.id count s.node_failures;
      events = s.events ++ (elim r.error [
        | none ↦ []
        | some e ↦ node_failed node.id node.role e node.assigned_persona ∷ []
      ]);
    }

abbrev pub error_result : AgentNode → String → NodeExecutionResult
error_result node e = record {
  node_id = node.id;
  role = node.role;
  model = "unknown";
  output = "";
  duration_ms = 0;
  succeeded = false;
  error = some e;
  token_usage = none;
}

-- The branch `Err(err)`.
unfoldable pub on_error : AgentNode → String → State → State
on_error node e s = record s {
  graph = force_target node (set_status node.id failed s.graph);
  outputs = Map.insert node.id (error_result node e) s.outputs;
  events = s.events ++ node_failed node.id node.role e node.assigned_persona ∷ [];
}

unfoldable pub on_execution : AgentNode → Execution → Callback → State → Round
unfolding on_success on_failed_output on_error
on_execution node (ok r) callback s =
    if r.succeeded then on_success node r callback s else continues (on_failed_output node r s)
on_execution node (err e) callback s = continues (on_error node e s)

-- The task leaves `running` and the count of its role.
unfoldable pub release : AgentNode → List Task → State → State
release node others s = record s {
  tasks = others;
  in_flight = Set.remove node.id s.in_flight;
  running_by_role = Map.modify node.role (λ n. n - 1) s.running_by_role;
}

-- The part of a round from `join_next` on; with no task there is nothing to wait for.
abbrev pub after_join : Callback → State → Joined → Option (Task × List Task) → Round
after_join callback s joined none = continues s
after_join callback s (panicked e) (some (task, others)) =
    fails (join_failed e) (record s { tasks = others })
after_join callback s (finished execution) (some (task, others)) =
    on_execution task.node execution callback (release task.node others s)

unfoldable pub join_next : Tick → State → Round
unfolding take_task release on_execution
join_next tick s = after_join tick.callback s tick.joined (take_task tick.index s.tasks)

-- The end of the loop: the event behind it.
abbrev pub completed : State → Round
completed s = ends (record s { events = s.events ++ graph_completed ∷ [] })

-- The state behind `resolve_blocked_nodes`.
abbrev pub unblocked : State → State
unblocked s =
    let (g, progressed, new) = resolve_blocked_nodes s.graph in
    record s { graph = g; events = s.events ++ new }

-- The part of a round in which nothing runs and nothing was launched.
unfoldable pub idle : Tick → State → Round
unfolding skip_cancelled
idle tick s =
    if tick.cancel
    then completed (skip_cancelled (pending_nodes s.graph) s)
    else if tick.pause
    then continues s
    else if all_terminal s.graph
    then completed s
    else if (resolve_blocked_nodes s.graph).1
    then continues (unblocked s)
    else fails deadlock (unblocked s)

abbrev pub is_nil {ℓ} : {A : Type ℓ} → List A → Bool
is_nil [] = true
is_nil (x ∷ xs) = false

-- The launches of a round: none while it is cancelled or paused.
abbrev pub launches : ℕ → Tick → State → Launch
launches cap tick s = if tick.cancel || tick.pause then launched false s else launch cap cap false s

-- The rest of a round.
unfoldable pub after_launch : Tick → Launch → Round
unfolding idle join_next
after_launch tick (stopped e s) = fails e s
after_launch tick (launched any_launched s) =
    if is_nil s.in_flight && not any_launched then idle tick s else join_next tick s

unfoldable pub round : ℕ → Tick → State → Round
unfolding launch after_launch
round cap tick s = after_launch tick (launches cap tick s)

-- The loop goes on, or is left.
abbrev pub after_round : (State → Round) → Round → Round
after_round next (continues s) = next s
after_round next (ends s) = ends s
after_round next (fails e s) = fails e s

-- The rounds under a list of ticks; `continues` where the loop is still running behind the last.
unfoldable pub run_rounds : ℕ → List Tick → State → Round
unfolding round
run_rounds cap [] s = continues s
run_rounds cap (tick ∷ ticks) s = after_round (run_rounds cap ticks) (round cap tick s)

-- What the function returns behind the loop.
unfoldable pub results : State → List NodeExecutionResult
results s = sort_by (λ a b. is_le (compare a.node_id b.node_id)) (Map.values s.outputs)
