-- ===== src/Runtime/Tests.antt =====
-- Runs of a small graph on which the theorems on the runtime are tried.
use cli_agent.Graph.{dependencies}
use cli_agent.Graph.{leave}
use cli_agent.Graph.{dfs}
use cli_agent.Graph.{has_cycle}
use cli_agent.Graph.{add_node}
use cli_agent.Common.Sort.{sort_by}
use cli_agent.Common.{
  ℕ, zero, suc, ◌+◌, ◌≤◌, String, ◌≡◌, refl, ◌⊎◌, ◌↔◌, true, false, some, List, [], ◌∷◌, length,
  All, Any, if◌then◌else◌, string_eq,
}
use cli_agent.Common.Map
use cli_agent.Common.Set
use cli_agent.Types.{planner, coder, AgentRole-discrete}
use cli_agent.Graph.{
  AgentNode, is_fallback_only, force_ready, pending, skipped, running, status, is_pending, new_node,
  pending_nodes, clear_forced_ready, add_nodes, new_graph, set_status,
}
use cli_agent.Graph.Valid.{IsValid}
use cli_agent.Graph.Samples.{plan, code, chain, chain-IsValid}
use cli_agent.Runtime.{NodeExecutionResult, success, ready, is_runnable, chosen, select_next_node}
use cli_agent.Runtime.Attempts.{
  Attempt, returned, raised, ok, err, judge, execute_node_with_policy, FirstSuccess,
  execute_node_cases, execute_node_succeeded, execute_node_sleeps,
}
use cli_agent.Runtime.Loop.{
  State, initial, launch, answer, Joined, finished, Tick, Round, continues, ends, fails, deadlock,
  on_execution, release, idle, run_rounds,
}
use cli_agent.Runtime.Loop.Ready.{MayRun, is_runnable-ready_iff}
use cli_agent.Runtime.Loop.Books.{task_ids}
use cli_agent.Runtime.Loop.Capacity.{run_rounds_capacity}
use cli_agent.Runtime.Loop.Breaker.{circuit_breaker_never_counts}
use cli_agent.Runtime.Loop.Cancel.{IsOpen, IsFree, idle_cancelled, idle_deadlock_iff}
use cli_agent.Runtime.Loop.GraphRule.{final_graph, run_rounds-IsValid}
use cli_agent.Runtime.Loop.Saturation.{Saturated, launch_saturates}
use cli_agent.Runtime.Loop.Fallback.{started, running_fallback_skipped}

-- The second attempt succeeds.
abbrev second : ℕ → Attempt
second zero = raised "no model"
second (suc n) = returned (success "plan" planner "small" "a plan" 7)

second_result :
    (execute_node_with_policy second plan).result ≡ ok (success "plan" planner "small" "a plan" 7)
unfolding execute_node_with_policy success
second_result = refl

execute_node_cases_example :
    ((k : ℕ) × (o : NodeExecutionResult) × (k ≤ 1)
      × FirstSuccess second plan k o
      × ((execute_node_with_policy second plan).result ≡ ok o)
      × ((execute_node_with_policy second plan).calls ≡ suc k))
    ⊎ ((e : String) × ((execute_node_with_policy second plan).result ≡ err e)
        × ((j : ℕ) → j ≤ 1 → (e' : String) × (judge plan (second j) ≡ err e'))
        × ((execute_node_with_policy second plan).calls ≡ 2))
execute_node_cases_example = execute_node_cases second plan

execute_node_succeeded_example : (success "plan" planner "small" "a plan" 7).succeeded ≡ true
execute_node_succeeded_example = execute_node_succeeded second plan second_result

execute_node_sleeps_example :
    (length (execute_node_with_policy second plan).sleeps + 1
      ≡ (execute_node_with_policy second plan).calls)
    × All (λ s. (1 ≤ s) × (s ≤ 30)) (execute_node_with_policy second plan).sleeps
execute_node_sleeps_example = execute_node_sleeps second plan

-- The first task in line ends as `execute_node_with_policy` says.
abbrev tick_of : Joined → Tick
tick_of joined = record {
  cancel = false;
  pause = false;
  index = 0;
  joined = joined;
  callback = answer [] [];
}

abbrev plan_done : Joined
plan_done = finished ((execute_node_with_policy second plan).result)

abbrev ticks : List Tick
ticks = tick_of plan_done ∷ []

abbrev reached : Round → State
reached (continues s) = s
reached (ends s) = s
reached (fails e s) = s

abbrev after_plan : State
after_plan = reached (run_rounds 2 ticks (initial chain))

ticks_continue : run_rounds 2 ticks (initial chain) ≡ continues after_plan
unfolding run_rounds initial add_nodes new_graph execute_node_with_policy success select_next_node
    AgentRole-discrete sort_by pending_nodes add_node Map.get has_cycle Map.insert dfs Set.contains
    leave Set.insert Set.remove dependencies set_status clear_forced_ready Map.modify
ticks_continue = refl

run_rounds_capacity_example :
    (length after_plan.tasks ≤ 2)
    × Set.Distinct (task_ids after_plan.tasks)
    × ((id : String)
        → Set.contains id after_plan.in_flight ≡ Set.contains id (task_ids after_plan.tasks))
run_rounds_capacity_example = run_rounds_capacity 2 chain ticks after_plan ticks_continue

circuit_breaker_never_counts_example : after_plan.node_failures ≡ []
circuit_breaker_never_counts_example =
    circuit_breaker_never_counts 2 chain ticks after_plan ((second, plan, refl), tt) ticks_continue

run_rounds-IsValid_example : IsValid (final_graph (run_rounds 2 ticks (initial chain)))
run_rounds-IsValid_example = run_rounds-IsValid 2 ticks chain chain-IsValid

is_runnable-ready_iff_example : (is_runnable chain code ≡ ready) ↔ MayRun chain code
is_runnable-ready_iff_example = is_runnable-ready_iff chain code

abbrev cancelled : Tick
cancelled = record (tick_of plan_done) { cancel = true }

idle_cancelled_example :
    (s' : State) × (idle cancelled (initial chain) ≡ ends s')
    × ((id : String)
        → status id s'.graph ≡ (
            if is_pending (status id (initial chain).graph)
            then some skipped
            else status id (initial chain).graph))
unfolding initial
idle_cancelled_example = idle_cancelled cancelled (initial chain) chain-IsValid refl

idle_deadlock_iff_example :
    ((s' : State) × (idle (tick_of plan_done) (initial chain) ≡ fails deadlock s')) ↔ (
      Any IsOpen (Map.values (initial chain).graph.statuses)
      × All (IsFree (initial chain).graph) (pending_nodes (initial chain).graph))
idle_deadlock_iff_example = idle_deadlock_iff (tick_of plan_done) (initial chain) refl refl

launch_saturates_example : Saturated 2 (launch 2 2 false (initial chain))
launch_saturates_example = launch_saturates 2 false (initial chain)

-- A node that succeeds while its fallback, which another node has forced, runs.
abbrev main_node : AgentNode
main_node = record (new_node "main" coder "try it") {
  policy = record (new_node "main" coder "try it").policy { fallback_target = some "spare" };
}

abbrev spare : AgentNode
spare = new_node "spare" coder "do it simply"

-- `main` runs, and `spare` is forced.
abbrev with_spare : State
with_spare =
    record (initial (
      force_ready "spare"
        (set_status "main" running (add_nodes (spare ∷ main_node ∷ []) (new_graph 4)).0))) {
          in_flight = "main" ∷ [];
        }

abbrev main_result : NodeExecutionResult
main_result = success "main" coder "small" "it works" 5

spare_chosen :
    select_next_node with_spare.in_flight with_spare.running_by_role with_spare.graph
    ≡ (clear_forced_ready "spare" with_spare.graph, chosen spare)
unfolding select_next_node initial add_nodes new_graph clear_forced_ready sort_by pending_nodes
    add_node Map.get has_cycle Map.insert dfs Set.contains leave Set.insert Set.remove dependencies
    set_status force_ready Map.modify AgentRole-discrete
spare_chosen = refl

spare_pending : status "spare" with_spare.graph ≡ some pending
unfolding initial Map.get force_ready set_status add_nodes add_node new_graph has_cycle Map.insert
    dfs Set.contains leave Set.insert Set.remove Map.modify
spare_pending = refl

spare_reserved : is_fallback_only "spare" with_spare.graph ≡ true
unfolding initial Set.contains force_ready Map.get set_status add_nodes add_node new_graph has_cycle
    Map.insert dfs leave Set.insert Set.remove
spare_reserved = refl

running_fallback_skipped_example :
    (status "spare"
        (started spare main_node main_result []
          (clear_forced_ready "spare" with_spare.graph)
          with_spare).graph
      ≡ some running)
    × ((s' : State) × (on_execution main_node (ok main_result) (answer [] []) (
            release main_node [] (
              started spare main_node main_result []
                (clear_forced_ready "spare" with_spare.graph)
                with_spare))
          ≡ continues s')
        × (status "spare" s'.graph ≡ some skipped)
        × (Set.contains "spare" s'.in_flight ≡ true))
unfolding success
running_fallback_skipped_example =
    running_fallback_skipped spare main_node main_result []
      (clear_forced_ready "spare" with_spare.graph) with_spare spare_chosen spare_pending
      spare_reserved refl refl refl
