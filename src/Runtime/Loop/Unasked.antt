-- ===== src/Runtime/Loop/Unasked.antt =====
-- Failed executions in the run loop of src/runtime/mod.rs: the callback is not asked behind them.
use cli_agent.Common.{
  ℕ, Bool, Option, none, some, not, map, if◌then◌else◌, Bool-cases, String, string_eq, ◌≡◌, refl,
  ap, ◌∙◌, false, ◌&&◌, List, [], ◌∷◌, arith, filter, Option-cases, inl, inr,
}
use cli_agent.Common.Map
use cli_agent.Common.Map.{Map}
use cli_agent.Types.{role_eq}
use cli_agent.Common.Set
use cli_agent.Graph.{
  is_pending, status, NodeStatus, AgentNode, ExecutionGraph, set_status, failed, force_ready,
  skip_all, mark_dependents_pending_as_skipped,
}
use cli_agent.Runtime.{NodeExecutionResult}
use cli_agent.Runtime.Attempts.{Execution, ok, err}
use cli_agent.Runtime.Loop.{
  State, Callback, answer, continues, ends, fails, on_execution, on_failed_output, on_error,
  force_target, Task, Joined, finished, panicked, Tick, Round, Launch, launched, stopped, launches,
  after_launch, after_join, after_round, take_task, release, join_next, idle, is_nil, round,
  run_rounds,
}

skip_all-nodes : (nodes : List AgentNode) (g : ExecutionGraph) → (skip_all nodes g).nodes ≡ g.nodes
unfolding skip_all set_status
skip_all-nodes [] g = refl
skip_all-nodes (n ∷ rest) g = skip_all-nodes rest _

force_ready-nodes : (id : String) (g : ExecutionGraph) → (force_ready id g).nodes ≡ g.nodes
unfolding force_ready
force_ready-nodes id g = ground arith

mark_dependents-nodes :
    (id : String) (g : ExecutionGraph) → (mark_dependents_pending_as_skipped id g).nodes ≡ g.nodes
unfolding mark_dependents_pending_as_skipped
mark_dependents-nodes id g =
    skip_all-nodes
      (filter (λ n. Set.contains id n.dependencies && is_pending (status n.id g))
        (Map.values g.nodes))
      g

set_status-nodes :
    (id : String) (st : NodeStatus) (g : ExecutionGraph) → (set_status id st g).nodes ≡ g.nodes
unfolding set_status
set_status-nodes id st g = refl

force_target-nodes : (node : AgentNode) (g : ExecutionGraph) → (force_target node g).nodes ≡ g.nodes
force_target-nodes node g = elim (Option-cases node.policy.fallback_target) [
  | inl absent ↦ rw (absent, force_target)
  | inr (target, there) ↦ rw (there, force_target) (force_ready-nodes target g)
]

on_failed_output-nodes :
    (node : AgentNode) (result : NodeExecutionResult) (s : State)
    → (on_failed_output node result s).graph.nodes ≡ s.graph.nodes
unfolding on_failed_output
on_failed_output-nodes node result s = ground (
  arith,
  set_status-nodes node.id failed s.graph,
  force_target-nodes node (set_status node.id failed s.graph),
  mark_dependents-nodes node.id (force_target node (set_status node.id failed s.graph)),
)

-- The task has finished with an output that succeeded.
abbrev pub succeeds : Joined → Bool
succeeds (panicked e) = false
succeeds (finished (err e)) = false
succeeds (finished (ok r)) = r.succeeded

on_error-nodes :
    (node : AgentNode) (e : String) (s : State) → (on_error node e s).graph.nodes ≡ s.graph.nodes
unfolding on_error
on_error-nodes node e s =
    force_target-nodes node (set_status node.id failed s.graph)
    ∙ set_status-nodes node.id failed s.graph

-- A failed execution, an output that has not succeeded or an error, leaves the nodes of the graph as
-- they are.
pub on_execution-failed :
    (node : AgentNode) (x : Execution) (callback : Callback) (s : State)
    → succeeds (finished x) ≡ false
    → (s' : State) × (on_execution node x callback s ≡ continues s')
      × (s'.graph.nodes ≡ s.graph.nodes)
unfolding on_execution
on_execution-failed node (err e) callback s bad = (on_error node e s, refl, on_error-nodes node e s)
on_execution-failed node (ok r) callback s bad =
    (on_failed_output node r s, rw bad, on_failed_output-nodes node r s)

-- The same tick without an answer of the callback where the task has not succeeded.
abbrev pub unasked : Tick → Tick
unasked tick = record tick {
  callback = if succeeds tick.joined then tick.callback else answer [] [];
}

on_execution-unasked :
    (node : AgentNode) (x : Execution) (callback : Callback) (s : State)
    → on_execution node x (if succeeds (finished x) then callback else answer [] []) s
      ≡ on_execution node x callback s
unfolding on_execution
on_execution-unasked node (err e) callback s = refl
on_execution-unasked node (ok r) callback s = elim (Bool-cases r.succeeded) [
  | inl good ↦ rw good refl
  | inr bad ↦ rw bad refl
]

join_next-unasked : (tick : Tick) (s : State) → join_next (unasked tick) s ≡ join_next tick s
unfolding join_next
join_next-unasked tick s = joined tick.joined (take_task tick.index s.tasks)
  where
    joined :
        (j : Joined) (r : Option (Task × List Task))
        → after_join (if succeeds j then tick.callback else answer [] []) s j r
          ≡ after_join tick.callback s j r
    joined j none = refl
    joined (panicked e) (some (t, others)) = refl
    joined (finished x) (some (t, others)) =
        on_execution-unasked t.node x tick.callback (release t.node others s)

round-unasked : (cap : ℕ) (tick : Tick) (s : State) → round cap (unasked tick) s ≡ round cap tick s
unfolding round after_launch idle
round-unasked cap tick s = after (launches cap tick s)
  where
    after : (l : Launch) → after_launch (unasked tick) l ≡ after_launch tick l
    after (stopped e s') = refl
    after (launched any_launched s') = elim (Bool-cases (is_nil s'.in_flight && not any_launched)) [
      | inl none_runs ↦ rw none_runs refl
      | inr busy ↦ rw busy (join_next-unasked tick s')
    ]

pub run_rounds-unasked :
    (cap : ℕ) (ticks : List Tick) (s : State)
    → run_rounds cap (map unasked ticks) s ≡ run_rounds cap ticks s
unfolding run_rounds
run_rounds-unasked cap [] s = refl
run_rounds-unasked cap (tick ∷ ticks) s =
    ap (after_round (run_rounds cap (map unasked ticks))) (round-unasked cap tick s)
    ∙ after (run_rounds-unasked cap ticks) (round cap tick s)
  where
    after :
        ((s' : State) → run_rounds cap (map unasked ticks) s' ≡ run_rounds cap ticks s')
        → (r : Round)
        → after_round (run_rounds cap (map unasked ticks)) r ≡ after_round (run_rounds cap ticks) r
    after same (continues s') = same s'
    after same (ends s') = refl
    after same (fails e s') = refl
