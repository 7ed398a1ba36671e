-- ===== src/Completion/Late.antt =====
-- An accepted plan whose first subtask waits for a later one ends the run.
use cli_agent.Common.{
  ℕ, ◌≤◌, String, string_eq, ◌≡◌, refl, ap, ◌∙◌, subst, true, false, none, some, List, ◌∷◌, arith,
  ◌==◌,
}
use cli_agent.Common.Map
use cli_agent.Common.Set
use cli_agent.Types.{SubtaskDefinition, SubtaskPlan}
use cli_agent.Graph.{AgentNode, ExecutionGraph, add_node, check_dependencies, missing_dependency}
use cli_agent.Runtime.{NodeExecutionResult}
use cli_agent.Runtime.Loop.{
  State, Round, RuntimeError, continues, ends, fails, add_failed, add_dynamic,
}
use cli_agent.Subtasks.{validate_subtask_plan}
use cli_agent.GraphBuilder.{normalize_node_policy_for_runtime}
use cli_agent.GraphBuilder.Admits.{normalize-SamePlace}
use cli_agent.Completion.{Run, deeper, subtask_node, plans, plan_of, max_dynamic_subtasks_per_plan}
use cli_agent.Completion.Plans.{Stands, answered, answered-Stands, plan_nodes}

-- A node whose first dependency is not there.
add_node-missing :
    (node : AgentNode) (g : ExecutionGraph) (dep : String) (deps : List String)
    → node.dependencies ≡ dep ∷ deps
    → Map.contains_key node.id g.nodes ≡ false
    → node.depth ≤ g.max_depth
    → (dep == node.id) ≡ false
    → Map.contains_key dep g.nodes ≡ false
    → add_node node g ≡ (g, some (missing_dependency node.id dep))
unfolding add_node check_dependencies
add_node-missing node g dep deps e new shallow other absent =
    ground (arith, e, new, shallow, other, absent)

-- The loop ends with this error.
abbrev pub FailsWith : RuntimeError → Round → Type 0
FailsWith e (continues s) = ⊥
FailsWith e (ends s) = ⊥
FailsWith e (fails e' s) = e' ≡ e

add_dynamic-missing :
    (from : String) (node : AgentNode) (rest : List AgentNode) (s : State) (dep : String)
    (deps : List String)
    → node.dependencies ≡ dep ∷ deps
    → Map.contains_key node.id s.graph.nodes ≡ false
    → node.depth ≤ s.graph.max_depth
    → (dep == node.id) ≡ false
    → Map.contains_key dep s.graph.nodes ≡ false
    → FailsWith (add_failed (missing_dependency node.id dep)) (add_dynamic from (node ∷ rest) s)
unfolding add_dynamic
add_dynamic-missing from node rest s dep deps e new shallow other absent =
    rw
      (
        ap (λ r. r.1) (add_node-missing node s.graph dep deps e new shallow other absent),
        add_dynamic,
      )
      refl

module _ (run : Run) (node : AgentNode) (result : NodeExecutionResult) (plan : SubtaskPlan) where
  -- The order of an accepted plan matters: where its first subtask, whose id is new, first depends
  -- on something that is not a node of the graph yet, such as a later subtask, the run ends with an
  -- error, though the plan was accepted.
  pub late_dependency_fails :
      (max_depth : ℕ) (known : List String) (s : State) (first : SubtaskDefinition)
      (rest : List SubtaskDefinition) (dep : String) (deps : List String)
      → plans node result ≡ true
      → plan_of run result.output ≡ some plan
      → validate_subtask_plan plan run.static_node_ids max_dynamic_subtasks_per_plan ≡ none
      → Stands max_depth known s.graph
      → deeper 1 node.depth ≤ max_depth
      → plan.subtasks ≡ first ∷ rest
      → first.dependencies ≡ dep ∷ deps
      → Set.contains first.id known ≡ false
      → (dep == first.id) ≡ false
      → Set.contains dep known ≡ false
      → FailsWith (add_failed (missing_dependency first.id dep)) (answered run node result plan s)
  unfolding subtask_node
  late_dependency_fails max_depth known s first rest dep deps planner_done read accepted stands
        shallow begins waits new other absent =
      let (s', e, h) =
        answered-Stands run node result plan max_depth known s planner_done read accepted stands in
      let bare = subtask_node run node first in
      let n = normalize_node_policy_for_runtime run.settings bare in
      let same = normalize-SamePlace run.settings bare in
      let fails_there =
        add_dynamic-missing node.id n (plan_nodes run node rest) s' dep deps
          (same.same_dependencies ∙ (rw waits))
          (h.knows n.id ∙ ap (λ id. Set.contains id known) (same.same_id) ∙ new)
          (rw (same.same_depth, h.limit) shallow) (ap (λ id. dep == id) (same.same_id) ∙ other)
          (h.knows dep ∙ absent) in
      rw (e, begins)
        (subst
          (λ id.
            FailsWith (add_failed (missing_dependency id dep))
              (add_dynamic node.id (n ∷ plan_nodes run node rest) s'))
          (same.same_id) fails_there)
