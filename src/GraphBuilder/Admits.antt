-- ===== src/GraphBuilder/Admits.antt =====
-- The graphs that the builders make are well formed, for every type of task.
use cli_agent.Common.{
  ℕ, ◌≤◌, String, string_eq, ◌≡◌, refl, ap, subst, inl, inr, true, false, none, List, [], ◌∷◌,
  arith, ◌==◌, Bool-cases, Option-cases, All,
}
use cli_agent.Common.Map
use cli_agent.Common.Set
use cli_agent.Common.Texts.{contains_text}
use cli_agent.Types.{
  TaskType, simple_query, analysis, code_generation, configuration, config_query, tool_operation,
  external_project, interactive, complex, ValidationConfig, has_lint, role_eq, validator,
}
use cli_agent.Graph
use cli_agent.Graph.{AgentNode, ExecutionGraph, add_node, new_graph}
use cli_agent.Graph.Valid.{IsValid, new_graph-IsValid, extended}
use cli_agent.Graph.Ordered.{InOrder, grown, Knows, add_node-InOrder}
use cli_agent.GraphBuilder.{
  Settings, normalize_node_policy_for_runtime, add_graph_node, add_graph_nodes, plan_node,
  external_nodes, code_nodes, task_nodes, build_graph,
}

-- The normalization touches the policy alone.
pub record SamePlace (node normalized : AgentNode) : Type 0 where
  pub same_id : normalized.id ≡ node.id
  pub same_depth : normalized.depth ≡ node.depth
  pub same_dependencies : normalized.dependencies ≡ node.dependencies

pub normalize-SamePlace :
    (settings : Settings) (node : AgentNode)
    → SamePlace node (normalize_node_policy_for_runtime settings node)
unfolding normalize_node_policy_for_runtime
normalize-SamePlace settings node = elim (Bool-cases (node.role == validator)) [
  | inl is ↦ rw is (record { same_id = refl; same_depth = refl; same_dependencies = refl })
  | inr other ↦ elim (Option-cases settings.cli_timeout_ms) [
    | inl none_set ↦
        rw (other, none_set)
          (record { same_id = refl; same_depth = refl; same_dependencies = refl })
    | inr (t, set) ↦
        rw (other, set) (record { same_id = refl; same_depth = refl; same_dependencies = refl })
  ]
]

-- The addition succeeded: the graph is well formed and has exactly the nodes that are listed.
abbrev pub IsBuilt : ℕ → List String → Graph.Result ExecutionGraph → Type 0
IsBuilt max_depth known (Graph.ok g) = IsValid g × Knows known g × (g.max_depth ≡ max_depth)
IsBuilt max_depth known (Graph.err e) = ⊥

-- The node as it is added.
normal : Settings → AgentNode → AgentNode
normal settings node = normalize_node_policy_for_runtime settings node

add_graph_node-extended :
    (settings : Settings) (max_depth : ℕ) (known : List String) (node : AgentNode)
    (g : ExecutionGraph)
    → IsValid g
    → Knows known g
    → g.max_depth ≡ max_depth
    → (Set.contains node.id known ≡ false)
    → (node.depth ≤ max_depth)
    → All (λ dep. Set.contains dep known ≡ true) node.dependencies
    → (add_graph_node settings node g ≡ (extended (normal settings node) g, none))
      × IsValid (extended (normal settings node) g)
      × Knows (node.id ∷ known) (extended (normal settings node) g)
unfolding add_graph_node normal
add_graph_node-extended settings max_depth known node g valid k d new shallow deps =
    let same = normalize-SamePlace settings node in
    let (e, v, k') =
      add_node-InOrder (normal settings node) g known valid k (rw (same.same_id) new)
        (rw (same.same_depth, d) shallow) (rw (same.same_dependencies) deps) in
    (e, v, subst (λ id. Knows (id ∷ known) (extended (normal settings node) g)) (same.same_id) k')

pub add_graph_nodes-IsBuilt :
    (settings : Settings) (max_depth : ℕ) (known : List String) (nodes : List AgentNode)
    (g : ExecutionGraph)
    → IsValid g
    → Knows known g
    → g.max_depth ≡ max_depth
    → InOrder max_depth known nodes
    → IsBuilt max_depth (grown known nodes) (add_graph_nodes settings nodes g)
unfolding add_graph_nodes
add_graph_nodes-IsBuilt settings max_depth known [] g valid k d h = (valid, k, d)
add_graph_nodes-IsBuilt settings max_depth known (node ∷ rest) g valid k d (new, shallow, deps, h) =
    let (e, v, k') =
      add_graph_node-extended settings max_depth known node g valid k d new shallow deps in
    rw (ap (λ r. r.1) e, ap (λ r. r.0) e, add_graph_nodes)
      (add_graph_nodes-IsBuilt settings max_depth (node.id ∷ known) rest
        (extended (normal settings node) g) v k' d h)

external_nodes-InOrder :
    (max_depth : ℕ) → 4 ≤ max_depth → InOrder max_depth ("plan" ∷ []) external_nodes
unfolding external_nodes Set.contains
external_nodes-InOrder max_depth h = ground arith

code_nodes-InOrder :
    (max_depth : ℕ) (config : ValidationConfig) (lower : String)
    → 4 ≤ max_depth
    → InOrder max_depth ("plan" ∷ []) (code_nodes config lower)
unfolding code_nodes Set.contains
code_nodes-InOrder max_depth config lower h = elim (Bool-cases (has_lint config)) [
  | inl lint ↦ elim (Bool-cases (contains_text "webhook" lower)) [
    | inl webhook ↦ rw (lint, webhook) (ground arith)
    | inr plain ↦ rw (lint, plain) (ground arith)
  ]
  | inr no_lint ↦ elim (Bool-cases (contains_text "webhook" lower)) [
    | inl webhook ↦ rw (no_lint, webhook) (ground arith)
    | inr plain ↦ rw (no_lint, plain) (ground arith)
  ]
]

task_nodes-InOrder :
    (max_depth : ℕ) (config : ValidationConfig) (snapshot lower : String) (task_type : TaskType)
    → 4 ≤ max_depth
    → InOrder max_depth ("plan" ∷ []) (task_nodes config snapshot lower task_type)
unfolding task_nodes Set.contains
task_nodes-InOrder max_depth config snapshot lower simple_query h = ground arith
task_nodes-InOrder max_depth config snapshot lower analysis h = ground arith
task_nodes-InOrder max_depth config snapshot lower code_generation h =
    code_nodes-InOrder max_depth config lower h
task_nodes-InOrder max_depth config snapshot lower configuration h = ground arith
task_nodes-InOrder max_depth config snapshot lower config_query h = ground arith
task_nodes-InOrder max_depth config snapshot lower tool_operation h = ground arith
task_nodes-InOrder max_depth config snapshot lower external_project h =
    external_nodes-InOrder max_depth h
task_nodes-InOrder max_depth config snapshot lower interactive h = ground arith
task_nodes-InOrder max_depth config snapshot lower complex h =
    code_nodes-InOrder max_depth config lower h

-- A limit of four on the depth is enough for `build_graph`: whatever the task, its type and the
-- settings, all nodes are added, the graph is well formed, and its nodes are the planner and those
-- that the type of the task asks for.
pub build_graph-IsBuilt :
    (settings : Settings) (instructions snapshot lower : String) (task_type : TaskType)
    → 4 ≤ settings.max_graph_depth
    → IsBuilt settings.max_graph_depth
        (grown ("plan" ∷ []) (task_nodes settings.validation_config snapshot lower task_type))
        (build_graph settings instructions snapshot lower task_type)
unfolding build_graph new_graph Map.get Set.contains
build_graph-IsBuilt settings instructions snapshot lower task_type h =
    add_graph_nodes-IsBuilt settings settings.max_graph_depth []
      (plan_node instructions ∷ task_nodes settings.validation_config snapshot lower task_type)
      (new_graph settings.max_graph_depth) (new_graph-IsValid settings.max_graph_depth) nothing refl
      (
        refl,
        ground arith,
        tt,
        task_nodes-InOrder settings.max_graph_depth settings.validation_config snapshot lower
            task_type h,
      )
  where
    nothing : Knows [] (new_graph settings.max_graph_depth)
    nothing id = refl
