-- ===== src/Completion/Plans.antt =====
-- An accepted plan and the run loop: its nodes are added where each subtask comes behind the ones
-- that it depends on, and the run ends with an error where the first one does not.
use cli_agent.Common.{
  ℕ, ◌≤◌, String, string_eq, ◌≡◌, refl, ap, ◌∙◌, inl, inr, true, false, not, ◌&&◌, Option, none,
  some, List, [], ◌∷◌, map, take-eq_self, nat_eq, Bool-cases, All,
}
use cli_agent.Common.Set
use cli_agent.Types.{SubtaskDefinition, SubtaskPlan}
use cli_agent.Graph.{
  NodeStatus, AgentNode, ExecutionGraph, set_status, skipped, succeeded, is_pending, status,
  is_fallback_only, is_forced_ready,
}
use cli_agent.Graph.Valid.{IsValid}
use cli_agent.Graph.Keeps.{set_status-IsValid}
use cli_agent.Graph.Ordered.{InOrder, grown, Knows, add_node-InOrder}
use cli_agent.Runtime.{NodeExecutionResult}
use cli_agent.Runtime.Loop.{
  State, Round, continues, ends, fails, answer, on_success, drop_fallback, drop_target,
  skip_superseded, add_dynamic,
}
use cli_agent.Subtasks.Accepts.{validate_subtask_plan-none}
use cli_agent.Subtasks.{validate_subtask_plan}
use cli_agent.GraphBuilder.{normalize_dynamic_nodes_for_runtime}
use cli_agent.GraphBuilder.Admits.{normalize-SamePlace}
use cli_agent.Completion.{
  Run, deeper, subtask_node, plans, plan_of, on_plan, on_completed, or_own,
  max_dynamic_subtasks_per_plan,
}

-- A well-formed graph of exactly the listed nodes.
pub record Stands (max_depth : ℕ) (known : List String) (g : ExecutionGraph) : Type 0 where
  pub valid : IsValid g
  pub knows : Knows known g
  pub limit : g.max_depth ≡ max_depth

module _ (max_depth : ℕ) where
  Stands-set_status :
      (known : List String) (id : String) (st : NodeStatus) (g : ExecutionGraph)
      → Stands max_depth known g
      → Stands max_depth known (set_status id st g)
  unfolding set_status
  Stands-set_status known id st g s = record {
    valid = set_status-IsValid id st g s.valid;
    knows = s.knows;
    limit = s.limit;
  }

  Stands-skip_superseded :
      (known ids : List String) (s : State)
      → Stands max_depth known s.graph
      → Stands max_depth known (skip_superseded ids s).graph
  unfolding skip_superseded
  Stands-skip_superseded known [] s h = h
  Stands-skip_superseded known (id ∷ rest) s h =
      elim (Bool-cases (is_pending (status id s.graph))) [
        | inl waits ↦
            rw (waits, skip_superseded)
              (Stands-skip_superseded known rest _ (Stands-set_status known id skipped s.graph h))
        | inr other ↦ rw (other, skip_superseded) (Stands-skip_superseded known rest s h)
      ]

  Stands-drop_target :
      (known : List String) (target : Option String) (s : State)
      → Stands max_depth known s.graph
      → Stands max_depth known (drop_target target s).graph
  Stands-drop_target known none s h = h
  Stands-drop_target known (some target) s h =
      elim (Bool-cases (is_fallback_only target s.graph && not (is_forced_ready target s.graph))) [
        | inl unused ↦ rw unused (Stands-set_status known target skipped s.graph h)
        | inr other ↦ rw other h
      ]

  -- The loop goes on, with exactly the listed nodes.
  abbrev pub Grows : List String → Round → Type 0
  Grows known (continues s) = Stands max_depth known s.graph
  Grows known (ends s) = ⊥
  Grows known (fails e s) = ⊥

  add_dynamic-Grows :
      (from : String) (known : List String) (nodes : List AgentNode) (s : State)
      → Stands max_depth known s.graph
      → InOrder max_depth known nodes
      → Grows (grown known nodes) (add_dynamic from nodes s)
  unfolding add_dynamic
  add_dynamic-Grows from known [] s h order = h
  add_dynamic-Grows from known (node ∷ rest) s h (new, shallow, deps, order) =
      let (e, valid, k) =
        add_node-InOrder node s.graph known h.valid h.knows new (rw (h.limit) shallow) deps in
      rw (ap (λ r. r.1) e, ap (λ r. r.0) e, add_dynamic)
        (add_dynamic-Grows from (node.id ∷ known) rest _
          (record { valid = valid; knows = k; limit = h.limit }) order)

  -- The subtasks come behind the ones that they depend on; the first ones follow the planner.
  abbrev pub InPlanOrder : String → List String → List SubtaskDefinition → Type 0
  InPlanOrder from known [] = Unit
  InPlanOrder from known (s ∷ rest) =
      (Set.contains s.id known ≡ false)
      × All (λ dep. Set.contains dep known ≡ true) (or_own from s.dependencies)
      × InPlanOrder from (s.id ∷ known) rest

-- The ids behind the addition of these.
abbrev pub behind : List String → List String → List String
behind known [] = known
behind known (id ∷ ids) = behind (id ∷ known) ids

module _ (run : Run) (node : AgentNode) where
  -- The nodes of a plan as the callback returns them.
  abbrev pub plan_nodes : List SubtaskDefinition → List AgentNode
  plan_nodes subtasks =
      normalize_dynamic_nodes_for_runtime run.settings (map (subtask_node run node) subtasks)

  grown-plan_nodes :
      (known : List String) (subtasks : List SubtaskDefinition)
      → grown known (plan_nodes subtasks) ≡ behind known (map (λ s. s.id) subtasks)
  unfolding subtask_node
  grown-plan_nodes known [] = refl
  grown-plan_nodes known (s ∷ rest) =
      let same = normalize-SamePlace run.settings (subtask_node run node s) in
      ap (λ id. grown (id ∷ known) (plan_nodes rest)) (same.same_id)
      ∙ grown-plan_nodes (s.id ∷ known) rest

  plan_nodes-InOrder :
      (max_depth : ℕ) (known : List String) (subtasks : List SubtaskDefinition)
      → deeper 1 node.depth ≤ max_depth
      → InPlanOrder max_depth node.id known subtasks
      → InOrder max_depth known (plan_nodes subtasks)
  unfolding subtask_node
  plan_nodes-InOrder max_depth known [] shallow order = tt
  plan_nodes-InOrder max_depth known (s ∷ rest) shallow (new, deps, order) =
      let same = normalize-SamePlace run.settings (subtask_node run node s) in
      (
        rw (same.same_id) new,
        rw (same.same_depth) shallow,
        rw (same.same_dependencies) deps,
        rw (same.same_id) (plan_nodes-InOrder max_depth (s.id ∷ known) rest shallow order),
      )

  on_plan-accepted :
      (plan : SubtaskPlan)
      → validate_subtask_plan plan run.static_node_ids max_dynamic_subtasks_per_plan ≡ none
      → on_plan run node plan ≡ (plan_nodes plan.subtasks, run.static_node_ids)
  unfolding on_plan
  on_plan-accepted plan accepted =
      let few =
        ((validate_subtask_plan-none plan run.static_node_ids max_dynamic_subtasks_per_plan).0
          accepted).1 in
      rw (accepted, on_plan, take-eq_self max_dynamic_subtasks_per_plan plan.subtasks few)

  module _ (result : NodeExecutionResult) (plan : SubtaskPlan) where
    on_completed-plan :
        plans node result ≡ true
        → plan_of run result.output ≡ some plan
        → on_completed run node result ≡ on_plan run node plan
    unfolding on_completed
    on_completed-plan planner_done read = rw (planner_done, read)

    -- The callback's answer to the plan in the run loop.
    abbrev pub answered : State → Round
    answered s =
        on_success node result
          (answer (on_completed run node result).0 (on_completed run node result).1) s

    -- What the loop does before it adds the nodes keeps the graph's nodes.
    taken_in :
        (max_depth : ℕ) (known : List String) (s : State) (nodes : List AgentNode)
        (ids : List String)
        → Stands max_depth known s.graph
        → (s' : State) × (on_success node result (answer nodes ids) s
            ≡ add_dynamic node.id nodes s')
          × Stands max_depth known s'.graph
    unfolding on_success drop_fallback
    taken_in max_depth known s nodes ids stands = (
      _,
      refl,
      Stands-skip_superseded max_depth known ids _ (
          Stands-drop_target max_depth known node.policy.fallback_target _
            (Stands-set_status max_depth known node.id succeeded s.graph stands)),
    )

    pub answered-Stands :
        (max_depth : ℕ) (known : List String) (s : State)
        → plans node result ≡ true
        → plan_of run result.output ≡ some plan
        → validate_subtask_plan plan run.static_node_ids max_dynamic_subtasks_per_plan ≡ none
        → Stands max_depth known s.graph
        → (s' : State) × (answered s ≡ add_dynamic node.id (plan_nodes plan.subtasks) s')
          × Stands max_depth known s'.graph
    answered-Stands max_depth known s planner_done read accepted stands =
        let taken = on_completed-plan planner_done read ∙ on_plan-accepted plan accepted in
        let (s', e, h) =
          taken_in max_depth known s (plan_nodes plan.subtasks) run.static_node_ids stands in
        (s', ap (λ r. on_success node result (answer r.0 r.1) s) taken ∙ e, h)

    -- A planner's plan that is accepted is taken in: if each subtask's id is new and each of its
    -- dependencies (the planner where it has none) is a node of the graph or a subtask before it, and
    -- one level below the planner is within the limit, the loop goes on, with a well-formed graph of
    -- exactly the nodes before and the subtasks.
    pub plan_added :
        (max_depth : ℕ) (known : List String) (s : State)
        → plans node result ≡ true
        → plan_of run result.output ≡ some plan
        → validate_subtask_plan plan run.static_node_ids max_dynamic_subtasks_per_plan ≡ none
        → Stands max_depth known s.graph
        → deeper 1 node.depth ≤ max_depth
        → InPlanOrder max_depth node.id known plan.subtasks
        → Grows max_depth (behind known (map (λ t. t.id) plan.subtasks)) (answered s)
    plan_added max_depth known s planner_done read accepted stands shallow order =
        let (s', e, stands') =
          answered-Stands max_depth known s planner_done read accepted stands in
        rw (e, ← grown-plan_nodes known plan.subtasks)
          (add_dynamic-Grows max_depth node.id known (plan_nodes plan.subtasks) s' stands'
            (plan_nodes-InOrder max_depth known plan.subtasks shallow order))
