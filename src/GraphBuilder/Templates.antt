-- ===== src/GraphBuilder/Templates.antt =====
-- The graphs of workflow templates: `workflow_node_to_agent_node` and
-- `build_workflow_graph_from_template` of src/orchestrator/graph_builder.rs.
use cli_agent.Common.{
  String, string_eq, not, ◌&&◌, Option, none, some, List, [], ◌∷◌, if◌then◌else◌, ◌==◌,
}
use cli_agent.Types.{AgentRole, role_eq, validator, is_nil, WorkflowNodeTemplate}
use cli_agent.Graph
use cli_agent.Graph.{
  fail_fast, continue_on_error, fallback_node, ExecutionPolicy, AgentNode, new_node, ExecutionGraph,
  GraphError, new_graph, add_node,
}
use cli_agent.GraphBuilder.{Settings, add_graph_node}

-- How a workflow template fails.
pub data TemplateError : Type 0 where
  git_commands_misplaced : String → AgentRole → TemplateError
  not_added : GraphError → TemplateError

pub data Built (A : Type 0) : Type 0 where
  built : A → Built A
  refused : TemplateError → Built A

module _ {Policy : Type 0} (read_policy : Policy → Option ExecutionPolicy) where
  -- `read_policy` is `serde_json::from_value` on a value that is not null.
  unfoldable pub workflow_node_to_agent_node : WorkflowNodeTemplate Policy → Built AgentNode
  workflow_node_to_agent_node wn =
      if not (is_nil wn.git_commands) && not (wn.role == validator)
      then refused (git_commands_misplaced wn.id wn.role)
      else built (record (new_node wn.id wn.role wn.instructions) {
        dependencies = wn.dependencies;
        mcp_tools = wn.mcp_tools;
        git_commands = wn.git_commands;
        policy = elim (read_policy wn.policy) [
          | none ↦ Graph.default_policy
          | some policy ↦ policy
        ];
      })

  -- The loop over the nodes of a template.
  unfoldable pub add_template_nodes :
      Settings → List (WorkflowNodeTemplate Policy) → ExecutionGraph → Built ExecutionGraph
  unfolding workflow_node_to_agent_node add_graph_node
  add_template_nodes settings [] g = built g
  add_template_nodes settings (wn ∷ rest) g =
      let later = add_template_nodes settings rest in
      elim (workflow_node_to_agent_node wn) [
        | refused e ↦ refused e
        | built node ↦
            let (g', result) = add_graph_node settings node g in
            elim result [ some e ↦ refused (not_added e) | none ↦ later g' ]
      ]

  unfoldable pub build_workflow_graph_from_template :
      Settings → List (WorkflowNodeTemplate Policy) → Built ExecutionGraph
  unfolding add_template_nodes new_graph
  build_workflow_graph_from_template settings nodes =
      add_template_nodes settings nodes (new_graph settings.max_graph_depth)
