-- ===== src/Graph/Samples.antt =====
-- Graphs on which the theorems on the dependency graph and on the runtime are tried.
use cli_agent.Common.{string_eq, [], ◌∷◌}
use cli_agent.Common.Map
use cli_agent.Types.{planner, coder, reviewer}
use cli_agent.Graph.{AgentNode, ExecutionGraph, add_nodes, new_graph, new_node}
use cli_agent.Graph.Valid.{IsValid, new_graph-IsValid, add_nodes-IsValid}

abbrev pub plan : AgentNode
plan = new_node "plan" planner "make a plan"

abbrev pub code : AgentNode
code = record (new_node "code" coder "write the code") { dependencies = "plan" ∷ [] }

abbrev pub review : AgentNode
review = record (new_node "review" reviewer "read the code") { dependencies = "code" ∷ "plan" ∷ [] }

abbrev pub chain : ExecutionGraph
chain = (add_nodes (plan ∷ code ∷ []) (new_graph 4)).0

-- A graph that `add_node` never builds.
abbrev pub loop : ExecutionGraph
loop = record (new_graph 4) {
  nodes =
      Map.insert "plan" (record plan { dependencies = "code" ∷ [] }) (Map.insert "code" code []);
}

pub chain-IsValid : IsValid chain
chain-IsValid = add_nodes-IsValid (plan ∷ code ∷ []) (new_graph 4) (new_graph-IsValid 4)
