-- ===== src/Graph/Tests.antt =====
-- The theorems on the dependency graph, on concrete graphs.
use cli_agent.Graph.{leave}
use cli_agent.Graph.{dfs}
use cli_agent.Common.{string_eq, ◌≡◌, refl, ◌⊎◌, true, false, some, none, [], ◌∷◌}
use cli_agent.Common.Map
use cli_agent.Common.Set
use cli_agent.Graph.{
  GraphError, self_dependency, missing_dependency, duplicate_id, add_node, add_nodes, has_cycle,
  new_graph,
}
use cli_agent.Graph.Samples.{plan, code, review, chain, loop, chain-IsValid}
use cli_agent.Graph.Cycle.{has_cycle_total, has_cycle_of_ranked}
use cli_agent.Graph.Valid.{
  IsValid, IsAdmissible, IsEarly, extended, new_graph-IsValid, add_node_cases, add_nodes-IsValid,
}

has_cycle-loop : has_cycle loop ≡ some true
unfolding has_cycle new_graph Map.insert dfs Set.contains leave Map.get Set.insert
has_cycle-loop = refl

has_cycle-chain : has_cycle chain ≡ some false
unfolding has_cycle add_nodes add_node new_graph Map.get Map.insert dfs Set.contains leave
    Set.insert Set.remove
has_cycle-chain = refl

add_node_self :
    (add_node (record plan { dependencies = "plan" ∷ [] }) (new_graph 4)).1
    ≡ some (self_dependency "plan")
unfolding add_node new_graph Map.get
add_node_self = refl

add_node_twice : (add_node plan chain).1 ≡ some (duplicate_id "plan")
unfolding add_nodes add_node new_graph Map.get has_cycle Map.insert dfs Set.contains leave
    Set.insert Set.remove
add_node_twice = refl

add_node_missing : (add_node review (new_graph 4)).1 ≡ some (missing_dependency "review" "code")
unfolding add_node new_graph Map.get
add_node_missing = refl

add_nodes-IsValid_example : IsValid (add_nodes (plan ∷ code ∷ plan ∷ []) (new_graph 4)).0
add_nodes-IsValid_example =
    add_nodes-IsValid (plan ∷ code ∷ plan ∷ []) (new_graph 4) (new_graph-IsValid 4)

add_node_cases_example :
    IsAdmissible review chain × (add_node review chain ≡ (extended review chain, none))
    ⊎ ((e : GraphError) × IsEarly e
        × (¬ IsAdmissible review chain)
        × (add_node review chain ≡ (chain, some e)))
add_node_cases_example = add_node_cases review chain chain-IsValid

has_cycle_total_example : ¬ (has_cycle loop ≡ none)
has_cycle_total_example = has_cycle_total loop

has_cycle_of_ranked_example : has_cycle chain ≡ some false
has_cycle_of_ranked_example = has_cycle_of_ranked chain-IsValid.rank chain chain-IsValid.ranked
