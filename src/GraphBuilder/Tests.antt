-- ===== src/GraphBuilder/Tests.antt =====
-- The theorems on the graph builder at concrete inputs.
use cli_agent.Common.Texts.{drop_chars}
use cli_agent.Common.Texts.{take_chars}
use cli_agent.Common.Set
use cli_agent.Common.Map
use cli_agent.Types.{AgentRole-discrete}
use cli_agent.Common.Texts.{contains_text}
use cli_agent.Common.{◌⊎◌, ◌<◌, ◌/◌, String, ◌≤◌, ◌+◌, ◌≡◌, refl, some, [], ◌∷◌, arith, false, map}
use cli_agent.Common.Texts.{trim, count_chars, ◌<>◌}
use cli_agent.Types.{ValidationConfig, code_generation, external_project}
use cli_agent.Graph
use cli_agent.GraphBuilder.{Settings, build_graph, task_nodes}
use cli_agent.GraphBuilder.Admits.{IsBuilt, build_graph-IsBuilt}
use cli_agent.GraphBuilder.Prompts.{trim_for_context, trim_for_context_parts}

abbrev config : ValidationConfig
config = record {
  lint_commands = "cargo clippy" ∷ [];
  build_commands = [];
  test_commands = [];
  max_fix_iterations = 3;
  lint_timeout_ms = 60000;
  test_timeout_ms = 120000;
  git_auto_commit = false;
}

abbrev settings : Settings
settings = record { max_graph_depth = 6; cli_timeout_ms = some 300000; validation_config = config }

code_ids :
    map (λ n. n.id) (task_nodes config "" "add a webhook" code_generation)
    ≡ "extract" ∷ "context_probe" ∷ "code" ∷ "fallback_code" ∷ "validate_lint"
      ∷ "webhook_validation" ∷ []
unfolding task_nodes contains_text
code_ids = refl

-- A limit of three is too low for an external project.
too_low :
    build_graph (record settings { max_graph_depth = 3 }) "Plan." "" "" external_project
    ≡ Graph.err (Graph.depth_exceeded "fallback_code" 4 3)
unfolding build_graph Graph.add_node Map.get AgentRole-discrete Graph.has_cycle Map.insert Graph.dfs
    Set.contains Graph.leave Set.insert Set.remove
too_low = refl

trimmed : trim_for_context "  one two three " 6 ≡ "one\n... [trimmed] ...\nree"
unfolding trim_for_context count_chars trim take_chars drop_chars
trimmed = refl

-- With the mark it is longer than the limit.
trimmed_length : count_chars (trim_for_context "  one two three " 6) ≡ 6 + 19
unfolding trim_for_context count_chars trim take_chars drop_chars
trimmed_length = refl

build_graph-IsBuilt_example :
    IsBuilt 6
      ("validate_lint" ∷ "fallback_code" ∷ "code" ∷ "context_probe" ∷ "extract" ∷ "repo_analyze"
        ∷ "plan" ∷ [])
      (build_graph settings "Plan." "" "" external_project)
unfolding task_nodes
build_graph-IsBuilt_example =
    build_graph-IsBuilt settings "Plan." "" "" external_project (omega arith)

trim_for_context_parts_example :
    (count_chars (trim "  one two three ") ≤ 6
      × (trim_for_context "  one two three " 6 ≡ trim "  one two three "))
    ⊎ ((6 < count_chars (trim "  one two three "))
        × ((head middle tail : String) × (trim "  one two three " ≡ head <> middle <> tail)
            × (trim_for_context "  one two three " 6 ≡ head <> "\n... [trimmed] ...\n" <> tail)
            × (count_chars head ≡ 6 / 2)
            × (count_chars head + count_chars tail ≡ 6)))
trim_for_context_parts_example = trim_for_context_parts "  one two three " 6
