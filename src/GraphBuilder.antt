-- ===== src/GraphBuilder.antt =====
-- src/orchestrator/graph_builder.rs: the graph that a run starts with, the graphs of its recovery and
-- of a follow-up, and those of workflow templates. The session cache of task types is not modelled:
-- the type of the task is an argument (`Classifier.classify_task`).
pub mod Prompts
pub mod Templates
pub mod Admits
mod Tests
use cli_agent.Common.{
  ℕ, ◌+◌, ◌-◌, ◌^◌, min, max, String, string_eq, Bool, true, false, not, ◌&&◌, Option, none, some,
  List, [], ◌∷◌, ◌++◌, map, if◌then◌else◌, ◌==◌,
}
use cli_agent.Common.Texts.{contains_text, ◌<>◌}
use cli_agent.Common.Show.{show}
use cli_agent.Types.{
  AgentRole, role_eq, planner, extractor, coder, summarizer, fallback, tool_caller, analyzer,
  reviewer, scheduler, config_manager, validator, TaskType, simple_query, analysis, code_generation,
  configuration, config_query, tool_operation, external_project, interactive, complex,
  ValidationConfig, has_lint, is_nil, WorkflowNodeTemplate,
}
use cli_agent.Graph
use cli_agent.Graph.{
  fail_fast, continue_on_error, fallback_node, ExecutionPolicy, AgentNode, new_node, ExecutionGraph,
  GraphError, new_graph, add_node,
}

-- The fields of the orchestrator that the functions read: `max_graph_depth`, the time limit of
-- `router.cli_model_config()`, where one is set, and `validation_config`.
pub record Settings : Type 0 where
  pub max_graph_depth : ℕ
  pub cli_timeout_ms : Option ℕ
  pub validation_config : ValidationConfig

-- `u64::saturating_add`
abbrev pub saturating_add_u64 : ℕ → ℕ → ℕ
saturating_add_u64 a b = min (a + b) (2 ^ 64 - 1)

abbrev pub extra_ms : AgentRole → ℕ
extra_ms tool_caller = 120000
extra_ms coder = 120000
extra_ms validator = 0
extra_ms _ = 30000

abbrev raise_timeout : ℕ → AgentNode → AgentNode
raise_timeout minimum node = record node {
  policy = record (node.policy) { timeout_ms = max node.policy.timeout_ms minimum };
}

unfoldable pub normalize_node_policy_for_runtime : Settings → AgentNode → AgentNode
normalize_node_policy_for_runtime settings node =
    if node.role == validator then node else elim settings.cli_timeout_ms [
      | none ↦ node
      | some timeout_ms ↦ raise_timeout (saturating_add_u64 timeout_ms (extra_ms node.role)) node
    ]

abbrev pub normalize_dynamic_nodes_for_runtime : Settings → List AgentNode → List AgentNode
normalize_dynamic_nodes_for_runtime settings nodes =
    map (normalize_node_policy_for_runtime settings) nodes

unfoldable pub add_graph_node :
    Settings → AgentNode → ExecutionGraph → ExecutionGraph × Option GraphError
unfolding normalize_node_policy_for_runtime
add_graph_node settings node g = add_node (normalize_node_policy_for_runtime settings node) g

-- Nodes added one after the other, up to the first error.
unfoldable pub add_graph_nodes :
    Settings → List AgentNode → ExecutionGraph → Graph.Result ExecutionGraph
unfolding add_graph_node
add_graph_nodes settings [] g = Graph.ok g
add_graph_nodes settings (node ∷ rest) g =
    let (g', result) = add_graph_node settings node g in
    elim result [ some e ↦ Graph.err e | none ↦ add_graph_nodes settings rest g' ]

-- `Self::default_policy`
abbrev pub default_policy : ExecutionPolicy
default_policy = record {
  max_parallelism = 1;
  retry = 1;
  timeout_ms = 120000;
  circuit_breaker = 3;
  on_dependency_failure = continue_on_error;
  fallback_target = none;
}

abbrev plan_policy : ExecutionPolicy
plan_policy = record default_policy { timeout_ms = 120000; on_dependency_failure = fail_fast }

abbrev pub plan_node : String → AgentNode
plan_node instructions = record (new_node "plan" planner instructions) { policy = plan_policy }

-- The policy of the planners of a recovery and of a follow-up.
abbrev recovery_policy : ExecutionPolicy
recovery_policy = record {
  max_parallelism = 1;
  retry = 1;
  timeout_ms = 120000;
  circuit_breaker = 2;
  on_dependency_failure = fail_fast;
  fallback_target = none;
}

-- The policy of the node `code`.
abbrev code_policy : ℕ → ExecutionPolicy
code_policy timeout_ms = record {
  max_parallelism = 2;
  retry = 2;
  timeout_ms = timeout_ms;
  circuit_breaker = 2;
  on_dependency_failure = fail_fast;
  fallback_target = some "fallback_code";
}

abbrev lint_policy : ℕ → ExecutionPolicy
lint_policy timeout_ms = record default_policy {
  timeout_ms = timeout_ms;
  retry = 0;
  on_dependency_failure = fallback_node;
  fallback_target = some "fallback_code";
}

-- A new node whose fields the code then sets.
abbrev pub node_with : String → AgentRole → String → List String → ℕ → ExecutionPolicy → AgentNode
node_with id role instructions dependencies depth policy = record (new_node id role instructions) {
  dependencies = dependencies;
  depth = depth;
  policy = policy;
}

-- The arm `TaskType::ExternalProject`.
unfoldable pub external_nodes : List AgentNode
external_nodes =
    node_with "repo_analyze" analyzer "Clone and analyze the external repository." ("plan" ∷ []) 1
      (record default_policy { timeout_ms = 300000; retry = 1 })
    ∷ node_with "extract" extractor "Extract structured facts from the repo analysis and user task."
        ("repo_analyze" ∷ []) 2 (record default_policy { max_parallelism = 2 })
    ∷ node_with "context_probe" extractor
        "Probe repo map for high-value code areas to focus modification." ("repo_analyze" ∷ []) 2
        (record default_policy { max_parallelism = 2; timeout_ms = 60000 })
    ∷ node_with "code" coder "Modify the external repository code based on plan and repo context."
        ("extract" ∷ "context_probe" ∷ []) 3 (code_policy 300000)
    ∷ node_with "fallback_code" fallback "Recover from coding failures in external repo."
        ("code" ∷ []) 4 default_policy
    ∷ node_with "validate_lint" validator "external_lint" ("code" ∷ []) 4 (lint_policy 120000)
    ∷ []

-- The arm `TaskType::CodeGeneration | TaskType::Complex`; `lower` is `task.to_lowercase()`.
unfoldable pub code_nodes : ValidationConfig → String → List AgentNode
code_nodes config lower =
    (node_with "extract" extractor "Extract structured facts from user task and planner output."
        ("plan" ∷ []) 0 (record default_policy { max_parallelism = 2 })
      ∷ node_with "context_probe" extractor
          "Probe memory and context windows for high-value retrieval candidates." ("plan" ∷ []) 0
          (record default_policy { max_parallelism = 2; timeout_ms = 60000 })
      ∷ node_with "code" coder
          "Generate implementation-level output from extracted and contextualized plan."
          ("extract" ∷ "context_probe" ∷ []) 0 (code_policy 180000)
      ∷ node_with "fallback_code" fallback
          "Recover from coding node failures using robust conservative strategy." ("code" ∷ []) 0
          default_policy
      ∷ (if has_lint config
          then node_with "validate_lint" validator "lint" ("code" ∷ []) 0
              (lint_policy config.lint_timeout_ms)
          else node_with "summarize" summarizer
              "Summarize outcomes and produce checkpoint summary for context compaction."
              ("code" ∷ "fallback_code" ∷ []) 0 default_policy)
      ∷ [])
    ++ (if contains_text "webhook" lower
        then node_with "webhook_validation" extractor
            "Validate webhook contract and integration constraints." ("plan" ∷ []) 1
            (record default_policy { timeout_ms = 60000 })
          ∷ []
        else [])

-- The `match` on the type of the task; `snapshot` is `build_system_state_snapshot()`.
unfoldable pub task_nodes : ValidationConfig → String → String → TaskType → List AgentNode
unfolding external_nodes code_nodes
task_nodes config snapshot lower simple_query =
    node_with "summarize" summarizer "Summarize the planner output into a concise answer."
      ("plan" ∷ []) 0 default_policy
    ∷ []
task_nodes config snapshot lower analysis =
    node_with "extract" extractor "Extract structured facts from user task and planner output."
      ("plan" ∷ []) 0 default_policy
    ∷ node_with "analyze" analyzer "Analyze the extracted data, identify patterns and insights."
        ("extract" ∷ []) 0 (record default_policy { timeout_ms = 120000 })
    ∷ node_with "summarize" summarizer "Consolidate analysis results into a concise report."
        ("analyze" ∷ []) 0 default_policy
    ∷ []
task_nodes config snapshot lower config_query =
    node_with "summarize" summarizer
      ("Answer the user's question about system configuration using the information below.\n\nCURRENT SYSTEM STATE:\n"
        <> snapshot <> "\n\nProvide a clear, human-readable answer. Do not output raw JSON.")
      ("plan" ∷ []) 0 default_policy
    ∷ []
task_nodes config snapshot lower configuration =
    node_with "config_manage" config_manager
      ("Execute the configuration changes requested by the user.\n\nCURRENT SYSTEM STATE (before changes):\n"
        <> snapshot)
      ("plan" ∷ []) 0 (record default_policy { timeout_ms = 120000 })
    ∷ node_with "summarize" summarizer "Summarize the configuration changes made."
        ("config_manage" ∷ []) 0 default_policy
    ∷ []
task_nodes config snapshot lower tool_operation =
    node_with "tool_call" tool_caller "Execute MCP tool calls as planned." ("plan" ∷ []) 0
      (record default_policy { timeout_ms = 180000; retry = 2 })
    ∷ node_with "summarize" summarizer "Summarize tool execution results." ("tool_call" ∷ []) 0
        default_policy
    ∷ []
task_nodes config snapshot lower external_project = external_nodes
task_nodes config snapshot lower interactive =
    node_with "interactive" tool_caller "Execute interactive ReAct loop to complete the task."
      ("plan" ∷ []) 0 (record (Graph.default_policy) { timeout_ms = 600000; retry = 0 })
    ∷ node_with "summarize" summarizer "Summarize the interactive session results."
        ("interactive" ∷ []) 0 Graph.default_policy
    ∷ []
task_nodes config snapshot lower code_generation = code_nodes config lower
task_nodes config snapshot lower complex = code_nodes config lower

-- `build_graph` behind the classification; the instructions of the planner are those of
-- `GraphBuilder.Prompts.planner_instructions`.
unfoldable pub build_graph :
    Settings → String → String → String → TaskType → Graph.Result ExecutionGraph
unfolding add_graph_nodes task_nodes new_graph
build_graph settings instructions snapshot lower task_type =
    add_graph_nodes settings
      (plan_node instructions ∷ task_nodes settings.validation_config snapshot lower task_type)
      (new_graph settings.max_graph_depth)

-- The graphs of `build_failure_recovery_graph` and `build_completion_followup_graph`: one planner.
unfoldable pub build_failure_recovery_graph : Settings → String → ℕ → Graph.Result ExecutionGraph
unfolding add_graph_nodes new_graph
build_failure_recovery_graph settings instructions attempt =
    add_graph_nodes settings
      (node_with ("recovery_plan_" <> show attempt) planner instructions [] 0 recovery_policy ∷ [])
      (new_graph settings.max_graph_depth)

unfoldable pub build_completion_followup_graph : Settings → String → ℕ → Graph.Result ExecutionGraph
unfolding add_graph_nodes new_graph
build_completion_followup_graph settings instructions attempt =
    add_graph_nodes settings
      (node_with ("replan_plan_" <> show attempt) planner instructions [] 0 recovery_policy ∷ [])
      (new_graph settings.max_graph_depth)
