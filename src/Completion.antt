-- ===== src/Completion.antt =====
-- src/orchestrator/completion.rs: what the callback `on_completed` answers to the run loop. What it
-- writes to the memory, the harness and the log changes no answer and is left out. The parser of
-- plans (serde) and the resolution of personas are arguments, and the text of the run's id.
pub mod Json
pub mod Adds
pub mod Plans
pub mod Failed
pub mod Late
pub mod Rounds
pub mod Verdict
pub mod Justified
mod Tests
use cli_agent.Common.{
  ℕ, ◌+◌, ◌%◌, String, string_eq, Bool, true, false, not, ◌&&◌, ◌||◌, Option, none, some, List, [],
  ◌∷◌, ◌++◌, map, take, ltb, if◌then◌else◌, ◌==◌,
}
use cli_agent.Common.Texts.{
  trim, is_empty, starts_with, strip_prefix, contains_text, take_chars, count_words, after_last,
  parse_u8, ◌<>◌,
}
use cli_agent.Common.Show.{show}
use cli_agent.Types.{
  role_eq, planner, coder, summarizer, reviewer, validator, ValidationConfig, has_test,
  SubtaskDefinition, SubtaskPlan,
}
use cli_agent.Graph
use cli_agent.Graph.{fail_fast, continue_on_error, ExecutionPolicy, AgentNode, new_node}
use cli_agent.Runtime.{NodeExecutionResult}
use cli_agent.Subtasks.{validate_subtask_plan}
use cli_agent.GraphBuilder
use cli_agent.GraphBuilder.{Settings, node_with, normalize_dynamic_nodes_for_runtime}
use cli_agent.Completion.Json.{extract_json_object}

-- What the closure holds: the settings, the run and its task, the ids of the static nodes, whether
-- the analysis of the repository found test commands, and the two functions that are not here.
pub record Run : Type 0 where
  pub settings : Settings
  pub run_id : String
  pub task : String
  pub static_node_ids : List String
  pub analysis_has_test : Bool
  pub read_plan : String → Option SubtaskPlan
  pub resolve_persona : AgentNode → Option String

-- `depth + n` as a `u8` of the release profile.
abbrev pub deeper : ℕ → ℕ → ℕ
deeper n depth = (depth + n) % 256

-- `DYNAMIC_SUBTASK_MAX_PARALLELISM` and `MAX_DYNAMIC_SUBTASKS_PER_PLAN`
abbrev dynamic_subtask_max_parallelism : ℕ
dynamic_subtask_max_parallelism = 4

abbrev pub max_dynamic_subtasks_per_plan : ℕ
max_dynamic_subtasks_per_plan = 50

unfoldable pub parse_fix_iteration : String → ℕ
parse_fix_iteration node_id = elim (parse_u8 (after_last "_" node_id)) [ none ↦ 0 | some n ↦ n ]

-- The policies of the nodes that the callback adds.
abbrev policy_of : ℕ → ℕ → ℕ → ℕ → ExecutionPolicy
policy_of max_parallelism retry timeout_ms circuit_breaker = record {
  max_parallelism = max_parallelism;
  retry = retry;
  timeout_ms = timeout_ms;
  circuit_breaker = circuit_breaker;
  on_dependency_failure = continue_on_error;
  fallback_target = none;
}

-- `ExecutionPolicy { timeout_ms, retry, ..default }`
abbrev default_with : ℕ → ℕ → ExecutionPolicy
default_with timeout_ms retry = record (Graph.default_policy) {
  timeout_ms = timeout_ms;
  retry = retry;
}

unfoldable pub inject_git_and_summarize : ValidationConfig → AgentNode → String → List AgentNode
inject_git_and_summarize config completed run_id =
    let summarize = λ (last_dep : String) (depth : ℕ).
      node_with ("summarize_final_" <> run_id) summarizer
        "Summarize the code generation, validation, and commit results." (last_dep ∷ []) depth
        Graph.default_policy in
    if config.git_auto_commit
    then node_with "git_commit" validator "git" (completed.id ∷ []) (deeper 1 completed.depth)
        (default_with 60000 0)
      ∷ summarize "git_commit" (deeper 2 completed.depth)
      ∷ []
    else summarize completed.id (deeper 1 completed.depth) ∷ []

-- The node of a subtask.
abbrev or_own : String → List String → List String
or_own id [] = id ∷ []
or_own id (d ∷ deps) = d ∷ deps

abbrev bare_subtask_node : AgentNode → SubtaskDefinition → AgentNode
bare_subtask_node node subtask =
    record (node_with subtask.id subtask.agent_role
      (if is_empty subtask.instructions then subtask.description else subtask.instructions)
      (or_own node.id subtask.dependencies) (deeper 1 node.depth)
      (policy_of dynamic_subtask_max_parallelism 1 120000 3)) { mcp_tools = subtask.mcp_tools }

unfoldable pub subtask_node : Run → AgentNode → SubtaskDefinition → AgentNode
subtask_node run node subtask =
    let bare = bare_subtask_node node subtask in
    record bare { assigned_persona = run.resolve_persona bare }

-- `plan_result`
unfoldable pub plan_of : Run → String → Option SubtaskPlan
unfolding extract_json_object
plan_of run output =
    let extracted : Option SubtaskPlan = elim (extract_json_object output) [
      | none ↦ none
      | some json ↦ run.read_plan json
    ] in
    elim extracted [ some plan ↦ some plan | none ↦ run.read_plan output ]

-- The answer to a planner's plan: nothing where it is rejected, else its nodes, and the static nodes
-- to skip.
unfoldable pub on_plan : Run → AgentNode → SubtaskPlan → List AgentNode × List String
unfolding subtask_node
on_plan run node plan =
    elim (validate_subtask_plan plan run.static_node_ids max_dynamic_subtasks_per_plan) [
      | some reason ↦ ([], [])
      | none ↦ (
        normalize_dynamic_nodes_for_runtime run.settings
            (map (subtask_node run node) (take max_dynamic_subtasks_per_plan plan.subtasks)),
        run.static_node_ids,
      )
    ]

unfoldable pub checkpoint : Run → AgentNode → List AgentNode
checkpoint run node =
    if ltb 20 (count_words false run.task)
    then node_with ("dynamic_checkpoint_" <> run.run_id) summarizer
        "Create checkpoint summary to reduce context pressure." (node.id ∷ []) (deeper 1 node.depth)
        (policy_of 1 1 60000 2)
      ∷ []
    else []

-- The branch on a reviewer's REQUEST_CHANGES.
unfoldable pub review_fixes : AgentNode → NodeExecutionResult → List AgentNode
unfolding parse_fix_iteration
review_fixes node result =
    let iteration = parse_fix_iteration node.id in
    let fix_id = "fix_review_" <> show (iteration + 1) in
    if node.role == reviewer
      && result.succeeded
      && contains_text "REQUEST_CHANGES" result.output
      && ltb iteration 3
    then record (node_with fix_id coder
        ("The reviewer requested changes. Address the feedback below and push fixes.\n\n"
          <> take_chars 3000 result.output)
        (node.id ∷ []) (deeper 1 node.depth) (policy_of 1 1 180000 2)) {
          mcp_tools = "github/push_files" ∷ "github/get_file_contents" ∷ [];
        }
      ∷ record (node_with ("re_review_" <> show (iteration + 1)) reviewer
          "Review the updated code after fixes. Output APPROVE or REQUEST_CHANGES." (fix_id ∷ [])
          (deeper 2 node.depth) (policy_of 1 1 120000 2)) {
            mcp_tools = "github/pull_request_read" ∷ "github/pull_request_review_write" ∷ [];
          }
      ∷ []
    else []

abbrev phase_of : AgentNode → String
phase_of node = if contains_text "test" node.instructions then "test" else "lint"

abbrev error_of : Option String → String
error_of none = "unknown"
error_of (some e) = e

-- The branch on a validator that failed.
unfoldable pub validation_fixes :
    ValidationConfig → AgentNode → NodeExecutionResult → List AgentNode
unfolding parse_fix_iteration
validation_fixes config node result =
    let iteration = parse_fix_iteration node.id in
    let phase = phase_of node in
    let fix_id = "fix_" <> phase <> "_" <> show (iteration + 1) in
    if node.role == validator && not result.succeeded
    then (if ltb iteration config.max_fix_iterations
        then record (node_with fix_id coder
            ("The previous "
              <> phase
              <> " validation failed. Fix ONLY the reported errors below.\n\nERRORS:\n"
              <> take_chars 2000 result.output
              <> "\n\nDo not change unrelated code.")
            (node.id ∷ []) (deeper 1 node.depth) (default_with 180000 1)) {
              retry_context = some result.output;
            }
          ∷ node_with ("validate_" <> phase <> "_" <> show (iteration + 1)) validator phase
              (fix_id ∷ []) (deeper 2 node.depth)
              (default_with
                (if phase == "test" then config.test_timeout_ms else config.lint_timeout_ms) 0)
          ∷ []
        else node_with "summarize_failed" summarizer
            ("Validation failed after "
              <> show config.max_fix_iterations
              <> " fix attempts. Summarize the errors and partial results.\n\nLAST ERROR:\n"
              <> error_of result.error)
            (node.id ∷ []) (deeper 1 node.depth) Graph.default_policy
          ∷ [])
    else []

-- The node `validate_test` behind a lint.
abbrev test_id : AgentNode → String
test_id node =
    if node.id == "validate_lint"
    then "validate_test"
    else "validate_test_" <> show (parse_fix_iteration node.id)

-- The branch on a validator that succeeded. Where the source returns early in it, what follows is
-- for a reviewer and would add nothing.
unfoldable pub after_validation : Run → AgentNode → NodeExecutionResult → List AgentNode
unfolding inject_git_and_summarize parse_fix_iteration
after_validation run node result =
    let config = run.settings.validation_config in
    let is_test = contains_text "test" node.instructions in
    let is_lint =
      contains_text "lint" node.instructions
      || not is_test && not (contains_text "git" node.instructions) in
    let finish = inject_git_and_summarize config node run.run_id in
    if not (node.role == validator && result.succeeded)
    then []
    else if is_lint
    then (if contains_text "external" node.instructions
        then (if run.analysis_has_test
            then node_with "validate_test" validator "external_test" (node.id ∷ [])
                (deeper 1 node.depth)
                (record (GraphBuilder.default_policy) {
                  timeout_ms = config.test_timeout_ms;
                  retry = 0;
                })
              ∷ []
            else finish)
        else if has_test config
        then node_with (test_id node) validator "test" (node.id ∷ []) (deeper 1 node.depth)
            (default_with config.test_timeout_ms 0)
          ∷ []
        else finish)
    else if is_test
    then finish
    else []

-- `content.strip_prefix("INCOMPLETE:").unwrap_or(content).trim()`
abbrev reason_of : String → String
reason_of content = trim (elim (strip_prefix "INCOMPLETE:" content) [ none ↦ content | some r ↦ r ])

-- The branch on a reviewer's INCOMPLETE.
unfoldable pub replan : Run → AgentNode → NodeExecutionResult → List AgentNode
replan run node result =
    let content = trim result.output in
    if node.role == reviewer
      && result.succeeded
      && ltb node.depth 4
      && starts_with "INCOMPLETE" content
    then node_with ("replan_after_" <> node.id) planner
        ("Reviewer flagged the previous work as incomplete.\n\nREASON:\n"
          <> reason_of content
          <> "\n\nORIGINAL TASK:\n"
          <> run.task
          <> "\n\nCreate a JSON SubtaskPlan to address the remaining gap. Do not wrap the JSON in markdown fences.")
        (node.id ∷ []) (deeper 1 node.depth)
        (record (policy_of 1 1 120000 2) { on_dependency_failure = fail_fast })
      ∷ []
    else []

-- The branches behind the one on a planner.
unfoldable pub follow_ups : Run → AgentNode → NodeExecutionResult → List AgentNode
unfolding review_fixes validation_fixes after_validation replan
follow_ups run node result =
    review_fixes node result
    ++ validation_fixes run.settings.validation_config node result
    ++ after_validation run node result
    ++ replan run node result

-- Whether the branch on a planner is taken.
abbrev pub plans : AgentNode → NodeExecutionResult → Bool
plans node result = node.role == planner && result.succeeded && ltb node.depth 5

-- The callback: the nodes to add and the ids to skip.
unfoldable pub on_completed : Run → AgentNode → NodeExecutionResult → List AgentNode × List String
unfolding plan_of on_plan checkpoint follow_ups
on_completed run node result =
    let no_plan : List AgentNode × List String = (
      normalize_dynamic_nodes_for_runtime run.settings
          ((if plans node result then checkpoint run node else []) ++ follow_ups run node result),
      [],
    ) in
    if plans node result
    then elim (plan_of run result.output) [ some plan ↦ on_plan run node plan | none ↦ no_plan ]
    else no_plan
