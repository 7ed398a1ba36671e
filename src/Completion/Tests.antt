-- ===== src/Completion/Tests.antt =====
-- Runs of the callback, and the theorems at them.
use cli_agent.Completion.Verdict.{
  by_read, by_status, complete, incomplete, ambiguous, parse_reviewer_verdict,
}
use cli_agent.Completion.Justified.{Justifies, parse_reviewer_verdict-Justifies}
use cli_agent.Common.Texts.{is_empty}
use cli_agent.Common.Texts.{strip_prefix}
use cli_agent.Completion.Verdict.{
  by_read, by_status, complete, incomplete, ambiguous, parse_reviewer_verdict,
}
use cli_agent.Completion.Justified.{Justifies, parse_reviewer_verdict-Justifies}
use cli_agent.Common.Texts.{is_empty}
use cli_agent.Common.Show.{show}
use cli_agent.GraphBuilder.{normalize_node_policy_for_runtime}
use cli_agent.Common.Bytes.{read_digits}
use cli_agent.Common.Texts.{contains_text}
use cli_agent.Common.Texts.{after_last}
use cli_agent.Common.Texts.{parse_u8}
use cli_agent.Subtasks.{turns}
use cli_agent.Subtasks.{nth}
use cli_agent.Subtasks.{search}
use cli_agent.Subtasks.{adjacency}
use cli_agent.Subtasks.{search_all}
use cli_agent.Subtasks.{find_cycle}
use cli_agent.Subtasks.{check_dependencies}
use cli_agent.Subtasks.{check_all_dependencies}
use cli_agent.Common.Texts.{trim}
use cli_agent.Subtasks.{check_subtasks}
use cli_agent.Common.{
  ℕ, ◌⊎◌, ◌<◌, ◌+◌, String, string_eq, ◌≡◌, refl, Bool, true, false, Option, none, some, List, [],
  ◌∷◌, arith, length, ltb, map,
}
use cli_agent.Common.Map
use cli_agent.Common.Set
use cli_agent.Types.{
  ValidationConfig, planner, coder, reviewer, validator, AgentRole-discrete, SubtaskDefinition,
}
use cli_agent.Graph.{missing_dependency, AgentNode, new_node, new_graph}
use cli_agent.Graph.Valid.{new_graph-IsValid, extended}
use cli_agent.Graph.Ordered.{Knows, add_node-InOrder}
use cli_agent.Subtasks.{validate_subtask_plan}
use cli_agent.Completion.Json.{extract_json_object}
use cli_agent.Completion.Verdict.{
  by_read, by_status, complete, incomplete, ambiguous, parse_reviewer_verdict,
}
use cli_agent.Completion.Justified.{Justifies, parse_reviewer_verdict-Justifies}
use cli_agent.Common.Texts.{is_empty}
use cli_agent.Runtime.{NodeExecutionResult}
use cli_agent.Runtime.Attempts.{Execution}
use cli_agent.Runtime.Loop.Unasked.{succeeds, unasked}
use cli_agent.Runtime.Loop.{
  State, initial, continues, add_failed, Callback, on_execution, finished, Tick, run_rounds,
}
use cli_agent.GraphBuilder.{Settings}
use cli_agent.Completion.Rounds.{next_iteration, parse_fix_iteration-show, review_fixes_rounds}
use cli_agent.Common.Texts.{◌<>◌}
use cli_agent.Common.Show.{show}
use cli_agent.Completion.{
  review_fixes, Run, on_completed, plans, plan_of, parse_fix_iteration,
  max_dynamic_subtasks_per_plan,
}
use cli_agent.Completion.Adds.{Follows, on_completed-Follows}
use cli_agent.Completion.Plans.{Stands, Grows, InPlanOrder, answered, plan_added}
use cli_agent.Completion.Late.{FailsWith, late_dependency_fails}
use cli_agent.Completion.Failed.{failed_validator_adds_nothing}

abbrev config : ValidationConfig
config = record {
  lint_commands = "cargo check" ∷ [];
  build_commands = [];
  test_commands = [];
  max_fix_iterations = 3;
  lint_timeout_ms = 60000;
  test_timeout_ms = 120000;
  git_auto_commit = true;
}

abbrev settings : Settings
settings = record { max_graph_depth = 6; cli_timeout_ms = some 300000; validation_config = config }

abbrev subtask : String → List String → SubtaskDefinition
subtask id deps = record {
  id = id;
  description = "";
  agent_role = coder;
  dependencies = deps;
  mcp_tools = [];
  instructions = "do it";
}

abbrev run_with : List SubtaskDefinition → Run
run_with subtasks = record {
  settings = settings;
  run_id = "r1";
  task = "ship it";
  static_node_ids = "code" ∷ [];
  analysis_has_test = false;
  read_plan = λ json. some (record { subtasks = subtasks });
  resolve_persona = λ node. none;
}

abbrev in_order : List SubtaskDefinition
in_order = subtask "design" [] ∷ subtask "report" ("design" ∷ []) ∷ []

abbrev out_of_order : List SubtaskDefinition
out_of_order = subtask "report" ("design" ∷ []) ∷ subtask "design" [] ∷ []

abbrev result_of : AgentNode → Bool → String → NodeExecutionResult
result_of node succeeded output = record {
  node_id = node.id;
  role = node.role;
  model = "mock";
  output = output;
  duration_ms = 5;
  succeeded = succeeded;
  error = none;
  token_usage = none;
}

abbrev plan : AgentNode
plan = new_node "plan" planner "make a plan"

abbrev review : AgentNode
review = new_node "review" reviewer "read the code"

abbrev lint : AgentNode
lint = new_node "validate_lint" validator "lint"

-- A run in which the planner works.
abbrev begun : State
begun = initial (extended plan (new_graph 6))

nothing_known : Knows [] (new_graph 6)
unfolding new_graph Map.get Set.contains
nothing_known id = refl

begun-Stands : Stands 6 ("plan" ∷ []) begun.graph
unfolding initial new_graph Set.contains
begun-Stands =
    let (_, valid, knows) =
      add_node-InOrder plan (new_graph 6) [] (new_graph-IsValid 6) nothing_known refl (omega arith)
        tt in
    record { valid = valid; knows = knows; limit = refl }

abbrev review_result : NodeExecutionResult
review_result = result_of review true "REQUEST_CHANGES: no tests"

-- A plan may stand in a fence.
abbrev plan_result : NodeExecutionResult
plan_result = result_of plan true "Here is the plan:\n```json\n{\"subtasks\": []}\n```"

no_plan_of_reviewer : plans review review_result ≡ false
unfolding AgentRole-discrete
no_plan_of_reviewer = refl

plan_is_planned : plans plan plan_result ≡ true
unfolding AgentRole-discrete
plan_is_planned = refl

plan_is_read : extract_json_object plan_result.output ≡ some "{\"subtasks\": []}"
unfolding extract_json_object
plan_is_read = refl

planned_in_order :
    plan_of (run_with in_order) plan_result.output ≡ some (record { subtasks = in_order })
unfolding plan_of
planned_in_order = refl

planned_out_of_order :
    plan_of (run_with out_of_order) plan_result.output ≡ some (record { subtasks = out_of_order })
unfolding plan_of
planned_out_of_order = refl

in_order_accepted :
    validate_subtask_plan
      (record { subtasks = in_order })
      ("code" ∷ [])
      max_dynamic_subtasks_per_plan
    ≡ none
unfolding validate_subtask_plan check_subtasks trim Set.contains check_all_dependencies
    check_dependencies find_cycle search_all adjacency Map.get search nth turns Map.insert
in_order_accepted = refl

out_of_order_accepted :
    validate_subtask_plan
      (record { subtasks = out_of_order })
      ("code" ∷ [])
      max_dynamic_subtasks_per_plan
    ≡ none
unfolding validate_subtask_plan check_subtasks trim Set.contains check_all_dependencies
    check_dependencies find_cycle search_all adjacency Map.get search nth Map.insert turns
out_of_order_accepted = refl

fix_loop_left : ltb (parse_fix_iteration "validate_lint") 3 ≡ true
unfolding parse_fix_iteration parse_u8 after_last contains_text read_digits
fix_loop_left = refl

review_adds :
    map (λ n. n.id) (on_completed (run_with []) review review_result).0
    ≡ "fix_review_1" ∷ "re_review_1" ∷ []
unfolding on_completed AgentRole-discrete contains_text parse_u8 after_last read_digits
    normalize_node_policy_for_runtime show
review_adds = refl

in_order-InPlanOrder : InPlanOrder 6 "plan" ("plan" ∷ []) in_order
unfolding Set.contains
in_order-InPlanOrder = ground arith

absent_design : Set.contains {A = String} "design" ("plan" ∷ []) ≡ false
unfolding Set.contains
absent_design = refl

absent_report : Set.contains {A = String} "report" ("plan" ∷ []) ≡ false
unfolding Set.contains
absent_report = refl

on_completed-Follows_example :
    Follows 0 ("review" ∷ []) (on_completed (run_with []) review review_result).0
    × ((on_completed (run_with []) review review_result).1 ≡ [])
on_completed-Follows_example =
    on_completed-Follows (run_with []) review review_result (λ e. cc (e, no_plan_of_reviewer))

plan_added_example :
    Grows 6
      ("report" ∷ "design" ∷ "plan" ∷ [])
      (answered (run_with in_order) plan plan_result (record { subtasks = in_order }) begun)
plan_added_example =
    plan_added (run_with in_order) plan plan_result (record { subtasks = in_order }) 6 ("plan" ∷ [])
      begun plan_is_planned planned_in_order in_order_accepted begun-Stands (omega arith)
      in_order-InPlanOrder

late_dependency_fails_example :
    FailsWith
      (add_failed (missing_dependency "report" "design"))
      (answered (run_with out_of_order) plan plan_result (record { subtasks = out_of_order }) begun)
late_dependency_fails_example =
    late_dependency_fails (run_with out_of_order) plan plan_result
      (record { subtasks = out_of_order }) 6 ("plan" ∷ []) begun (subtask "report" ("design" ∷ []))
      (subtask "design" [] ∷ []) "design" [] plan_is_planned planned_out_of_order
      out_of_order_accepted begun-Stands (omega arith) refl refl absent_report refl absent_design

failed_validator_adds_nothing_example :
    (length (on_completed (run_with []) lint (result_of lint false "error: unused")).0 ≡ 2)
    × ((x : Execution) (callback : Callback) (s : State)
        → succeeds (finished x) ≡ false
        → (s' : State) × (on_execution lint x callback s ≡ continues s')
          × (s'.graph.nodes ≡ s.graph.nodes))
    × ((cap : ℕ) (ticks : List Tick) (s : State)
        → run_rounds cap (map unasked ticks) s ≡ run_rounds cap ticks s)
failed_validator_adds_nothing_example =
    failed_validator_adds_nothing (run_with []) lint (result_of lint false "error: unused") refl
      refl fix_loop_left

parse_fix_iteration-show_example : parse_fix_iteration ("validate_test" <> "_" <> show 2) ≡ 2
parse_fix_iteration-show_example = parse_fix_iteration-show "validate_test" 2 (omega arith)

review_fixes_rounds_example :
    (review_fixes review review_result ≡ [])
    ⊎ (next_iteration (review_fixes review review_result) ≡ some (parse_fix_iteration "review" + 1))
      × (parse_fix_iteration "review" < 3)
review_fixes_rounds_example = review_fixes_rounds review review_result

-- `to_lowercase` as the identity, and no text that is JSON: the verdict comes from the words.
abbrev same_text : String → String
same_text s = s

abbrev no_json : String → Option (String × Option String)
no_json content = none

abbrev says_failed : String → Option (String × Option String)
says_failed content = some ("failed", some "no tests")

no_more : parse_reviewer_verdict same_text no_json "INCOMPLETE: " ≡ incomplete "No reason provided"
unfolding parse_reviewer_verdict trim by_read strip_prefix
no_more = refl

from_json : parse_reviewer_verdict same_text says_failed "COMPLETE" ≡ incomplete "no tests"
unfolding parse_reviewer_verdict trim by_read by_status
from_json = refl

-- A text that starts with the letters of COMPLETE is taken for the verdict.
completely_missing : parse_reviewer_verdict same_text no_json "COMPLETELY missing" ≡ complete
unfolding parse_reviewer_verdict trim by_read strip_prefix
completely_missing = refl

parse_reviewer_verdict-Justifies_example :
    ((trim "the tests are missing" ≡ "")
      × (parse_reviewer_verdict same_text no_json "the tests are missing" ≡ ambiguous "<empty>"))
    ⊎ ((is_empty (trim "the tests are missing") ≡ false)
        × Justifies same_text no_json
            (trim "the tests are missing")
            (parse_reviewer_verdict same_text no_json "the tests are missing"))
parse_reviewer_verdict-Justifies_example =
    parse_reviewer_verdict-Justifies same_text no_json "the tests are missing"
