-- ===== src/Subtasks/Tests.antt =====
-- Plans of the tests of src/orchestrator/completion.rs, and the theorems at them.
use cli_agent.Subtasks.{turns}
use cli_agent.Common.Map.{insert}
use cli_agent.Subtasks.{nth}
use cli_agent.Subtasks.{search}
use cli_agent.Common.Map.{get}
use cli_agent.Subtasks.{adjacency}
use cli_agent.Subtasks.{search_all}
use cli_agent.Subtasks.{find_cycle}
use cli_agent.Subtasks.{check_dependencies}
use cli_agent.Subtasks.{check_all_dependencies}
use cli_agent.Common.Set.{contains}
use cli_agent.Common.Texts.{trim}
use cli_agent.Subtasks.{check_subtasks}
use cli_agent.Common.{String, ◌≡◌, ◌≢◌, ◌↔◌, refl, none, some, List, [], ◌∷◌}
use cli_agent.Types.{coder, SubtaskDefinition, SubtaskPlan}
use cli_agent.Subtasks.{out_of_fuel, cycle_reaching, unknown_dependency, validate_subtask_plan}
use cli_agent.Subtasks.Terminates.{validate_subtask_plan_total}
use cli_agent.Subtasks.Accepts.{IsAcceptable, validate_subtask_plan-none}

abbrev subtask : String → List String → SubtaskDefinition
subtask id deps = record {
  id = id;
  description = "";
  agent_role = coder;
  dependencies = deps;
  mcp_tools = [];
  instructions = "do it";
}

-- The reports come before the design that they wait for.
abbrev ship : SubtaskPlan
ship = record { subtasks = subtask "report" ("design" ∷ "plan" ∷ []) ∷ subtask "design" [] ∷ [] }

abbrev circle : SubtaskPlan
circle = record { subtasks = subtask "a" ("b" ∷ []) ∷ subtask "b" ("a" ∷ []) ∷ [] }

-- The same circle, with blanks around one name.
abbrev padded : SubtaskPlan
padded = record { subtasks = subtask "a" (" b" ∷ []) ∷ subtask "b" ("a" ∷ []) ∷ [] }

ship_accepted : validate_subtask_plan ship ("plan" ∷ []) 50 ≡ none
unfolding validate_subtask_plan check_subtasks trim contains check_all_dependencies
    check_dependencies find_cycle search_all adjacency get search nth insert turns
ship_accepted = refl

ship_unknown : validate_subtask_plan ship [] 50 ≡ some (unknown_dependency "report" "plan")
unfolding validate_subtask_plan check_subtasks trim contains check_all_dependencies
    check_dependencies
ship_unknown = refl

circle_rejected : validate_subtask_plan circle [] 50 ≡ some (cycle_reaching "a")
unfolding validate_subtask_plan check_subtasks trim contains check_all_dependencies
    check_dependencies find_cycle search_all adjacency get search nth insert turns
circle_rejected = refl

-- The names are trimmed where they are looked up and not where the cycles are sought.
padded_accepted : validate_subtask_plan padded [] 50 ≡ none
unfolding validate_subtask_plan check_subtasks trim contains check_all_dependencies
    check_dependencies find_cycle search_all adjacency get search nth turns insert
padded_accepted = refl

validate_subtask_plan_total_example : validate_subtask_plan circle [] 50 ≢ some out_of_fuel
validate_subtask_plan_total_example = validate_subtask_plan_total circle [] 50

validate_subtask_plan-none_example :
    (validate_subtask_plan ship ("plan" ∷ []) 50 ≡ none) ↔ IsAcceptable ship ("plan" ∷ []) 50
validate_subtask_plan-none_example = validate_subtask_plan-none ship ("plan" ∷ []) 50
