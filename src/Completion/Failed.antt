-- ===== src/Completion/Failed.antt =====
-- A validator that fails: what the callback would answer, and what the run loop does.
use cli_agent.Common.{
  ℕ, map, string_eq, ◌≡◌, refl, ap, ◌∙◌, true, false, List, [], ltb, ◌==◌, ◌++◌, length, length-map,
}
use mathlib.Core.List.{append-nil}
use cli_agent.Types.{AgentRole-discrete, role_eq, validator, planner, reviewer}
use cli_agent.Graph.{AgentNode}
use cli_agent.Runtime.{NodeExecutionResult}
use cli_agent.Runtime.Attempts.{Execution}
use cli_agent.Runtime.Loop.{State, Callback, continues, on_execution, finished, Tick, run_rounds}
use cli_agent.Runtime.Loop.Unasked.{succeeds, unasked, on_execution-failed, run_rounds-unasked}
use cli_agent.GraphBuilder.{normalize_node_policy_for_runtime, normalize_dynamic_nodes_for_runtime}
use cli_agent.Completion.{
  Run, parse_fix_iteration, review_fixes, validation_fixes, after_validation, replan, follow_ups,
  on_completed,
}

not_reviewer : (validator == reviewer) ≡ false
unfolding AgentRole-discrete
not_reviewer = refl

not_planner : (validator == planner) ≡ false
unfolding AgentRole-discrete
not_planner = refl

is_validator : (validator == validator) ≡ true
unfolding AgentRole-discrete
is_validator = refl

module _ (run : Run) (node : AgentNode) (result : NodeExecutionResult)
    (role : node.role ≡ validator) (bad : result.succeeded ≡ false) where
  review_fixes-nil : review_fixes node result ≡ []
  unfolding review_fixes
  review_fixes-nil = rw (ap (λ r. r == reviewer) role ∙ not_reviewer)

  after_validation-nil : after_validation run node result ≡ []
  unfolding after_validation
  after_validation-nil = rw (role, is_validator, bad)

  replan-nil : replan run node result ≡ []
  unfolding replan
  replan-nil = rw (ap (λ r. r == reviewer) role ∙ not_reviewer)

  -- Only the branch for a failed validator adds anything.
  follow_ups-failed :
      follow_ups run node result ≡ validation_fixes run.settings.validation_config node result
  unfolding follow_ups
  follow_ups-failed =
      let fixes = validation_fixes run.settings.validation_config node result in
      ap (λ xs. xs ++ fixes ++ after_validation run node result ++ replan run node result)
        review_fixes-nil
      ∙ ap (λ xs. fixes ++ xs ++ replan run node result) after_validation-nil
      ∙ ap (λ xs. fixes ++ [] ++ xs) replan-nil
      ∙ append-nil (fixes ++ [])
      ∙ append-nil fixes

  validation_fixes-length :
      ltb (parse_fix_iteration node.id) run.settings.validation_config.max_fix_iterations ≡ true
      → length (validation_fixes run.settings.validation_config node result) ≡ 2
  unfolding validation_fixes
  validation_fixes-length left = rw (ap (λ r. r == validator) role ∙ is_validator, bad, left)

  on_completed-failed :
      (on_completed run node result).0
      ≡ normalize_dynamic_nodes_for_runtime run.settings (follow_ups run node result)
  unfolding on_completed
  on_completed-failed = rw (ap (λ r. r == planner) role ∙ not_planner)

-- The fix loop for validators never runs. For a validator that fails, with attempts left by the
-- number in its id, the callback answers with two nodes. But a failed execution, an output that has
-- not succeeded or an error, leaves the nodes of the graph as they are whatever the callback answers,
-- and a whole run goes the same way when each answer behind a task that has not succeeded is
-- replaced by one without nodes.
pub failed_validator_adds_nothing :
    (run : Run) (node : AgentNode) (result : NodeExecutionResult)
    → node.role ≡ validator
    → result.succeeded ≡ false
    → ltb (parse_fix_iteration node.id) run.settings.validation_config.max_fix_iterations ≡ true
    → (length (on_completed run node result).0 ≡ 2)
      × ((x : Execution) (callback : Callback) (s : State)
          → succeeds (finished x) ≡ false
          → (s' : State) × (on_execution node x callback s ≡ continues s')
            × (s'.graph.nodes ≡ s.graph.nodes))
      × ((cap : ℕ) (ticks : List Tick) (s : State)
          → run_rounds cap (map unasked ticks) s ≡ run_rounds cap ticks s)
failed_validator_adds_nothing run node result role bad left = (
  ap length (on_completed-failed run node result role bad)
      ∙ length-map (normalize_node_policy_for_runtime run.settings) (follow_ups run node result)
      ∙ ap length (follow_ups-failed run node result role bad)
      ∙ validation_fixes-length run node result role bad left,
  on_execution-failed node,
  run_rounds-unasked,
)
