-- ===== src/Subtasks.antt =====
-- `validate_subtask_plan` of src/orchestrator/completion.rs: the checks of a plan that a planner made,
-- with the search for a cycle on a stack of its own. The hash maps are association lists.
pub mod Marks
pub mod Frames
pub mod Search
pub mod Starts
pub mod Ranked
pub mod Terminates
pub mod Accepts
mod Tests
use cli_agent.Common.{
  ℕ, zero, suc, ◌+◌, String, string_eq, Bool, true, false, not, ◌&&◌, ◌||◌, Option, none, some,
  List, [], ◌∷◌, map, filter, length, ltb, ◌==◌, nat_eq, if◌then◌else◌,
}
use cli_agent.Common.Map
use cli_agent.Common.Map.{Map}
use cli_agent.Common.Set
use cli_agent.Common.Texts.{trim, is_empty}
use cli_agent.Types.{SubtaskDefinition, SubtaskPlan}

-- The reasons of a rejection; the last is not the program's, and never occurs
-- (`Subtasks.Terminates.find_cycle_total`).
pub data PlanError : Type 0 where
  no_subtasks : PlanError
  too_many : ℕ → ℕ → PlanError
  blank_id : PlanError
  no_text duplicate_id blank_dependency : String → PlanError
  unknown_dependency : String → String → PlanError
  cycle_reaching : String → PlanError
  out_of_fuel : PlanError

abbrev pub is_blank : String → Bool
is_blank s = is_empty (trim s)

-- The first loop over the subtasks; `seen` holds the ids before.
unfoldable pub check_subtasks : List String → List SubtaskDefinition → Option PlanError
check_subtasks seen [] = none
check_subtasks seen (s ∷ rest) =
    if is_blank s.id
    then some blank_id
    else if is_blank s.instructions && is_blank s.description
    then some (no_text s.id)
    else if Set.contains s.id seen
    then some (duplicate_id s.id)
    else check_subtasks (s.id ∷ seen) rest

abbrev pub subtask_ids : List SubtaskDefinition → List String
subtask_ids subtasks = map (λ s. s.id) subtasks

module _ (static_node_ids known_subtasks : List String) where
  -- The loop over the dependencies of one subtask.
  unfoldable pub check_dependencies : String → List String → Option PlanError
  check_dependencies id [] = none
  check_dependencies id (dep ∷ deps) =
      if is_blank dep
      then some (blank_dependency id)
      else if not (Set.contains (trim dep) static_node_ids)
          && not (Set.contains (trim dep) known_subtasks)
      then some (unknown_dependency id (trim dep))
      else check_dependencies id deps

  unfoldable pub check_all_dependencies : List SubtaskDefinition → Option PlanError
  check_all_dependencies [] = none
  check_all_dependencies (s ∷ rest) =
      let later = check_all_dependencies rest in
      elim (check_dependencies s.id s.dependencies) [ some e ↦ some e | none ↦ later ]

-- The dependencies that are subtasks, without trimming.
abbrev pub inner_dependencies : List String → SubtaskDefinition → List String
inner_dependencies known s = filter (λ d. Set.contains d known) s.dependencies

-- `adj`
unfoldable pub adjacency : List String → List SubtaskDefinition → Map String (List String)
adjacency known [] = []
adjacency known (s ∷ rest) = (s.id, inner_dependencies known s) ∷ adjacency known rest

pub data Mark : Type 0 where
  pending visiting done : Mark

-- How the search from one start, or from all of them, ends.
pub data SearchEnd : Type 0 where
  finished : Map String Mark → SearchEnd
  cyclic : String → SearchEnd

-- `neighbours.get(idx)`
unfoldable pub nth : ℕ → List String → Option String
nth idx [] = none
nth zero (x ∷ xs) = some x
nth (suc idx) (x ∷ xs) = nth idx xs

module _ (adj : Map String (List String)) where
  abbrev pub neighbours : String → List String
  neighbours node = Map.get_or node [] adj

  -- The turns of the loop that the listed nodes take at most.
  unfoldable pub turns : List String → ℕ
  turns [] = 0
  turns (id ∷ ids) = suc (suc (length (neighbours id))) + turns ids

  -- The loop over the stack, its top first; a frame is a node and the index of its next neighbour.
  unfoldable pub search : ℕ → List (String × ℕ) → Map String Mark → Option SearchEnd
  search zero stack state = none
  search (suc fuel) [] state = some (finished state)
  search (suc fuel) ((node, idx) ∷ stack) state = elim (nth idx (neighbours node)) [
    | none ↦ search fuel stack (Map.insert node done state)
    | some next ↦ elim (Map.get_or next pending state) [
      | visiting ↦ some (cyclic next)
      | done ↦ search fuel ((node, suc idx) ∷ stack) state
      | pending ↦ search fuel ((next, 0) ∷ (node, suc idx) ∷ stack) (Map.insert next visiting state)
    ]
  ]

  -- What the loop over the starts does with the outcome of one of them.
  abbrev pub go_on : (Map String Mark → Option SearchEnd) → Option SearchEnd → Option SearchEnd
  go_on next none = none
  go_on next (some (cyclic id)) = some (cyclic id)
  go_on next (some (finished state)) = next state

  unfoldable pub search_all : ℕ → List String → Map String Mark → Option SearchEnd
  search_all fuel [] state = some (finished state)
  search_all fuel (start ∷ starts) state = elim (Map.get_or start pending state) [
    | pending ↦
        go_on (search_all fuel starts)
          (search fuel ((start, 0) ∷ []) (Map.insert start visiting state))
    | visiting ↦ search_all fuel starts state
    | done ↦ search_all fuel starts state
  ]

abbrev pub all_pending : List String → Map String Mark
all_pending ids = map (λ id. (id, pending)) ids

unfoldable pub find_cycle : Map String (List String) → Option SearchEnd
find_cycle adj =
    search_all adj (suc (turns adj (Map.keys adj))) (Map.keys adj) (all_pending (Map.keys adj))

abbrev pub verdict : Option SearchEnd → Option PlanError
verdict none = some out_of_fuel
verdict (some (cyclic id)) = some (cycle_reaching id)
verdict (some (finished state)) = none

-- The first error, or nothing where the plan is accepted.
unfoldable pub validate_subtask_plan : SubtaskPlan → List String → ℕ → Option PlanError
validate_subtask_plan plan static_node_ids max_subtasks =
    let ids = subtask_ids plan.subtasks in
    if length plan.subtasks == 0
    then some no_subtasks
    else if ltb max_subtasks (length plan.subtasks)
    then some (too_many (length plan.subtasks) max_subtasks)
    else elim (check_subtasks [] plan.subtasks) [
      | some e ↦ some e
      | none ↦ elim (check_all_dependencies static_node_ids ids plan.subtasks) [
        | some e ↦ some e
        | none ↦ verdict (find_cycle (adjacency ids plan.subtasks))
      ]
    ]
