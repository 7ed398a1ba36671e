-- ===== src/Subtasks/Terminates.antt =====
-- The search for a cycle ends: each turn uses up an index of a frame or a pending node.
use cli_agent.Common.{
  ℕ, zero, suc, ◌+◌, ◌-◌, ◌≤◌, ◌<◌, String, string_eq, ◌≡◌, ◌≢◌, refl, sym, subst, true, false,
  Option, none, some, List, [], ◌∷◌, length, if◌then◌else◌, ◌==◌, eq_of_==, ==_refl, ==_comm, arith,
  inl, inr, Bool-cases, Option-cases,
}
use cli_agent.Common.Map
use cli_agent.Common.Map.{Map}
use cli_agent.Common.Set
use cli_agent.Types.{SubtaskDefinition, SubtaskPlan}
use cli_agent.Subtasks.Marks.{
  mark_of, is_unvisited, mark_of-insert, Mark-cases, nth-lt, contains-nth, IsClosed, keys-adjacency,
  adjacency-IsClosed,
}
use cli_agent.Subtasks.{
  check_subtasks, check_all_dependencies, validate_subtask_plan, verdict, check_dependencies,
  out_of_fuel, Mark, pending, visiting, done, SearchEnd, finished, cyclic, nth, neighbours, turns,
  search, go_on, search_all, all_pending, find_cycle, adjacency, subtask_ids,
}

module _ (adj : Map String (List String)) where
  abbrev degree : String → ℕ
  degree id = length (neighbours adj id)

  abbrev frames_left : List (String × ℕ) → ℕ
  frames_left [] = 0
  frames_left ((id, idx) ∷ stack) = suc (degree id - idx) + frames_left stack

  abbrev pending_left : List String → Map String Mark → ℕ
  pending_left [] state = 0
  pending_left (id ∷ ids) state =
      (if is_unvisited (mark_of id state) then suc (suc (degree id)) else 0)
      + pending_left ids state

  pending_left-le :
      (ids : List String) (state : Map String Mark) → pending_left ids state ≤ turns adj ids
  unfolding turns
  pending_left-le [] state = omega arith
  pending_left-le (id ∷ ids) state = ground (arith, pending_left-le ids state)

  -- A mark that is not pending leaves no more to do.
  pending_left-mark :
      (ids : List String) (id : String) (m : Mark) (state : Map String Mark)
      → is_unvisited m ≡ false
      → pending_left ids (Map.insert id m state) ≤ pending_left ids state
  pending_left-mark [] id m state h = omega arith
  pending_left-mark (x ∷ ids) id m state h =
      ground (arith, pending_left-mark ids id m state h, mark_of-insert id x m state, h)

  pending_left-drop :
      (ids : List String) (id : String) (m : Mark) (state : Map String Mark)
      → is_unvisited m ≡ false
      → mark_of id state ≡ pending
      → Set.contains id ids ≡ true
      → suc (suc (degree id)) + pending_left ids (Map.insert id m state) ≤ pending_left ids state
  unfolding Set.contains
  pending_left-drop [] id m state h p c = cc
  pending_left-drop (x ∷ ids) id m state h p c = elim (Bool-cases (id == x)) [
    | inl same ↦ ground (
      arith,
      h,
      p,
      mark_of-insert id x m state,
      eq_of_== id x same,
      ==_refl id,
      ==_refl x,
      pending_left-mark ids id m state h,
    )
    | inr other ↦ ground (
      arith,
      c,
      other,
      ==_comm id x,
      mark_of-insert id x m state,
      pending_left-drop ids id m state h p,
    )
  ]

  module _ (ids : List String) (closed : IsClosed adj ids) where
    -- The outcome is there, and leaves at most so much to do.
    abbrev Ends : ℕ → Option SearchEnd → Type 0
    Ends bound none = ⊥
    Ends bound (some (cyclic id)) = Unit
    Ends bound (some (finished state)) = pending_left ids state ≤ bound

    Ends-le : {m n : ℕ} (r : Option SearchEnd) → m ≤ n → Ends m r → Ends n r
    Ends-le none h e = e
    Ends-le (some (cyclic id)) h e = e
    Ends-le (some (finished state)) h e = omega arith

    search-Ends :
        (fuel : ℕ) (stack : List (String × ℕ)) (state : Map String Mark)
        → frames_left stack + pending_left ids state < fuel
        → Ends (pending_left ids state) (search adj fuel stack state)
    unfolding search
    search-Ends zero stack state h = absurd (omega arith)
    search-Ends (suc fuel) [] state h = omega arith
    search-Ends (suc fuel) ((node, idx) ∷ stack) state h =
        elim (Option-cases (nth idx (neighbours adj node))) [
          | inl e ↦
              rw (e, search)
                (Ends-le _ (pending_left-mark ids node done state refl) (
                  search-Ends fuel stack (Map.insert node done state)
                    (omega (arith, pending_left-mark ids node done state refl))))
          | inr (next, e) ↦
              rw (e, search)
                (elim (Mark-cases (mark_of next state)) [
                  | inl p ↦
                      rw (p, search)
                        (Ends-le _ (pending_left-mark ids next visiting state refl) (
                          search-Ends fuel ((next, 0) ∷ (node, suc idx) ∷ stack)
                            (Map.insert next visiting state)
                            (omega (
                              arith,
                              nth-lt idx (neighbours adj node) next e,
                              pending_left-drop ids next visiting state refl p
                                  (closed node next (contains-nth idx _ next e)),
                            ))))
                  | inr (inl v) ↦ rw (v, search) tt
                  | inr (inr d) ↦
                      rw (d, search)
                        (search-Ends fuel ((node, suc idx) ∷ stack) state
                          (omega (arith, nth-lt idx (neighbours adj node) next e)))
                ])
        ]

    go_on-Ends :
        (bound : ℕ) (next : Map String Mark → Option SearchEnd) (r : Option SearchEnd)
        → Ends bound r
        → ((state : Map String Mark) → pending_left ids state ≤ bound → next state ≢ none)
        → go_on adj next r ≢ none
    go_on-Ends bound next none e k = absurd e
    go_on-Ends bound next (some (cyclic id)) e k = cc
    go_on-Ends bound next (some (finished state)) e k = k state e

    search_all_total :
        (fuel : ℕ) (starts : List String) (state : Map String Mark)
        → ((x : String) → Set.contains x starts ≡ true → Set.contains x ids ≡ true)
        → pending_left ids state < fuel
        → search_all adj fuel starts state ≢ none
    unfolding search_all Set.contains
    search_all_total fuel [] state sub h = cc
    search_all_total fuel (start ∷ starts) state sub h =
        let next = search_all_total fuel starts in
        let sub' = λ (x : String) (c : Set.contains x starts ≡ true). sub x (ground (arith, c)) in
        let here = sub start (ground (arith, ==_refl start)) in
        elim (Mark-cases (mark_of start state)) [
          | inl p ↦
              rw (p, search_all)
                (go_on-Ends (pending_left ids state) (search_all adj fuel starts)
                  (search adj fuel ((start, 0) ∷ []) (Map.insert start visiting state))
                  (Ends-le _ (pending_left-mark ids start visiting state refl) (
                    search-Ends fuel ((start, 0) ∷ []) (Map.insert start visiting state)
                      (omega (arith, pending_left-drop ids start visiting state refl p here))))
                  (λ state' le. next state' sub' (omega arith)))
          | inr (inl v) ↦ rw (v, search_all) (next state sub' h)
          | inr (inr d) ↦ rw (d, search_all) (next state sub' h)
        ]

pub find_cycle_total :
    (adj : Map String (List String)) → IsClosed adj (Map.keys adj) → find_cycle adj ≢ none
unfolding find_cycle
find_cycle_total adj closed =
    search_all_total adj (Map.keys adj) closed (suc (turns adj (Map.keys adj))) (Map.keys adj)
      (all_pending (Map.keys adj)) (λ x c. c)
      (omega (arith, pending_left-le adj (Map.keys adj) (all_pending (Map.keys adj))))

pub find_cycle-adjacency_total :
    (subtasks : List SubtaskDefinition)
    → find_cycle (adjacency (subtask_ids subtasks) subtasks) ≢ none
find_cycle-adjacency_total subtasks = find_cycle_total _ (
    subst (λ ids. IsClosed (adjacency (subtask_ids subtasks) subtasks) ids)
      (sym (keys-adjacency (subtask_ids subtasks) subtasks)) (adjacency-IsClosed subtasks))

check_subtasks_total :
    (seen : List String) (subtasks : List SubtaskDefinition)
    → check_subtasks seen subtasks ≢ some out_of_fuel
unfolding check_subtasks
check_subtasks_total seen [] = cc
check_subtasks_total seen (s ∷ rest) = ground (arith, check_subtasks_total (s.id ∷ seen) rest)

module _ (static_node_ids : List String) where
  check_dependencies_total :
      (known : List String) (id : String) (deps : List String)
      → check_dependencies static_node_ids known id deps ≢ some out_of_fuel
  unfolding check_dependencies
  check_dependencies_total known id [] = cc
  check_dependencies_total known id (dep ∷ deps) =
      ground (arith, check_dependencies_total known id deps)

  check_all_dependencies_total :
      (known : List String) (subtasks : List SubtaskDefinition)
      → check_all_dependencies static_node_ids known subtasks ≢ some out_of_fuel
  unfolding check_all_dependencies
  check_all_dependencies_total known [] = cc
  check_all_dependencies_total known (s ∷ rest) = ground (
    arith,
    check_dependencies_total known s.id s.dependencies,
    check_all_dependencies_total known rest,
  )

verdict_total : (r : Option SearchEnd) → r ≢ none → verdict r ≢ some out_of_fuel
verdict_total none h = absurd (h refl)
verdict_total (some (cyclic id)) h = cc
verdict_total (some (finished state)) h = cc

-- The checks of every plan end with an acceptance or with one of the program's own reasons of a
-- rejection: the search for a cycle never runs out of the turns that it is given.
pub validate_subtask_plan_total :
    (plan : SubtaskPlan) (static_node_ids : List String) (max_subtasks : ℕ)
    → validate_subtask_plan plan static_node_ids max_subtasks ≢ some out_of_fuel
unfolding validate_subtask_plan
validate_subtask_plan_total plan static_node_ids max_subtasks = ground (
  arith,
  check_subtasks_total [] plan.subtasks,
  check_all_dependencies_total static_node_ids (subtask_ids plan.subtasks) plan.subtasks,
  verdict_total _ (find_cycle-adjacency_total plan.subtasks),
)
