-- ===== src/Runtime/Loop/Fallback.antt =====
-- What becomes of a fallback that runs when another node that names it succeeds.
use cli_agent.Common.{
  String, ◌≡◌, refl, ap, ◌∙◌, inl, inr, true, false, some, if◌then◌else◌, List, [], ◌∷◌, ◌++◌,
  arith, ◌==◌, nat_eq, string_eq, ==_refl,
}
use cli_agent.Common.Map
use cli_agent.Common.Set
use cli_agent.Graph.{
  ExecutionGraph, NodeStatus, pending, running, succeeded, skipped, AgentNode, clear_forced_ready,
  is_forced_ready, is_fallback_only, status, set_status,
}
use cli_agent.Runtime.{NodeExecutionResult, chosen, select_next_node}
use cli_agent.Runtime.Attempts.{ok}
use cli_agent.Runtime.Loop.{
  State, Task, start_node, release, preview_event, answer, continues, on_execution, on_success,
  drop_fallback, skip_superseded, add_dynamic,
}
use cli_agent.Runtime.Loop.Ready.{select_next_node-chosen}

status-drop_fallback :
    (node : AgentNode) (target : String) (st : NodeStatus) (s : State)
    → node.policy.fallback_target ≡ some target
    → is_fallback_only target s.graph ≡ true
    → is_forced_ready target s.graph ≡ false
    → status target s.graph ≡ some st
    → status target (drop_fallback node s).graph ≡ some skipped
unfolding drop_fallback set_status
status-drop_fallback node target st s has reserved free known =
    rw (has, reserved, free)
      (ground (
        arith,
        Map.get-modify {V = NodeStatus} target target (λ _. skipped) s.graph.statuses,
        known,
        ==_refl target,
      ))

in_flight-drop_fallback :
    (node : AgentNode) (s : State) → (drop_fallback node s).in_flight ≡ s.in_flight
unfolding drop_fallback
in_flight-drop_fallback node s = ground arith

-- A node with a status has one behind `set_status`.
status-set_status :
    (id j : String) (st old : NodeStatus) (g : ExecutionGraph)
    → status j g ≡ some old
    → status j (set_status id st g) ≡ some (if id == j then st else old)
unfolding set_status
status-set_status id j st old g known =
    ground (arith, Map.get-modify {V = NodeStatus} id j (λ _. st) g.statuses, known)

module _ (fallback node : AgentNode) (r : NodeExecutionResult) (others : List Task)
    (g' : ExecutionGraph) (s : State) where
  -- The state in which the fallback has been started.
  abbrev pub started : State
  started = start_node fallback (record s { graph = g' })

  -- What the choice of the fallback leaves: a status, no mark, and its place among the fallbacks.
  chosen_left :
      select_next_node s.in_flight s.running_by_role s.graph ≡ (g', chosen fallback)
      → status fallback.id s.graph ≡ some pending
      → is_fallback_only fallback.id s.graph ≡ true
      → ((st : NodeStatus) × (status fallback.id g' ≡ some st))
        × (is_forced_ready fallback.id g' ≡ false)
        × (is_fallback_only fallback.id g' ≡ true)
  unfolding clear_forced_ready
  chosen_left picks was reserved =
      let (_, _, (g₁, f, _, e)) =
        select_next_node-chosen s.in_flight s.running_by_role s.graph g' fallback picks in
      (
        elim (f.only_skips fallback.id) [
          | inl same ↦ (pending, ap (status fallback.id) e ∙ same ∙ was)
          | inr now ↦ (skipped, ap (status fallback.id) e ∙ now)
        ],
        ap (is_forced_ready fallback.id) e
            ∙ Set.contains-remove fallback.id fallback.id g₁.forced_ready
            ∙ ground (arith, ==_refl fallback.id),
        ap (is_fallback_only fallback.id) e
            ∙ ap (Set.contains fallback.id) f.same_reserved
            ∙ reserved,
      )

  -- The state behind the node's success, before the answer of the callback.
  abbrev after_success : State
  after_success = drop_fallback node (record (release node others started) {
    graph = set_status node.id succeeded started.graph;
    outputs = Map.insert node.id r started.outputs;
    events = started.events ++ preview_event node r ∷ [];
  })

  on_execution-after_success :
      r.succeeded ≡ true
      → on_execution node (ok r) (answer [] []) (release node others started)
        ≡ continues after_success
  unfolding on_execution on_success skip_superseded add_dynamic release
  on_execution-after_success good = rw good refl

  after_success-status :
      node.policy.fallback_target ≡ some fallback.id
      → (st : NodeStatus) → status fallback.id started.graph ≡ some st
      → is_forced_ready fallback.id g' ≡ false
      → is_fallback_only fallback.id g' ≡ true
      → status fallback.id after_success.graph ≡ some skipped
  unfolding drop_fallback set_status start_node release
  after_success-status has st known free reserved =
      status-drop_fallback node fallback.id _ _ has reserved free
        (status-set_status node.id fallback.id succeeded st started.graph known)

  after_success-in_flight :
      (node.id == fallback.id) ≡ false → Set.contains fallback.id after_success.in_flight ≡ true
  unfolding drop_fallback start_node release
  after_success-in_flight other =
      ap (Set.contains fallback.id) (in_flight-drop_fallback node _)
      ∙ Set.contains-remove node.id fallback.id (Set.insert fallback.id s.in_flight)
      ∙ ground (
        arith,
        other,
        Set.contains-insert fallback.id fallback.id s.in_flight,
        ==_refl fallback.id,
      )

  -- A fallback can be marked as skipped while it runs. Where `select_next_node` chooses a pending
  -- node that is reserved as a fallback, it is started and its status is `Running`. When another
  -- node that names it as its fallback succeeds in the meantime, the run goes on with the status of
  -- the fallback at `Skipped`, though the fallback is still in flight.
  pub running_fallback_skipped :
      select_next_node s.in_flight s.running_by_role s.graph ≡ (g', chosen fallback)
      → status fallback.id s.graph ≡ some pending
      → is_fallback_only fallback.id s.graph ≡ true
      → node.policy.fallback_target ≡ some fallback.id
      → (node.id == fallback.id) ≡ false
      → r.succeeded ≡ true
      → (status fallback.id started.graph ≡ some running)
        × ((s' : State) × (on_execution node (ok r) (answer [] []) (release node others started)
              ≡ continues s')
            × (status fallback.id s'.graph ≡ some skipped)
            × (Set.contains fallback.id s'.in_flight ≡ true))
  unfolding start_node set_status
  running_fallback_skipped picks was reserved has other good =
      let ((st, known), free, reserved') = chosen_left picks was reserved in
      let runs : status fallback.id started.graph ≡ some running =
        status-set_status fallback.id fallback.id running st g' known
        ∙ ap (λ b. some (if b then running else st)) (==_refl fallback.id) in
      (
        runs,
        (
          after_success,
          on_execution-after_success good,
          after_success-status has running runs free reserved',
          after_success-in_flight other,
        ),
      )
