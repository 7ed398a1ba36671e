-- ===== src/Runtime/Loop/GraphRule.antt =====
-- An invariant of the graph's operations is an invariant of the run loop; so every graph that the
-- loop reaches is well formed.
use cli_agent.Common.{
  ℕ, zero, suc, String, ◌≡◌, ◌⊎◌, inl, inr, Bool, true, false, not, ◌&&◌, ◌||◌, Option, none, some,
  List, [], ◌∷◌, ltb, if◌then◌else◌, Bool-cases, Option-cases, nat_eq, string_eq, length,
}
use cli_agent.Common.Set
use cli_agent.Common.Map.{Map}
use cli_agent.Types.{AgentRole}
use cli_agent.Graph.{
  is_pending, status, is_fallback_only, is_forced_ready, AgentNode, ExecutionGraph,
  DependencyFailurePolicy, fail_fast, continue_on_error, fallback_node, skipped, running, succeeded,
  failed, force_ready, set_status, add_node, all_terminal, pending_nodes,
  mark_dependents_pending_as_skipped,
}
use cli_agent.Graph.Valid.{IsValid}
use cli_agent.Graph.Keeps.{Invariant, IsValid-Invariant, mark_dependents_keeps}
use cli_agent.Runtime.{
  RuntimeEvent, DepResolution, ready, blocked, stop_fail_fast, use_fallback, is_runnable, Selection,
  chosen, nothing, aborted, select_next_node, select_from, force_fallback, role_is_full,
  after_resolution, unblock, is_stuck, resolve_each, resolve_blocked_nodes,
}
use cli_agent.Runtime.Attempts.{Execution, ok, err}
use cli_agent.Runtime.Loop.{
  Task, State, initial, start_node, Launch, launched, stopped, launch, launch_next, Callback,
  answer, broken, Joined, finished, panicked, Tick, Round, continues, ends, fails, after_join,
  after_launch, after_round, is_nil, skip_cancelled, drop_target, take_task, drop_fallback,
  skip_superseded, add_dynamic, on_success, force_target, on_execution, release, join_next, idle,
  launches, round, run_rounds,
}

module _ {P : ExecutionGraph → Type 0} (inv : Invariant P) where
  open inv use {on_set_status, on_force_ready, on_clear_forced_ready, on_add_node}

  force_fallback_keeps : (node : AgentNode) (g : ExecutionGraph) → P g → P (force_fallback node g)
  force_fallback_keeps node g p =
      elim node.policy.fallback_target
        as (λ t. P (elim t [ none ↦ g | some target ↦ force_ready target g ])) [
          | none ↦ p
          | some target ↦ on_force_ready target g p
        ]

  select_from_keeps :
      (in_flight : List String) (by_role : Map AgentRole ℕ) (nodes : List AgentNode)
      (g : ExecutionGraph)
      → P g
      → P (select_from in_flight by_role nodes g).0
  unfolding select_from
  select_from_keeps in_flight by_role [] g p = p
  select_from_keeps in_flight by_role (node ∷ rest) g p =
      elim (Bool-cases (Set.contains node.id in_flight || role_is_full in_flight by_role node)) [
        | inl taken ↦ rw taken (select_from_keeps in_flight by_role rest g p)
        | inr free ↦ rw free (
            go (is_runnable g node) (select_from_keeps in_flight by_role rest g p) (
              select_from_keeps in_flight by_role rest _
                (force_fallback_keeps node _ (on_set_status node.id skipped g p))))
      ]
    where
      go :
          (r : DepResolution)
          → P (select_from in_flight by_role rest g).0
          → P
              (select_from in_flight by_role rest
                (force_fallback node (set_status node.id skipped g))).0
          → P (after_resolution (select_from in_flight by_role rest) node g r).0
      go ready next skipping = on_clear_forced_ready node.id g p
      go blocked next skipping = next
      go (stop_fail_fast dep st) next skipping = on_set_status node.id skipped g p
      go (use_fallback dep st) next skipping = skipping

  resolve_each_keeps :
      (nodes : List AgentNode) (moved : Bool) (events : List RuntimeEvent) (g : ExecutionGraph)
      → P g
      → P (resolve_each nodes moved events g).0
  unfolding resolve_each
  resolve_each_keeps [] moved events g p = p
  resolve_each_keeps (node ∷ rest) moved events g p = elim (Bool-cases (is_stuck g node)) [
    | inr free ↦ rw free (resolve_each_keeps rest moved events g p)
    | inl stuck ↦
        rw stuck
          (resolve_each_keeps rest true _ _ (unblock_keeps node.policy.on_dependency_failure))
  ]
    where
      unblock_keeps : (d : DependencyFailurePolicy) → P (unblock node d g).0
      unblock_keeps continue_on_error = on_force_ready node.id g p
      unblock_keeps fail_fast = on_set_status node.id skipped g p
      unblock_keeps fallback_node = force_fallback_keeps node _ (on_set_status node.id skipped g p)

  -- The graph of the state with which a round goes on, ends or fails.
  abbrev Sound : Round → Type 0
  Sound (continues s) = P s.graph
  Sound (ends s) = P s.graph
  Sound (fails e s) = P s.graph

  abbrev SoundLaunch : Launch → Type 0
  SoundLaunch (launched any_launched s) = P s.graph
  SoundLaunch (stopped e s) = P s.graph

  launch_keeps :
      (cap turns : ℕ) (any_launched : Bool) (s : State)
      → P s.graph
      → SoundLaunch (launch cap turns any_launched s)
  unfolding launch select_next_node
  launch_keeps cap zero any_launched s p = p
  launch_keeps cap (suc turns) any_launched s p = elim (Bool-cases (ltb (length s.in_flight) cap)) [
    | inr full ↦ rw full p
    | inl room ↦ rw room (
        go (launch_keeps cap turns true) (select_next_node s.in_flight s.running_by_role s.graph)
          (select_from_keeps s.in_flight s.running_by_role _ s.graph p))
  ]
    where
      go :
          ((s' : State) → P s'.graph → SoundLaunch (launch cap turns true s'))
          → (r : ExecutionGraph × Selection) → P r.0
          → SoundLaunch
              (launch_next (λ node s'. launch cap turns true (start_node node s')) any_launched s r)
      go ih (g, chosen node) h =
          ih (start_node node (record s { graph = g })) (on_set_status node.id running g h)
      go ih (g, nothing) h = h
      go ih (g, aborted id dep st) h = h

  add_dynamic_keeps :
      (from : String) (nodes : List AgentNode) (s : State)
      → P s.graph
      → Sound (add_dynamic from nodes s)
  unfolding add_dynamic
  add_dynamic_keeps from [] s p = p
  add_dynamic_keeps from (node ∷ rest) s p = elim (Option-cases (add_node node s.graph).1) [
    | inl fine ↦ rw (fine, add_dynamic) (add_dynamic_keeps from rest _ (on_add_node node s.graph p))
    | inr (e, refused) ↦ rw (refused, add_dynamic) (on_add_node node s.graph p)
  ]

  skip_superseded_keeps :
      (ids : List String) (s : State) → P s.graph → P (skip_superseded ids s).graph
  unfolding skip_superseded
  skip_superseded_keeps [] s p = p
  skip_superseded_keeps (id ∷ rest) s p = elim (Bool-cases (is_pending (status id s.graph))) [
    | inl waits ↦
        rw (waits, skip_superseded)
          (skip_superseded_keeps rest _ (on_set_status id skipped s.graph p))
    | inr settled ↦ rw (settled, skip_superseded) (skip_superseded_keeps rest s p)
  ]

  skip_cancelled_keeps :
      (nodes : List AgentNode) (s : State) → P s.graph → P (skip_cancelled nodes s).graph
  unfolding skip_cancelled
  skip_cancelled_keeps [] s p = p
  skip_cancelled_keeps (node ∷ rest) s p =
      skip_cancelled_keeps rest _ (on_set_status node.id skipped s.graph p)

  drop_target_keeps :
      (target : Option String) (s : State) → P s.graph → P (drop_target target s).graph
  drop_target_keeps none s p = p
  drop_target_keeps (some target) s p =
      elim (Bool-cases (is_fallback_only target s.graph && not (is_forced_ready target s.graph))) [
        | inl drops ↦ rw drops (on_set_status target skipped s.graph p)
        | inr stays ↦ rw stays p
      ]

  drop_fallback_keeps : (node : AgentNode) (s : State) → P s.graph → P (drop_fallback node s).graph
  unfolding drop_fallback
  drop_fallback_keeps node s p = drop_target_keeps node.policy.fallback_target s p

  on_execution_keeps :
      (node : AgentNode) (x : Execution) (callback : Callback) (s : State)
      → P s.graph
      → Sound (on_execution node x callback s)
  unfolding on_execution
  on_execution_keeps node (err e) callback s p =
      force_fallback_keeps node _ (on_set_status node.id failed s.graph p)
  on_execution_keeps node (ok r) callback s p = elim (Bool-cases r.succeeded) [
    | inl done ↦ simp done (answered callback)
    | inr broke ↦ simp broke (breaker _)
  ]
    where
      answered : (c : Callback) → Sound (on_success node r c s)
      answered (broken e) = drop_fallback_keeps node _ (on_set_status node.id succeeded s.graph p)
      answered (answer nodes ids) = add_dynamic_keeps node.id nodes _ (
          skip_superseded_keeps ids _
            (drop_fallback_keeps node _ (on_set_status node.id succeeded s.graph p)))

      breaker :
          (b : Bool)
          → P (
              if b
              then mark_dependents_pending_as_skipped node.id
                  (force_target node (set_status node.id failed s.graph))
              else force_target node (set_status node.id failed s.graph))
      breaker true =
          mark_dependents_keeps inv node.id _
            (force_fallback_keeps node _ (on_set_status node.id failed s.graph p))
      breaker false = force_fallback_keeps node _ (on_set_status node.id failed s.graph p)

  join_next_keeps : (tick : Tick) (s : State) → P s.graph → Sound (join_next tick s)
  unfolding join_next release
  join_next_keeps tick s p = joined tick.joined (take_task tick.index s.tasks)
    where
      joined : (j : Joined) (r : Option (Task × List Task)) → Sound (after_join tick.callback s j r)
      joined j none = p
      joined (panicked e) (some (t, others)) = p
      joined (finished x) (some (t, others)) =
          on_execution_keeps t.node x tick.callback (release t.node others s) p

  idle_keeps : (tick : Tick) (s : State) → P s.graph → Sound (idle tick s)
  unfolding idle resolve_blocked_nodes
  idle_keeps tick s p = elim (Bool-cases tick.cancel) [
    | inl cancel ↦ rw cancel (skip_cancelled_keeps (pending_nodes s.graph) s p)
    | inr go ↦ elim (Bool-cases tick.pause) [
      | inl pause ↦ rw (go, pause) p
      | inr awake ↦ elim (Bool-cases (all_terminal s.graph)) [
        | inl over ↦ rw (go, awake, over) p
        | inr open' ↦
            let next = resolve_each_keeps (pending_nodes s.graph) false [] s.graph p in
            elim (Bool-cases (resolve_blocked_nodes s.graph).1) [
              | inl moved ↦ rw (go, awake, open', moved) next
              | inr stuck ↦ rw (go, awake, open', stuck) next
            ]
      ]
    ]
  ]

  round_keeps : (cap : ℕ) (tick : Tick) (s : State) → P s.graph → Sound (round cap tick s)
  unfolding round
  round_keeps cap tick s p =
      after (launches cap tick s) (launches_keep (Bool-cases (tick.cancel || tick.pause)))
    where
      launches_keep :
          ((tick.cancel || tick.pause) ≡ true) ⊎ ((tick.cancel || tick.pause) ≡ false)
          → SoundLaunch (launches cap tick s)
      launches_keep (inl off) = rw off p
      launches_keep (inr on) = rw on (launch_keeps cap cap false s p)

      after : (l : Launch) → SoundLaunch l → Sound (after_launch tick l)
      after (stopped e s') h = h
      after (launched any_launched s') h =
          elim (Bool-cases (is_nil s'.in_flight && not any_launched)) [
            | inl none_runs ↦ rw none_runs (idle_keeps tick s' h)
            | inr busy ↦ rw busy (join_next_keeps tick s' h)
          ]

  run_rounds_keeps :
      (cap : ℕ) (ticks : List Tick) (s : State) → P s.graph → Sound (run_rounds cap ticks s)
  unfolding run_rounds
  run_rounds_keeps cap [] s p = p
  run_rounds_keeps cap (tick ∷ ticks) s p =
      after (round cap tick s) (round_keeps cap tick s p) (run_rounds_keeps cap ticks)
    where
      after :
          (r : Round)
          → Sound r
          → ((s' : State) → P s'.graph → Sound (run_rounds cap ticks s'))
          → Sound (after_round (run_rounds cap ticks) r)
      after (continues s') h ih = ih s' h
      after (ends s') h ih = h
      after (fails e s') h ih = h

-- The graph of a running, ended or failed run.
abbrev pub final_graph : Round → ExecutionGraph
final_graph (continues s) = s.graph
final_graph (ends s) = s.graph
final_graph (fails e s) = s.graph

Sound→final_graph :
    {P : ExecutionGraph → Type 0} (inv : Invariant P) (r : Round) → Sound inv r → P (final_graph r)
Sound→final_graph inv (continues s) h = h
Sound→final_graph inv (ends s) h = h
Sound→final_graph inv (fails e s) h = h

-- A run that starts with a well-formed graph has a well-formed graph at every moment, also with
-- the nodes that were added while it ran, and also where it ends with an error: dependencies
-- exist, there is no cycle, and exactly the nodes have a status.
pub run_rounds-IsValid :
    (cap : ℕ) (ticks : List Tick) (g : ExecutionGraph)
    → IsValid g
    → IsValid (final_graph (run_rounds cap ticks (initial g)))
unfolding initial
run_rounds-IsValid cap ticks g valid =
    Sound→final_graph IsValid-Invariant (run_rounds cap ticks (initial g))
      (run_rounds_keeps IsValid-Invariant cap ticks (initial g) valid)
