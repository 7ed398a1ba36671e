-- ===== src/Runtime/Loop/Breaker.antt =====
-- The circuit breaker of the run loop: what its counters can ever hold.
use cli_agent.Common.{
  ℕ, zero, suc, String, ◌≡◌, refl, sym, subst, ◌⊎◌, inl, inr, Bool, true, false, not, ◌&&◌, ◌||◌,
  Option, none, some, List, [], ◌∷◌, arith, ltb, Bool-cases, Option-cases, nat_eq, string_eq,
  length, All,
}
use cli_agent.Graph.{AgentNode, ExecutionGraph, add_node, all_terminal, pending_nodes}
use cli_agent.Runtime.{Selection, chosen, nothing, aborted, select_next_node, resolve_blocked_nodes}
use cli_agent.Runtime.Attempts.{
  Attempt, Execution, ok, err, execute_node_with_policy, execute_node_succeeded,
}
use cli_agent.Runtime.Loop.{
  Task, State, initial, start_node, Launch, launched, stopped, launch, launch_next, Callback,
  answer, broken, Joined, finished, panicked, Tick, Round, continues, ends, fails, after_join,
  after_launch, after_round, is_nil, skip_cancelled, take_task, drop_fallback, skip_superseded,
  add_dynamic, on_success, on_execution, release, join_next, idle, launches, round, run_rounds,
}

-- The task's outcome is one of `execute_node_with_policy`, or the task panicked.
abbrev pub IsExecuted : Joined → Type 0
IsExecuted (panicked e) = Unit
IsExecuted (finished x) =
    (run : ℕ → Attempt) × (node : AgentNode) × (x ≡ (execute_node_with_policy run node).result)

-- No failure has been counted.
abbrev Quiet : Round → Type 0
Quiet (continues s) = s.node_failures ≡ []
Quiet (ends s) = s.node_failures ≡ []
Quiet (fails e s) = Unit

abbrev QuietLaunch : Launch → Type 0
QuietLaunch (launched any_launched s) = s.node_failures ≡ []
QuietLaunch (stopped e s) = Unit

launch-Quiet :
    (cap turns : ℕ) (any_launched : Bool) (s : State)
    → s.node_failures ≡ []
    → QuietLaunch (launch cap turns any_launched s)
unfolding launch start_node
launch-Quiet cap zero any_launched s q = q
launch-Quiet cap (suc turns) any_launched s q = elim (Bool-cases (ltb (length s.in_flight) cap)) [
  | inr full ↦ rw full q
  | inl room ↦
      rw room
        (go (launch-Quiet cap turns true) (select_next_node s.in_flight s.running_by_role s.graph))
]
  where
    go :
        ((s' : State) → s'.node_failures ≡ [] → QuietLaunch (launch cap turns true s'))
        → (r : ExecutionGraph × Selection)
        → QuietLaunch
            (launch_next (λ node s'. launch cap turns true (start_node node s')) any_launched s r)
    go ih (g, chosen node) = ih (start_node node (record s { graph = g })) q
    go ih (g, nothing) = q
    go ih (g, aborted id dep st) = tt

add_dynamic-Quiet :
    (from : String) (nodes : List AgentNode) (s : State)
    → s.node_failures ≡ []
    → Quiet (add_dynamic from nodes s)
unfolding add_dynamic
add_dynamic-Quiet from [] s q = q
add_dynamic-Quiet from (node ∷ rest) s q = elim (Option-cases (add_node node s.graph).1) [
  | inl fine ↦ rw (fine, add_dynamic) (add_dynamic-Quiet from rest _ q)
  | inr (e, failed) ↦ rw (failed, add_dynamic) tt
]

skip_superseded-Quiet :
    (ids : List String) (s : State)
    → s.node_failures ≡ []
    → (skip_superseded ids s).node_failures ≡ []
unfolding skip_superseded
skip_superseded-Quiet [] s q = q
skip_superseded-Quiet (id ∷ rest) s q = skip_superseded-Quiet rest _ (ground (arith, q))

skip_cancelled-Quiet :
    (nodes : List AgentNode) (s : State)
    → s.node_failures ≡ []
    → (skip_cancelled nodes s).node_failures ≡ []
unfolding skip_cancelled
skip_cancelled-Quiet [] s q = q
skip_cancelled-Quiet (node ∷ rest) s q = skip_cancelled-Quiet rest _ q

drop_fallback-Quiet :
    (node : AgentNode) (s : State)
    → s.node_failures ≡ []
    → (drop_fallback node s).node_failures ≡ []
unfolding drop_fallback
drop_fallback-Quiet node s q = ground (arith, q)

-- An output that reaches the loop from `execute_node_with_policy` has succeeded, so the branch
-- that counts failures is not taken.
on_execution-Quiet :
    (node : AgentNode) (x : Execution) (callback : Callback) (s : State)
    → IsExecuted (finished x)
    → s.node_failures ≡ []
    → Quiet (on_execution node x callback s)
unfolding on_execution
on_execution-Quiet node (err e) callback s h q = q
on_execution-Quiet node (ok r) callback s (run, n, e) q =
    simp (execute_node_succeeded run n (sym e)) (answered callback)
  where
    answered : (c : Callback) → Quiet (on_success node r c s)
    answered (broken e') = tt
    answered (answer nodes ids) =
        add_dynamic-Quiet node.id nodes _
          (skip_superseded-Quiet ids _ (drop_fallback-Quiet node _ q))

join_next-Quiet :
    (tick : Tick) (s : State)
    → IsExecuted tick.joined
    → s.node_failures ≡ []
    → Quiet (join_next tick s)
unfolding join_next release
join_next-Quiet tick s h q = joined tick.joined (take_task tick.index s.tasks) h
  where
    joined :
        (j : Joined) (r : Option (Task × List Task))
        → IsExecuted j
        → Quiet (after_join tick.callback s j r)
    joined j none h = q
    joined (panicked e) (some (t, others)) h = tt
    joined (finished x) (some (t, others)) h =
        on_execution-Quiet t.node x tick.callback (release t.node others s) h q

idle-Quiet : (tick : Tick) (s : State) → s.node_failures ≡ [] → Quiet (idle tick s)
unfolding idle
idle-Quiet tick s q = elim (Bool-cases tick.cancel) [
  | inl cancel ↦ rw cancel (skip_cancelled-Quiet (pending_nodes s.graph) s q)
  | inr go ↦ elim (Bool-cases tick.pause) [
    | inl pause ↦ rw (go, pause) q
    | inr awake ↦ elim (Bool-cases (all_terminal s.graph)) [
      | inl over ↦ rw (go, awake, over) q
      | inr open' ↦ elim (Bool-cases (resolve_blocked_nodes s.graph).1) [
        | inl moved ↦ rw (go, awake, open', moved) q
        | inr stuck ↦ rw (go, awake, open', stuck) tt
      ]
    ]
  ]
]

round-Quiet :
    (cap : ℕ) (tick : Tick) (s : State)
    → IsExecuted tick.joined
    → s.node_failures ≡ []
    → Quiet (round cap tick s)
unfolding round
round-Quiet cap tick s h q =
    after (launches cap tick s) (launches-Quiet (Bool-cases (tick.cancel || tick.pause)))
  where
    launches-Quiet :
        ((tick.cancel || tick.pause) ≡ true) ⊎ ((tick.cancel || tick.pause) ≡ false)
        → QuietLaunch (launches cap tick s)
    launches-Quiet (inl off) = rw off q
    launches-Quiet (inr on) = rw on (launch-Quiet cap cap false s q)

    after : (l : Launch) → QuietLaunch l → Quiet (after_launch tick l)
    after (stopped e s') q' = tt
    after (launched any_launched s') q' =
        elim (Bool-cases (is_nil s'.in_flight && not any_launched)) [
          | inl none_runs ↦ rw none_runs (idle-Quiet tick s' q')
          | inr busy ↦ rw busy (join_next-Quiet tick s' h q')
        ]

run_rounds-Quiet :
    (cap : ℕ) (ticks : List Tick) (s : State)
    → All (λ tick. IsExecuted tick.joined) ticks
    → s.node_failures ≡ []
    → Quiet (run_rounds cap ticks s)
unfolding run_rounds
run_rounds-Quiet cap [] s h q = q
run_rounds-Quiet cap (tick ∷ ticks) s (h, more) q =
    after (round cap tick s) (round-Quiet cap tick s h q) (λ s'. run_rounds-Quiet cap ticks s' more)
  where
    after :
        (r : Round)
        → Quiet r
        → ((s' : State) → s'.node_failures ≡ [] → Quiet (run_rounds cap ticks s'))
        → Quiet (after_round (run_rounds cap ticks) r)
    after (continues s') q' ih = ih s' q'
    after (ends s') q' ih = q'
    after (fails e s') q' ih = tt

-- Where every finished task gives an outcome of `execute_node_with_policy`, as in the program, the
-- counters of the circuit breaker stay empty in every state that the loop reaches: the breaker
-- never opens, whatever the limits of the nodes and however often they fail.
pub circuit_breaker_never_counts :
    (cap : ℕ) (g : ExecutionGraph) (ticks : List Tick) (s : State)
    → All (λ tick. IsExecuted tick.joined) ticks
    → run_rounds cap ticks (initial g) ≡ continues s
    → s.node_failures ≡ []
unfolding initial
circuit_breaker_never_counts cap g ticks s h e =
    subst Quiet e (run_rounds-Quiet cap ticks (initial g) h refl)
