-- ===== src/Runtime/Loop/Saturation.antt =====
-- The inner loop of a round launches all that it can.
use cli_agent.Common.{
  ℕ, zero, suc, ◌+◌, ◌≤◌, ◌≡◌, refl, ◌⊎◌, inl, inr, Bool, true, arith, ltb, Bool-cases, nat_eq,
  string_eq, length,
}
use cli_agent.Common.Set
use cli_agent.Graph.{ExecutionGraph}
use cli_agent.Runtime.{Selection, chosen, nothing, aborted, select_next_node}
use cli_agent.Runtime.Loop.{State, start_node, Launch, launched, stopped, launch, launch_next}
use cli_agent.Runtime.Loop.Ready.{select_next_node-chosen}

-- Nothing more can be launched: the limit is reached, or the last selection found no node.
abbrev pub Saturated : ℕ → Launch → Type 0
Saturated cap (stopped e s) = Unit
Saturated cap (launched any_launched s) =
    (cap ≤ length s.in_flight)
    ⊎ ((g : ExecutionGraph) × (select_next_node s.in_flight s.running_by_role g
          ≡ (s.graph, nothing)))

launch-Saturated :
    (cap turns : ℕ) (any_launched : Bool) (s : State)
    → cap ≤ turns + length s.in_flight
    → Saturated cap (launch cap turns any_launched s)
unfolding launch start_node
launch-Saturated cap zero any_launched s h = inl (omega arith)
launch-Saturated cap (suc turns) any_launched s h =
    elim (Bool-cases (ltb (length s.in_flight) cap)) [
      | inr full ↦ rw full (inl (ground (arith, full)))
      | inl room ↦ rw room (
          go (launch-Saturated cap turns true)
            (select_next_node s.in_flight s.running_by_role s.graph) refl)
    ]
  where
    go :
        ((s' : State)
          → cap ≤ turns + length s'.in_flight
          → Saturated cap (launch cap turns true s'))
        → (r : ExecutionGraph × Selection)
        → select_next_node s.in_flight s.running_by_role s.graph ≡ r
        → Saturated cap
            (launch_next (λ node s'. launch cap turns true (start_node node s')) any_launched s r)
    go ih (g, chosen node) e = ih (start_node node (record s { graph = g })) (
        omega (
          arith,
          Set.length-insert_new node.id s.in_flight
              (select_next_node-chosen s.in_flight s.running_by_role s.graph g node e).0,
        ))
    go ih (g, nothing) e = inr (s.graph, e)
    go ih (g, aborted id dep st) e = tt

-- As many turns as the limit are enough: when the launches of a round stop without an error, the
-- limit is reached, or the selection found no node that may start.
pub launch_saturates :
    (cap : ℕ) (any_launched : Bool) (s : State) → Saturated cap (launch cap cap any_launched s)
launch_saturates cap any_launched s = launch-Saturated cap cap any_launched s (omega arith)
