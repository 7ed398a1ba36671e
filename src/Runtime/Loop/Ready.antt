-- ===== src/Runtime/Loop/Ready.antt =====
-- Which nodes `select_next_node` may choose.
use cli_agent.Common.{
  filter, ℕ, String, ◌≡◌, refl, subst, ◌↔◌, ◌⊎◌, inl, inr, true, false, ◌||◌, none, some, List, [],
  ◌∷◌, arith, Bool-cases, nat_eq, string_eq, all, All, Option,
}
use cli_agent.Common.Map
use cli_agent.Common.Map.{Map}
use cli_agent.Common.Set
use cli_agent.Types.{AgentRole}
use cli_agent.Common.Sort.{sort_by-All}
use cli_agent.Runtime.Loop.Replaced.{Follows, Follows-refl, Follows-use_fallback}
use cli_agent.Graph.{
  status, NodeStatus, pending, running, succeeded, failed, skipped, DependencyFailurePolicy,
  fail_fast, continue_on_error, fallback_node, AgentNode, ExecutionGraph, is_forced_ready,
  is_pending, pending_nodes, is_fallback_only, clear_forced_ready, dependencies, set_status,
}
use cli_agent.Runtime.{
  DepResolution, ready, blocked, stop_fail_fast, use_fallback, resolve, is_runnable, Selection,
  chosen, nothing, aborted, role_is_full, after_resolution, select_from, select_next_node,
  force_fallback, by_id,
}

-- A dependency in this state does not hold a node of this policy back.
abbrev pub Allows : DependencyFailurePolicy → NodeStatus → Type 0
Allows policy pending = ⊥
Allows policy running = ⊥
Allows policy succeeded = Unit
Allows policy failed = policy ≡ continue_on_error
Allows policy skipped = policy ≡ continue_on_error

resolve-ready_iff :
    (policy : DependencyFailurePolicy) (deps : List (String × NodeStatus))
    → (resolve policy deps ≡ ready) ↔ All (λ d. Allows policy d.1) deps
unfolding resolve
resolve-ready_iff policy [] = (λ _. tt, λ _. refl)
resolve-ready_iff policy ((dep, pending) ∷ deps) = (λ e. cc, λ h. absurd h.0)
resolve-ready_iff policy ((dep, running) ∷ deps) = (λ e. cc, λ h. absurd h.0)
resolve-ready_iff policy ((dep, succeeded) ∷ deps) =
    (λ e. (tt, (resolve-ready_iff policy deps).0 e), λ h. (resolve-ready_iff policy deps).1 h.1)
resolve-ready_iff continue_on_error ((dep, failed) ∷ deps) = (
  λ e. (refl, (resolve-ready_iff continue_on_error deps).0 e),
  λ h. (resolve-ready_iff continue_on_error deps).1 h.1,
)
resolve-ready_iff fail_fast ((dep, failed) ∷ deps) = (λ e. cc, λ h. cc (h.0))
resolve-ready_iff fallback_node ((dep, failed) ∷ deps) = (λ e. cc, λ h. cc (h.0))
resolve-ready_iff continue_on_error ((dep, skipped) ∷ deps) = (
  λ e. (refl, (resolve-ready_iff continue_on_error deps).0 e),
  λ h. (resolve-ready_iff continue_on_error deps).1 h.1,
)
resolve-ready_iff fail_fast ((dep, skipped) ∷ deps) = (λ e. cc, λ h. cc (h.0))
resolve-ready_iff fallback_node ((dep, skipped) ∷ deps) = (λ e. cc, λ h. cc (h.0))

-- What `is_runnable` asks of a node: it was forced, or it is no mere fallback and each of its
-- dependencies has succeeded, or has failed or was skipped where the node goes on after errors.
abbrev pub MayRun : ExecutionGraph → AgentNode → Type 0
MayRun g node =
    (is_forced_ready node.id g ≡ true)
    ⊎ ((is_fallback_only node.id g ≡ false)
        × All (λ d. Allows node.policy.on_dependency_failure d.1) (dependencies g node))

-- `is_runnable` answers `Ready` for exactly the nodes that were forced, and those that are not
-- reserved as a fallback and whose dependencies all allow them to run.
pub is_runnable-ready_iff :
    (g : ExecutionGraph) (node : AgentNode) → (is_runnable g node ≡ ready) ↔ MayRun g node
unfolding is_runnable
is_runnable-ready_iff g node =
    let deps = resolve-ready_iff node.policy.on_dependency_failure (dependencies g node) in
    elim (Bool-cases (is_forced_ready node.id g)) [
      | inl forced ↦ (λ _. inl forced, λ _. ground (arith, forced))
      | inr free ↦ elim (Bool-cases (is_fallback_only node.id g)) [
        | inl reserved ↦
            (λ e. cc (the_blocked free reserved), λ h. elim h [ inl f ↦ cc | inr (r, _) ↦ cc ])
        | inr normal ↦ (
          λ e. inr (normal, deps.0 (ground (arith, e, free, normal))),
          λ h. elim h [ inl f ↦ cc | inr (_, all) ↦ ground (arith, free, normal, deps.1 all) ],
        )
      ]
    ]
  where
    the_blocked :
        is_forced_ready node.id g ≡ false
        → is_fallback_only node.id g ≡ true
        → is_runnable g node ≡ blocked
    the_blocked free reserved = ground arith

module _ (in_flight : List String) (by_role : Map AgentRole ℕ) (g₀ : ExecutionGraph) where
  -- What is known of a chosen node, and of the graph that comes with it.
  abbrev Fits : ExecutionGraph × Selection → Type 0
  Fits (g', nothing) = Unit
  Fits (g', aborted id dep st) = Unit
  Fits (g', chosen node) =
      (Set.contains node.id in_flight ≡ false)
      × (role_is_full in_flight by_role node ≡ false)
      × ((g : ExecutionGraph) × Follows g₀ g × MayRun g node × (g' ≡ clear_forced_ready node.id g))

  -- The nodes that the loop goes through were pending.
  select_from-Fits :
      (nodes : List AgentNode) (g : ExecutionGraph)
      → All (λ n. status n.id g₀ ≡ some pending) nodes
      → Follows g₀ g
      → Fits (select_from in_flight by_role nodes g)
  unfolding select_from
  select_from-Fits [] g was f = tt
  select_from-Fits (node ∷ rest) g (pends, was) f =
      elim (Bool-cases (Set.contains node.id in_flight || role_is_full in_flight by_role node)) [
        | inl taken ↦ rw taken (select_from-Fits rest g was f)
        | inr free ↦ rw free (
            go free (is_runnable g node) refl (select_from-Fits rest g was f) (λ f'.
              select_from-Fits rest (force_fallback node (set_status node.id skipped g)) was f'))
      ]
    where
      go :
          (Set.contains node.id in_flight || role_is_full in_flight by_role node) ≡ false
          → (r : DepResolution) → is_runnable g node ≡ r
          → Fits (select_from in_flight by_role rest g)
          → (Follows g₀ (force_fallback node (set_status node.id skipped g))
              → Fits (
                  select_from in_flight by_role rest
                    (force_fallback node (set_status node.id skipped g))))
          → Fits (after_resolution (select_from in_flight by_role rest) node g r)
      go free ready e next skipping = (
        ground (arith, free),
        ground (arith, free),
        (g, f, (is_runnable-ready_iff g node).0 e, refl),
      )
      go free blocked e next skipping = next
      go free (stop_fail_fast dep st) e next skipping = tt
      go free (use_fallback dep st) e next skipping =
          skipping (Follows-use_fallback node f dep st pends e)

pending_nodes-pending :
    (g : ExecutionGraph) (nodes : List AgentNode)
    → All (λ n. status n.id g ≡ some pending) (filter (λ n. is_pending (status n.id g)) nodes)
pending_nodes-pending g [] = tt
pending_nodes-pending g (n ∷ rest) = elim (Bool-cases (is_pending (status n.id g))) [
  | inr no_ ↦ rw no_ (pending_nodes-pending g rest)
  | inl yes_ ↦ rw yes_ (is_pending-some (status n.id g) yes_, pending_nodes-pending g rest)
]
  where
    is_pending-some : (o : Option NodeStatus) → is_pending o ≡ true → o ≡ some pending
    is_pending-some none h = cc h
    is_pending-some (some pending) h = refl
    is_pending-some (some running) h = cc h
    is_pending-some (some succeeded) h = cc h
    is_pending-some (some failed) h = cc h
    is_pending-some (some skipped) h = cc h

pub select_next_node-chosen :
    (in_flight : List String) (by_role : Map AgentRole ℕ) (g g' : ExecutionGraph) (node : AgentNode)
    → select_next_node in_flight by_role g ≡ (g', chosen node)
    → (Set.contains node.id in_flight ≡ false)
      × (role_is_full in_flight by_role node ≡ false)
      × ((g₁ : ExecutionGraph) × Follows g g₁
          × MayRun g₁ node
          × (g' ≡ clear_forced_ready node.id g₁))
unfolding select_next_node pending_nodes
select_next_node-chosen in_flight by_role g g' node e = subst (Fits in_flight by_role g) e (
    select_from-Fits in_flight by_role g _ g
      (sort_by-All by_id _ _ (pending_nodes-pending g (Map.values g.nodes))) (Follows-refl g))
