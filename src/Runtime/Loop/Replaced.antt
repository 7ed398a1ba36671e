-- ===== src/Runtime/Loop/Replaced.antt =====
-- What `select_next_node` does to the graph on its way: nodes that are skipped for their fallbacks.
use cli_agent.Common.{
  Option-cases, String, ◌≡◌, refl, sym, subst, ◌⊎◌, inl, inr, true, none, some, List, [], ◌∷◌,
  arith, Bool-cases, Option-cases, nat_eq, string_eq, Any, ◌∙◌, ap, Option, ◌==◌, eq_of_==, ==_refl,
}
use cli_agent.Common.Map
use cli_agent.Common.Map.{Map}
use cli_agent.Common.Set
use cli_agent.Graph.{
  status, force_ready, NodeStatus, pending, running, succeeded, failed, skipped,
  DependencyFailurePolicy, fail_fast, continue_on_error, fallback_node, AgentNode, ExecutionGraph,
  is_forced_ready, is_fallback_only, dependencies, known_statuses, set_status,
}
use cli_agent.Runtime.{use_fallback, resolve, is_runnable, force_fallback}

-- A dependency that failed or was skipped.
abbrev pub IsBad : NodeStatus → Type 0
IsBad st = (st ≡ failed) ⊎ (st ≡ skipped)

-- This node was pending and is now skipped, since a dependency of it failed or was skipped and its
-- policy is to run its fallback instead, which is the node of this id.
abbrev pub IsReplaced : ExecutionGraph → ExecutionGraph → String → AgentNode → Type 0
IsReplaced g₀ g id n =
    (n.policy.fallback_target ≡ some id)
    × (n.policy.on_dependency_failure ≡ fallback_node)
    × (status n.id g₀ ≡ some pending)
    × (status n.id g ≡ some skipped)
    × Any (λ d. IsBad d.1) (dependencies g n)

-- The graph after some nodes were skipped: the nodes are the same, a status that differs is
-- `Skipped`, and a node marked as forced was so before or is the fallback of a skipped node.
pub record Follows (g₀ g : ExecutionGraph) : Type 0 where
  pub same_nodes : g.nodes ≡ g₀.nodes
  pub same_reserved : g.fallback_only ≡ g₀.fallback_only
  pub only_skips : (id : String) → (status id g ≡ status id g₀) ⊎ (status id g ≡ some skipped)
  pub only_forced :
      (id : String)
      → is_forced_ready id g ≡ true
      → (is_forced_ready id g₀ ≡ true) ⊎ ((n : AgentNode) × IsReplaced g₀ g id n)

pub Follows-refl : (g : ExecutionGraph) → Follows g g
Follows-refl g = record {
  same_nodes = refl;
  same_reserved = refl;
  only_skips = λ id. inl refl;
  only_forced = λ id h. inl h;
}

known_statuses-none :
    (g : ExecutionGraph) (dep : String) (deps : List String)
    → status dep g ≡ none
    → known_statuses g (dep ∷ deps) ≡ known_statuses g deps
unfolding known_statuses
known_statuses-none g dep deps h = rw (known_statuses, h) refl

known_statuses-some :
    (g : ExecutionGraph) (dep : String) (deps : List String) (st : NodeStatus)
    → status dep g ≡ some st
    → known_statuses g (dep ∷ deps) ≡ (dep, st) ∷ known_statuses g deps
unfolding known_statuses
known_statuses-some g dep deps st h = rw (known_statuses, h) refl

-- Skipping more nodes makes no dependency better.
known_statuses-IsBad :
    (g g' : ExecutionGraph) (deps : List String)
    → ((id : String) → (status id g' ≡ status id g) ⊎ (status id g' ≡ some skipped))
    → Any (λ d. IsBad d.1) (known_statuses g deps)
    → Any (λ d. IsBad d.1) (known_statuses g' deps)
unfolding known_statuses
known_statuses-IsBad g g' [] skips h = h
known_statuses-IsBad g g' (dep ∷ deps) skips h = elim (skips dep) [
  | inr bad ↦
      subst (Any (λ d. IsBad d.1)) (sym (known_statuses-some g' dep deps skipped bad))
        (inl (inr refl))
  | inl same ↦ elim (Option-cases (status dep g)) [
    | inl absent ↦
        subst (Any (λ d. IsBad d.1)) (sym (known_statuses-none g' dep deps (same ∙ absent))) (
          known_statuses-IsBad g g' deps skips
            (subst (Any (λ d. IsBad d.1)) (known_statuses-none g dep deps absent) h))
    | inr (st, there) ↦
        subst (Any (λ d. IsBad d.1)) (sym (known_statuses-some g' dep deps st (same ∙ there))) (
          later st (subst (Any (λ d. IsBad d.1)) (known_statuses-some g dep deps st there) h)
            (known_statuses-IsBad g g' deps skips))
  ]
]
  where
    later :
        (st : NodeStatus)
        → Any (λ d. IsBad d.1) ((dep, st) ∷ known_statuses g deps)
        → (Any (λ d. IsBad d.1) (known_statuses g deps)
            → Any (λ d. IsBad d.1) (known_statuses g' deps))
        → Any (λ d. IsBad d.1) ((dep, st) ∷ known_statuses g' deps)
    later st (inl bad) ih = inl bad
    later st (inr more) ih = inr (ih more)

resolve-use_fallback :
    (policy : DependencyFailurePolicy) (deps : List (String × NodeStatus)) (dep : String)
    (st : NodeStatus)
    → resolve policy deps ≡ use_fallback dep st
    → (policy ≡ fallback_node) × Any (λ d. IsBad d.1) deps
unfolding resolve
resolve-use_fallback policy [] dep st h = cc h
resolve-use_fallback policy ((d, pending) ∷ deps) dep st h = cc h
resolve-use_fallback policy ((d, running) ∷ deps) dep st h = cc h
resolve-use_fallback policy ((d, succeeded) ∷ deps) dep st h =
    let (p, bad) = resolve-use_fallback policy deps dep st h in (p, inr bad)
resolve-use_fallback fallback_node ((d, failed) ∷ deps) dep st h = (refl, inl (inl refl))
resolve-use_fallback fallback_node ((d, skipped) ∷ deps) dep st h = (refl, inl (inr refl))
resolve-use_fallback fail_fast ((d, failed) ∷ deps) dep st h = cc h
resolve-use_fallback fail_fast ((d, skipped) ∷ deps) dep st h = cc h
resolve-use_fallback continue_on_error ((d, failed) ∷ deps) dep st h =
    let (p, bad) = resolve-use_fallback continue_on_error deps dep st h in (p, inr bad)
resolve-use_fallback continue_on_error ((d, skipped) ∷ deps) dep st h =
    let (p, bad) = resolve-use_fallback continue_on_error deps dep st h in (p, inr bad)

is_runnable-use_fallback :
    (g : ExecutionGraph) (node : AgentNode) (dep : String) (st : NodeStatus)
    → is_runnable g node ≡ use_fallback dep st
    → (node.policy.on_dependency_failure ≡ fallback_node)
      × Any (λ d. IsBad d.1) (dependencies g node)
unfolding is_runnable
is_runnable-use_fallback g node dep st h =
    resolve-use_fallback node.policy.on_dependency_failure (dependencies g node) dep st
      (elim (Bool-cases (is_forced_ready node.id g)) [
        | inl forced ↦ cc (h, forced)
        | inr free ↦ elim (Bool-cases (is_fallback_only node.id g)) [
          | inl reserved ↦ cc (h, free, reserved)
          | inr normal ↦ ground (arith, h, free, normal)
        ]
      ])

module _ {g₀ g : ExecutionGraph} (node : AgentNode) (f : Follows g₀ g) where
  abbrev skipped_graph : ExecutionGraph
  skipped_graph = force_fallback node (set_status node.id skipped g)

  status-skipped_graph :
      (id : String) → status id skipped_graph ≡ status id (set_status node.id skipped g)
  unfolding force_ready
  status-skipped_graph id = elim (Option-cases node.policy.fallback_target) [
    | inl absent ↦ rw absent refl
    | inr (target, has) ↦ rw has (ground arith)
  ]

  skips_one :
      (id : String)
      → (status id skipped_graph ≡ status id g) ⊎ (status id skipped_graph ≡ some skipped)
  unfolding set_status
  skips_one id = ground (
    arith,
    status-skipped_graph id,
    Map.get-modify {V = NodeStatus} node.id id (λ _. skipped) g.statuses,
    Option-cases (Map.get id g.statuses),
  )

  abbrev forced_by : Option String → ExecutionGraph
  forced_by none = set_status node.id skipped g
  forced_by (some target) = force_ready target (set_status node.id skipped g)

  forces_one :
      (id target : String)
      → node.policy.fallback_target ≡ some target
      → is_forced_ready id (force_ready target (set_status node.id skipped g)) ≡ true
      → (is_forced_ready id g ≡ true) ⊎ (node.policy.fallback_target ≡ some id)
  unfolding force_ready set_status
  forces_one id target has h = elim (Bool-cases (target == id)) [
    | inl same ↦ inr (cc (has, eq_of_== target id same))
    | inr other ↦ inl (ground (arith, h, other, Set.contains-insert target id g.forced_ready))
  ]

  forces_target :
      (id : String)
      → is_forced_ready id skipped_graph ≡ true
      → (is_forced_ready id g ≡ true) ⊎ (node.policy.fallback_target ≡ some id)
  unfolding force_ready set_status
  forces_target id h = elim (Option-cases node.policy.fallback_target) [
    | inl absent ↦ inl (ground (arith, sym (ap (λ t. is_forced_ready id (forced_by t)) absent) ∙ h))
    | inr (target, has) ↦
        forces_one id target has (sym (ap (λ t. is_forced_ready id (forced_by t)) has) ∙ h)
  ]

  IsReplaced-later :
      (id : String) (n : AgentNode) → IsReplaced g₀ g id n → IsReplaced g₀ skipped_graph id n
  unfolding dependencies
  IsReplaced-later id n (target, policy, was, is, bad) = (
    target,
    policy,
    was,
    elim (skips_one n.id) [ inl same ↦ same ∙ is | inr now ↦ now ],
    known_statuses-IsBad g skipped_graph n.dependencies skips_one bad,
  )

  now_skipped : status node.id g₀ ≡ some pending → status node.id skipped_graph ≡ some skipped
  unfolding set_status
  now_skipped was = ground (
    arith,
    was,
    status-skipped_graph node.id,
    f.only_skips node.id,
    Map.get-modify {V = NodeStatus} node.id node.id (λ _. skipped) g.statuses,
    ==_refl node.id,
  )

  -- A pending node whose dependency failed is skipped for its fallback.
  pub Follows-use_fallback :
      (dep : String) (st : NodeStatus)
      → status node.id g₀ ≡ some pending
      → is_runnable g node ≡ use_fallback dep st
      → Follows g₀ skipped_graph
  unfolding force_ready set_status dependencies
  Follows-use_fallback dep st was h = record {
    same_nodes = ground (arith, f.same_nodes);
    same_reserved = ground (arith, f.same_reserved);
    only_skips = λ id. elim (skips_one id) [
      | inr now ↦ inr now
      | inl same ↦ elim (f.only_skips id) [ inl e ↦ inl (same ∙ e) | inr e ↦ inr (same ∙ e) ]
    ];
    only_forced = λ id forced. elim (forces_target id forced) [
      | inl before ↦ elim (f.only_forced id before) [
        | inl e ↦ inl e
        | inr (n, r) ↦ inr (n, IsReplaced-later id n r)
      ]
      | inr target ↦ inr (
        node,
        (
          target,
          (is_runnable-use_fallback g node dep st h).0,
          was,
          now_skipped was,
          known_statuses-IsBad g skipped_graph node.dependencies skips_one
              (is_runnable-use_fallback g node dep st h).1,
        ),
      )
    ];
  }
