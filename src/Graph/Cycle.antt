-- ===== src/Graph/Cycle.antt =====
-- The depth-first search of `ExecutionGraph::has_cycle`: it ends within its fuel on every graph,
-- and finds nothing where the dependencies are ranked.
use cli_agent.Common.{
  ℕ, zero, suc, ◌<◌, ◌≡◌, ◌≢◌, ap, ◌⊎◌, ◌∙◌, subst, sym, refl, String, string_eq, Bool, true, false,
  Bool-cases, Option-cases, Option, none, some, List, [], ◌∷◌, inl, inr, arith, length, ◌==◌,
  ==_refl, eq_of_==,
}
use mathlib.Core.Bool.{false≢true}
use cli_agent.Common.Map
use cli_agent.Common.Map.{Map}
use cli_agent.Common.Set
use cli_agent.Graph.{
  AgentNode, ExecutionGraph, Marks, deps_of, proceed, any_cycle, leave, dfs, has_cycle,
}

-- The search ended, and where it found no cycle the path is as it was.
abbrev Settles : List String → Option (Bool × Marks) → Type 0
Settles t none = ⊥
Settles t (some (found, s)) = found ≡ false → s.temp ≡ t

proceed-Settles :
    (t : List String) (next : Marks → Option (Bool × Marks)) (r : Option (Bool × Marks))
    → ((s : Marks) → s.temp ≡ t → Settles t (next s))
    → Settles t r
    → Settles t (proceed next r)
proceed-Settles t next none k h = h
proceed-Settles t next (some (true, s)) k h = h
proceed-Settles t next (some (false, s)) k h = k s (h refl)

any_cycle-Settles :
    (t : List String) (visit : String → Marks → Option (Bool × Marks)) (deps : List String)
    → ((id : String) (s : Marks) → s.temp ≡ t → Settles t (visit id s))
    → (s : Marks) → s.temp ≡ t
    → Settles t (any_cycle visit deps s)
unfolding any_cycle
any_cycle-Settles t visit [] v s e = λ _. e
any_cycle-Settles t visit (dep ∷ deps) v s e =
    proceed-Settles t (any_cycle visit deps) (visit dep s) (any_cycle-Settles t visit deps v)
      (v dep s e)

leave-Settles :
    (id : String) (t : List String) (r : Option (Bool × Marks))
    → Set.contains id t ≡ false
    → Settles (Set.insert id t) r
    → Settles t (leave id r)
unfolding leave Set.insert Set.remove
leave-Settles id t none absent h = h
leave-Settles id t (some (true, s)) absent h = λ e. cc
leave-Settles id t (some (false, s)) absent h =
    λ _. ground (arith, h refl, Set.remove_absent id t, ==_refl id)

module _ (nodes : Map String AgentNode) where
  -- A node without an entry has no dependencies, so the search goes no deeper there.
  below_lt :
      (id : String) (t : List String) (fuel : ℕ)
      → Set.contains id t ≡ false
      → Set.fresh t (Map.keys nodes) < suc fuel
      → (deps_of nodes id ≡ []) ⊎ (Set.fresh (Set.insert id t) (Map.keys nodes) < fuel)
  below_lt id t fuel absent room = elim (Option-cases (Map.get id nodes)) [
    | inl missing ↦ inl (rw (missing, deps_of))
    | inr (node, found) ↦ inr (
        omega (
          arith,
          Set.fresh-insert-lt id t (Map.keys nodes) absent
              (Map.contains-keys id nodes ∙ (rw found)),
        ))
  ]

  dfs-Settles :
      (fuel : ℕ) (id : String) (s : Marks)
      → Set.fresh s.temp (Map.keys nodes) < fuel
      → Settles s.temp (dfs nodes fuel id s)
  unfolding dfs any_cycle
  dfs-Settles zero id s room = elim room [ ]
  dfs-Settles (suc fuel) id s room = elim (Bool-cases (Set.contains id s.perm)) [
    | inl done ↦ rw done (λ _. refl)
    | inr new ↦ elim (Bool-cases (Set.contains id s.temp)) [
      | inl back ↦ rw (new, back) (λ e. cc)
      | inr absent ↦
          rw (new, absent)
            (leave-Settles id s.temp _ absent (elim (below_lt id s.temp fuel absent room) [
              | inl no_deps ↦ rw no_deps (λ _. refl)
              | inr deeper ↦
                  any_cycle-Settles (Set.insert id s.temp) (dfs nodes fuel) (deps_of nodes id)
                    (λ dep s' e.
                      subst (λ t. Settles t (dfs nodes fuel dep s')) e
                        (dfs-Settles fuel dep s' (rw e deeper)))
                    _ refl
            ]))
    ]
  ]

-- The search of `has_cycle` always answers: a path enters each node at most once.
pub has_cycle_total : (g : ExecutionGraph) → has_cycle g ≢ none
unfolding has_cycle
has_cycle_total g = ends _ (any_cycle-Settles [] visit (Map.keys g.nodes) settles _ refl)
  where
    visit : String → Marks → Option (Bool × Marks)
    visit = dfs g.nodes (suc (length g.nodes))

    settles : (id : String) (s : Marks) → s.temp ≡ [] → Settles [] (visit id s)
    settles id s e =
        subst (λ t. Settles t (visit id s)) e
          (dfs-Settles g.nodes (suc (length g.nodes)) id s
            (omega (arith, Set.fresh-le-length s.temp (Map.keys g.nodes), Map.length-keys g.nodes)))

    ends :
        (r : Option (Bool × Marks))
        → Settles [] r
        → elim r [ none ↦ none | some (found, _) ↦ some found ] ≢ none
    ends none h = λ _. h
    ends (some (found, s)) h = λ e. cc

-- `rank` puts every node above its dependencies, so no path leads back.
abbrev pub IsRanked : (String → ℕ) → Map String AgentNode → Type 0
IsRanked rank nodes =
    (id dep : String) → Set.contains dep (deps_of nodes id) ≡ true → rank dep < rank id

-- The search ended without a cycle, and the path is as it was.
abbrev Clears : List String → Option (Bool × Marks) → Type 0
Clears t none = ⊥
Clears t (some (found, s)) = (found ≡ false) × (s.temp ≡ t)

proceed-Clears :
    (t : List String) (next : Marks → Option (Bool × Marks)) (r : Option (Bool × Marks))
    → ((s : Marks) → s.temp ≡ t → Clears t (next s))
    → Clears t r
    → Clears t (proceed next r)
proceed-Clears t next none k h = h
proceed-Clears t next (some (true, s)) k h = h
proceed-Clears t next (some (false, s)) k h = k s h.1

any_cycle-Clears :
    (t : List String) (visit : String → Marks → Option (Bool × Marks)) (deps : List String)
    → ((id : String) (s : Marks) → Set.contains id deps ≡ true → s.temp ≡ t → Clears t (visit id s))
    → (s : Marks) → s.temp ≡ t
    → Clears t (any_cycle visit deps s)
unfolding any_cycle Set.contains
any_cycle-Clears t visit [] v s e = (refl, e)
any_cycle-Clears t visit (dep ∷ deps) v s e =
    proceed-Clears t (any_cycle visit deps) (visit dep s)
      (any_cycle-Clears t visit deps (λ id s' m. v id s' (ground (arith, m))))
      (v dep s (rw ==_refl) e)

leave-Clears :
    (id : String) (t : List String) (r : Option (Bool × Marks))
    → Set.contains id t ≡ false
    → Clears (Set.insert id t) r
    → Clears t (leave id r)
unfolding leave Set.insert Set.remove
leave-Clears id t none absent h = h
leave-Clears id t (some (true, s)) absent h = absurd (cc h.0)
leave-Clears id t (some (false, s)) absent h =
    (refl, ground (arith, h.1, Set.remove_absent id t, ==_refl id))

module _ (rank : String → ℕ) (nodes : Map String AgentNode) (ranked : IsRanked rank nodes) where
  -- What is above `id` on the path, and `id` itself, is above each dependency of `id`.
  path_above :
      (id dep : String) (t : List String) (a : String)
      → Set.contains dep (deps_of nodes id) ≡ true
      → ((b : String) → Set.contains b t ≡ true → rank id < rank b)
      → Set.contains a (Set.insert id t) ≡ true
      → rank dep < rank a
  path_above id dep t a m up c = elim (Bool-cases (id == a)) [
    | inl same ↦ rw (← eq_of_== id a same) (ranked id dep m)
    | inr other ↦
        omega (arith, ranked id dep m, up a (ground (arith, c, other, Set.contains-insert id a t)))
  ]

  dfs-Clears :
      (fuel : ℕ) (id : String) (s : Marks)
      → Set.fresh s.temp (Map.keys nodes) < fuel
      → ((a : String) → Set.contains a s.temp ≡ true → rank id < rank a)
      → Clears s.temp (dfs nodes fuel id s)
  unfolding dfs any_cycle
  dfs-Clears zero id s room above = elim room [ ]
  dfs-Clears (suc fuel) id s room above = elim (Bool-cases (Set.contains id s.perm)) [
    | inl done ↦ rw done (refl, refl)
    | inr new ↦ elim (Bool-cases (Set.contains id s.temp)) [
      | inl back ↦ absurd (omega (arith, above id back))
      | inr absent ↦
          rw (new, absent)
            (leave-Clears id s.temp _ absent (elim (below_lt nodes id s.temp fuel absent room) [
              | inl no_deps ↦ rw no_deps (refl, refl)
              | inr deeper ↦
                  any_cycle-Clears (Set.insert id s.temp) (dfs nodes fuel) (deps_of nodes id)
                    (λ dep s' m e.
                      subst (λ t. Clears t (dfs nodes fuel dep s')) e
                        (dfs-Clears fuel dep s' (rw e deeper)
                          (λ a c. path_above id dep s.temp a m above (rw e at c))))
                    _ refl
            ]))
    ]
  ]

-- A ranked graph has no cycle, and the search says so.
pub has_cycle_of_ranked :
    (rank : String → ℕ) (g : ExecutionGraph) → IsRanked rank g.nodes → has_cycle g ≡ some false
unfolding has_cycle Set.contains
has_cycle_of_ranked rank g ranked =
    found_false _ (any_cycle-Clears [] visit (Map.keys g.nodes) (λ id s _. clears id s) _ refl)
  where
    visit : String → Marks → Option (Bool × Marks)
    visit = dfs g.nodes (suc (length g.nodes))

    clears : (id : String) (s : Marks) → s.temp ≡ [] → Clears [] (visit id s)
    clears id s e =
        subst (λ t. Clears t (visit id s)) e
          (dfs-Clears rank g.nodes ranked (suc (length g.nodes)) id s
            (omega (arith, Set.fresh-le-length s.temp (Map.keys g.nodes), Map.length-keys g.nodes))
            (λ a m. absurd (false≢true (ap (Set.contains a) (sym e) ∙ m))))

    found_false :
        (r : Option (Bool × Marks))
        → Clears [] r
        → elim r [ none ↦ none | some (found, _) ↦ some found ] ≡ some false
    found_false none h = absurd h
    found_false (some (found, s)) h = rw h.0
