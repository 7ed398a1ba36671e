-- ===== src/Graph/Valid.antt =====
-- What `add_node` keeps of an execution graph, and exactly which nodes it accepts.
use cli_agent.Common.{
  ℕ, suc, ◌+◌, ◌≤◌, String, ◌≡◌, refl, sym, ap, ◌∙◌, subst, ◌⊎◌, inl, inr, true, false, none, some,
  List, [], ◌∷◌, arith, if◌then◌else◌, Bool-cases, Option-cases, ◌==◌, nat_eq, string_eq, ==_refl,
  eq_of_==, ==_comm,
}
use mathlib.Core.Bool.{false≢true}
use cli_agent.Common.Map
use cli_agent.Common.Map.{Map}
use cli_agent.Common.Set
use native.Mathlib.Decide.{dec_le}
use cli_agent.Graph.{
  self_dependency, out_of_fuel, missing_dependency, duplicate_id, depth_exceeded, introduces_cycle,
  AgentNode, ExecutionGraph, GraphError, deps_of, new_graph, check_dependencies, commit_node,
  note_fallback, add_node, add_nodes, pending,
}
use cli_agent.Graph.Cycle.{IsRanked, has_cycle_of_ranked}

pub record IsValid (g : ExecutionGraph) : Type 0 where
  -- A node is stored under its own id.
  pub stored : (id : String) (node : AgentNode) → Map.get id g.nodes ≡ some node → node.id ≡ id
  -- Dependencies are nodes of the graph.
  pub closed :
      (id dep : String)
      → Set.contains dep (deps_of g.nodes id) ≡ true
      → Map.contains_key dep g.nodes ≡ true
  pub shallow :
      (id : String) (node : AgentNode) → Map.get id g.nodes ≡ some node → node.depth ≤ g.max_depth
  -- Exactly the nodes have a status.
  pub tracked : (id : String) → Map.contains_key id g.statuses ≡ Map.contains_key id g.nodes
  pub forced :
      (id : String) → Set.contains id g.forced_ready ≡ true → Map.contains_key id g.nodes ≡ true
  -- No cycle: each node stands above its dependencies.
  pub rank : String → ℕ
  pub ranked : IsRanked rank g.nodes

-- The nodes that a graph can take.
pub record IsAdmissible (node : AgentNode) (g : ExecutionGraph) : Type 0 where
  pub unused : Map.contains_key node.id g.nodes ≡ false
  pub not_too_deep : node.depth ≤ g.max_depth
  pub known :
      (dep : String)
      → Set.contains dep node.dependencies ≡ true
      → ((dep == node.id) ≡ false) × (Map.contains_key dep g.nodes ≡ true)

-- An empty graph is well formed.
pub new_graph-IsValid : (max_depth : ℕ) → IsValid (new_graph max_depth)
unfolding new_graph Map.get Set.contains
new_graph-IsValid max_depth = record {
  stored = λ id node e. cc;
  closed = λ id dep e. cc;
  shallow = λ id node e. cc;
  tracked = λ id. refl;
  forced = λ id e. cc;
  rank = λ id. 0;
  ranked = λ id dep e. cc;
}

check_dependencies_sound :
    (node : AgentNode) (nodes : Map String AgentNode) (deps : List String)
    → check_dependencies node nodes deps ≡ none
    → (dep : String) → Set.contains dep deps ≡ true
    → ((dep == node.id) ≡ false) × (Map.contains_key dep nodes ≡ true)
unfolding check_dependencies Set.contains
check_dependencies_sound node nodes [] h dep m = cc
check_dependencies_sound node nodes (d ∷ deps) h dep m = elim (Bool-cases (d == dep)) [
  | inl same ↦ rw (← eq_of_== d dep same) (ground (arith, h), ground (arith, h))
  | inr other ↦
      check_dependencies_sound node nodes deps (ground (arith, h)) dep (ground (arith, m, other))
]

check_dependencies_complete :
    (node : AgentNode) (nodes : Map String AgentNode) (deps : List String)
    → ((dep : String)
        → Set.contains dep deps ≡ true
        → ((dep == node.id) ≡ false) × (Map.contains_key dep nodes ≡ true))
    → check_dependencies node nodes deps ≡ none
unfolding check_dependencies Set.contains
check_dependencies_complete node nodes [] h = refl
check_dependencies_complete node nodes (d ∷ deps) h =
    rw ((h d (rw ==_refl)).0, (h d (rw ==_refl)).1)
      (check_dependencies_complete node nodes deps (λ dep m. h dep (ground (arith, m))))

deps_of-insert :
    (node : AgentNode) (nodes : Map String AgentNode) (id : String)
    → deps_of (Map.insert node.id node nodes) id
      ≡ (if node.id == id then node.dependencies else deps_of nodes id)
deps_of-insert node nodes id = ground (arith, Map.get-insert node.id id node nodes)

-- The graph that `add_node` builds before its search for a cycle.
abbrev pub extended : AgentNode → ExecutionGraph → ExecutionGraph
extended node g = record g {
  nodes = Map.insert node.id node g.nodes;
  statuses = Map.insert node.id pending g.statuses;
  fallback_only = note_fallback node g;
}

sum_ranks : (String → ℕ) → List String → ℕ
sum_ranks rank [] = 0
sum_ranks rank (dep ∷ deps) = rank dep + sum_ranks rank deps

rank-le-sum_ranks :
    (rank : String → ℕ) (deps : List String) (dep : String)
    → Set.contains dep deps ≡ true
    → rank dep ≤ sum_ranks rank deps
unfolding sum_ranks Set.contains
rank-le-sum_ranks rank [] dep m = absurd (false≢true m)
rank-le-sum_ranks rank (d ∷ deps) dep m = elim (Bool-cases (d == dep)) [
  | inl same ↦ rw (← eq_of_== d dep same) (omega arith)
  | inr other ↦ omega (arith, rank-le-sum_ranks rank deps dep (ground (arith, m, other)))
]

module _ (node : AgentNode) (g : ExecutionGraph) (valid : IsValid g)
    (fits : IsAdmissible node g) where
  open valid use {rank}

  -- The new node stands above all of its dependencies.
  abbrev raised : String → ℕ
  raised id = if node.id == id then suc (sum_ranks rank node.dependencies) else rank id

  other : (dep : String) → Map.contains_key dep g.nodes ≡ true → (node.id == dep) ≡ false
  other dep m = elim (Bool-cases (node.id == dep)) [
    | inl same ↦ absurd (
        false≢true
          (sym fits.unused ∙ ap (λ d. Map.contains_key d g.nodes) (eq_of_== node.id dep same) ∙ m))
    | inr differs ↦ differs
  ]

  extended-IsRanked : IsRanked raised (extended node g).nodes
  extended-IsRanked id dep m = elim (Bool-cases (node.id == id)) [
    | inl new ↦
        let here : Set.contains dep node.dependencies ≡ true =
          (ground (arith, m, new, deps_of-insert node g.nodes id)) in
        rw (new, ==_comm node.id dep, (fits.known dep here).0)
          (omega (arith, rank-le-sum_ranks rank node.dependencies dep here))
    | inr old ↦
        let here : Set.contains dep (deps_of g.nodes id) ≡ true =
          (ground (arith, m, old, deps_of-insert node g.nodes id)) in
        rw (old, other dep (valid.closed id dep here)) (valid.ranked id dep here)
  ]

  -- With the new node the graph is well formed again.
  pub extended-IsValid : IsValid (extended node g)
  extended-IsValid = record {
    stored = λ id n e.
        ground
          (arith, Map.get-insert node.id id node g.nodes, eq_of_== node.id id, valid.stored id n);
    closed = λ id dep m. ground (
      arith,
      Map.get-insert node.id dep node g.nodes,
      deps_of-insert node g.nodes id,
      valid.closed id dep,
      fits.known dep,
    );
    shallow = λ id n e.
        ground
          (arith, Map.get-insert node.id id node g.nodes, valid.shallow id n, fits.not_too_deep);
    tracked = λ id. ground (
      arith,
      Map.get-insert node.id id node g.nodes,
      Map.get-insert node.id id pending g.statuses,
      valid.tracked id,
    );
    forced = λ id m. ground (arith, Map.get-insert node.id id node g.nodes, valid.forced id m);
    rank = raised;
    ranked = extended-IsRanked;
  }

  commit_node_lem : commit_node node g ≡ (extended node g, none)
  unfolding commit_node
  commit_node_lem = rw (has_cycle_of_ranked raised (extended node g) extended-IsRanked, commit_node)

  add_node_accepts : add_node node g ≡ (extended node g, none)
  unfolding add_node
  add_node_accepts =
      rw (check_dependencies_complete node g.nodes node.dependencies fits.known)
        (ground (arith, fits.unused, fits.not_too_deep, commit_node_lem))

-- An error that one of the first checks of `add_node` raises, not its search for a cycle.
abbrev pub IsEarly : GraphError → Type 0
IsEarly (introduces_cycle id) = ⊥
IsEarly out_of_fuel = ⊥
IsEarly _ = Unit

check_dependencies-IsEarly :
    (node : AgentNode) (nodes : Map String AgentNode) (deps : List String) {e : GraphError}
    → check_dependencies node nodes deps ≡ some e
    → IsEarly e
unfolding check_dependencies
check_dependencies-IsEarly node nodes [] h = cc
check_dependencies-IsEarly node nodes (d ∷ deps) h = elim (Bool-cases (d == node.id)) [
  | inl own ↦ subst IsEarly {x = self_dependency node.id} (ground (arith, h, own)) tt
  | inr other ↦ elim (Bool-cases (Map.contains_key d nodes)) [
    | inl known ↦ check_dependencies-IsEarly node nodes deps (ground (arith, h, other, known))
    | inr missing ↦
        subst IsEarly {x = missing_dependency node.id d} (ground (arith, h, other, missing)) tt
  ]
]

-- On a well-formed graph `add_node` accepts exactly the admissible nodes, that is those with a
-- new id, an allowed depth and dependencies that are other nodes of the graph; any other node is
-- refused with an error of its first checks, never that of the search for a cycle, and the graph
-- is as it was.
pub add_node_cases :
    (node : AgentNode) (g : ExecutionGraph)
    → IsValid g
    → IsAdmissible node g × (add_node node g ≡ (extended node g, none))
      ⊎ ((e : GraphError) × IsEarly e × (¬ IsAdmissible node g) × (add_node node g ≡ (g, some e)))
unfolding add_node
add_node_cases node g valid = elim (Bool-cases (Map.contains_key node.id g.nodes)) [
  | inl used ↦ inr (duplicate_id node.id, tt, λ fits. cc (fits.unused), ground (arith, used))
  | inr unused ↦ elim (dec_le node.depth g.max_depth) [
    | no deep ↦ inr (
      depth_exceeded node.id node.depth g.max_depth,
      tt,
      λ fits. deep fits.not_too_deep,
      ground (arith, unused),
    )
    | yes shallow ↦ elim (Option-cases (check_dependencies node g.nodes node.dependencies)) [
      | inl passed ↦
          let fits : IsAdmissible node g = record {
            unused = unused;
            not_too_deep = shallow;
            known = check_dependencies_sound node g.nodes node.dependencies passed;
          } in
          inl (fits, add_node_accepts node g valid fits)
      | inr (e, failed) ↦ inr (
        e,
        check_dependencies-IsEarly node g.nodes node.dependencies failed,
        λ fits. cc (check_dependencies_complete node g.nodes node.dependencies fits.known, failed),
        ground (arith, unused, failed),
      )
    ]
  ]
]

-- Adding a node, accepted or not, keeps a graph well formed.
pub add_node-IsValid :
    (node : AgentNode) (g : ExecutionGraph) → IsValid g → IsValid (add_node node g).0
add_node-IsValid node g valid = elim (add_node_cases node g valid) [
  | inl (fits, e) ↦ rw e (extended-IsValid node g valid fits)
  | inr (_, _, _, e) ↦ rw e valid
]

-- A batch of nodes keeps a graph well formed, also where it stops at an error.
pub add_nodes-IsValid :
    (nodes : List AgentNode) (g : ExecutionGraph) → IsValid g → IsValid (add_nodes nodes g).0
unfolding add_nodes
add_nodes-IsValid [] g valid = valid
add_nodes-IsValid (node ∷ rest) g valid = elim (add_node_cases node g valid) [
  | inl (fits, e) ↦
      rw (ap (λ r. r.1) e, ap (λ r. r.0) e, add_nodes)
        (add_nodes-IsValid rest (extended node g) (extended-IsValid node g valid fits))
  | inr (_, _, _, e) ↦ rw (ap (λ r. r.1) e, ap (λ r. r.0) e, add_nodes) valid
]
