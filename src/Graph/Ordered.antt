-- ===== src/Graph/Ordered.antt =====
-- Lists of nodes that a graph takes one after the other: each depends on nodes that are there already.
use cli_agent.Common.{
  ℕ, ◌≤◌, String, string_eq, ◌≡◌, ◌∙◌, subst, inl, inr, true, false, none, List, [], ◌∷◌, arith,
  ◌==◌, eq_of_==, Bool-cases, All,
}
use cli_agent.Common.Map
use cli_agent.Common.Set
use cli_agent.Graph.{AgentNode, ExecutionGraph, add_node}
use cli_agent.Graph.Valid.{IsValid, IsAdmissible, extended, add_node_cases, extended-IsValid}

-- A new id, a depth within the limit, and dependencies that are known.
abbrev pub InOrder : ℕ → List String → List AgentNode → Type 0
InOrder max_depth known [] = Unit
InOrder max_depth known (node ∷ rest) =
    (Set.contains node.id known ≡ false)
    × (node.depth ≤ max_depth)
    × All (λ dep. Set.contains dep known ≡ true) node.dependencies
    × InOrder max_depth (node.id ∷ known) rest

-- The ids behind the addition of the nodes.
abbrev pub grown : List String → List AgentNode → List String
grown known [] = known
grown known (node ∷ rest) = grown (node.id ∷ known) rest

-- The list holds exactly the ids of the nodes.
abbrev pub Knows : List String → ExecutionGraph → Type 0
Knows known g = (id : String) → Map.contains_key id g.nodes ≡ Set.contains id known

All-contains :
    (known deps : List String) (dep : String)
    → All (λ d. Set.contains d known ≡ true) deps
    → Set.contains dep deps ≡ true
    → Set.contains dep known ≡ true
unfolding Set.contains
All-contains known [] dep all c = cc
All-contains known (d ∷ deps) dep (here, all) c = elim (Bool-cases (d == dep)) [
  | inl same ↦ subst (λ x. Set.contains x known ≡ true) (eq_of_== d dep same) here
  | inr other ↦ All-contains known deps dep all (ground (arith, c, other))
]

module _ (node : AgentNode) (g : ExecutionGraph) (known : List String) where
  IsAdmissible-known :
      Knows known g
      → (Set.contains node.id known ≡ false)
      → (node.depth ≤ g.max_depth)
      → All (λ dep. Set.contains dep known ≡ true) node.dependencies
      → IsAdmissible node g
  IsAdmissible-known k new shallow deps = record {
    unused = k node.id ∙ new;
    not_too_deep = shallow;
    known = λ dep c. (
      differs dep (All-contains known node.dependencies dep deps c),
      k dep ∙ All-contains known node.dependencies dep deps c,
    );
  }
    where
      differs : (dep : String) → Set.contains dep known ≡ true → (dep == node.id) ≡ false
      differs dep c = elim (Bool-cases (dep == node.id)) [
        | inl same ↦ cc (c, new, eq_of_== dep node.id same)
        | inr other ↦ other
      ]

  Knows-extended : Knows known g → Knows (node.id ∷ known) (extended node g)
  unfolding Set.contains
  Knows-extended k id = ground (arith, k id, Map.get-insert node.id id node g.nodes)

  -- A node that is in order is added.
  pub add_node-InOrder :
      IsValid g
      → Knows known g
      → (Set.contains node.id known ≡ false)
      → (node.depth ≤ g.max_depth)
      → All (λ dep. Set.contains dep known ≡ true) node.dependencies
      → (add_node node g ≡ (extended node g, none))
        × IsValid (extended node g)
        × Knows (node.id ∷ known) (extended node g)
  add_node-InOrder valid k new shallow deps =
      let fits = IsAdmissible-known k new shallow deps in
      (
        elim (add_node_cases node g valid) [
          | inl (_, e) ↦ e
          | inr (_, _, unfit, _) ↦ absurd (unfit fits)
        ],
        extended-IsValid node g valid fits,
        Knows-extended k,
      )
