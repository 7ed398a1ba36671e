-- ===== src/Graph/Keeps.antt =====
-- The operations on a graph other than `add_node` keep it well formed, and what they do to a status.
use cli_agent.Common.{
  ◌&&◌, String, inl, inr, ◌&&◌, List, [], ◌∷◌, arith, Bool-cases, Option-cases, nat_eq, string_eq,
  eq_of_==, filter,
}
use cli_agent.Common.Map
use cli_agent.Common.Set
use cli_agent.Graph.{
  NodeStatus, AgentNode, ExecutionGraph, force_ready, clear_forced_ready, set_status, status,
  skipped, is_pending, skip_all, mark_dependents_pending_as_skipped, add_node,
}
use cli_agent.Graph.Valid.{IsValid, add_node-IsValid}

pub set_status-IsValid :
    (id : String) (st : NodeStatus) (g : ExecutionGraph) → IsValid g → IsValid (set_status id st g)
unfolding set_status
set_status-IsValid id st g v = record {
  stored = v.stored;
  closed = v.closed;
  shallow = v.shallow;
  tracked = λ j. ground (
    arith,
    v.tracked j,
    Map.get-modify {V = NodeStatus} id j (λ _. st) g.statuses,
    Option-cases (Map.get j g.statuses),
  );
  forced = v.forced;
  rank = v.rank;
  ranked = v.ranked;
}

pub force_ready-IsValid :
    (id : String) (g : ExecutionGraph) → IsValid g → IsValid (force_ready id g)
unfolding force_ready
force_ready-IsValid id g v = elim (Bool-cases (Map.contains_key id g.nodes)) [
  | inr missing ↦ rw missing v
  | inl there ↦ rw there (record {
    stored = v.stored;
    closed = v.closed;
    shallow = v.shallow;
    tracked = v.tracked;
    forced = λ j m.
        ground
          (arith, v.forced j, m, Set.contains-insert id j g.forced_ready, eq_of_== id j, there);
    rank = v.rank;
    ranked = v.ranked;
  })
]

pub clear_forced_ready-IsValid :
    (id : String) (g : ExecutionGraph) → IsValid g → IsValid (clear_forced_ready id g)
unfolding clear_forced_ready
clear_forced_ready-IsValid id g v = record {
  stored = v.stored;
  closed = v.closed;
  shallow = v.shallow;
  tracked = v.tracked;
  forced = λ j m. v.forced j (ground (arith, m, Set.contains-remove id j g.forced_ready));
  rank = v.rank;
  ranked = v.ranked;
}

-- A predicate on graphs that every operation of the run loop keeps.
pub record Invariant (P : ExecutionGraph → Type 0) : Type 0 where
  pub on_set_status :
      (id : String) (st : NodeStatus) (g : ExecutionGraph) → P g → P (set_status id st g)
  pub on_force_ready : (id : String) (g : ExecutionGraph) → P g → P (force_ready id g)
  pub on_clear_forced_ready : (id : String) (g : ExecutionGraph) → P g → P (clear_forced_ready id g)
  pub on_add_node : (node : AgentNode) (g : ExecutionGraph) → P g → P (add_node node g).0

pub IsValid-Invariant : Invariant IsValid
IsValid-Invariant = record {
  on_set_status = set_status-IsValid;
  on_force_ready = force_ready-IsValid;
  on_clear_forced_ready = clear_forced_ready-IsValid;
  on_add_node = add_node-IsValid;
}

module _ {P : ExecutionGraph → Type 0} (inv : Invariant P) where
  skip_all_keeps : (nodes : List AgentNode) (g : ExecutionGraph) → P g → P (skip_all nodes g)
  unfolding skip_all
  skip_all_keeps [] g p = p
  skip_all_keeps (node ∷ rest) g p = skip_all_keeps rest _ (inv.on_set_status node.id skipped g p)

  pub mark_dependents_keeps :
      (id : String) (g : ExecutionGraph) → P g → P (mark_dependents_pending_as_skipped id g)
  unfolding mark_dependents_pending_as_skipped
  mark_dependents_keeps id g p =
      skip_all_keeps
        (filter (λ node. Set.contains id node.dependencies && is_pending (status node.id g))
          (Map.values g.nodes))
        g p
