-- ===== src/Runtime/Loop/Cancel.antt =====
-- The rounds in which nothing runs: a cancelled run, and a run that cannot go on.
use cli_agent.Common.{
  String, ◌≡◌, refl, sym, ap, ◌∙◌, ◌↔◌, inl, inr, Bool, true, false, ◌&&◌, Option, none, some, List,
  [], ◌∷◌, ◌++◌, arith, if◌then◌else◌, Bool-cases, Option-cases, ◌==◌, nat_eq, string_eq, eq_of_==,
  filter, any, all, All, Any, ◌⊎◌,
}
use text.Mathlib.TextEquality.{eq_iff}
use cli_agent.Common.Map
use cli_agent.Common.Map.{Map}
use cli_agent.Graph.{
  NodeStatus, pending, running, succeeded, failed, skipped, is_terminal, dependencies, AgentNode,
  ExecutionGraph, is_pending, status, set_status, pending_nodes, all_terminal,
}
use cli_agent.Graph.Valid.{IsValid}
use cli_agent.Runtime.{
  RuntimeEvent, graph_completed, is_stuck, is_failed, resolve_each, resolve_blocked_nodes,
}
use cli_agent.Runtime.Loop.{
  State, Tick, continues, ends, fails, deadlock, skip_cancelled, skip_with, unblocked, idle,
  completed,
}

-- Some node of the list has this id.
abbrev named : String → List AgentNode → Bool
named id nodes = any (λ node. node.id == id) nodes

abbrev skip_known : Option NodeStatus → Option NodeStatus
skip_known none = none
skip_known (some st) = some skipped

status-skip_cancelled :
    (id : String) (nodes : List AgentNode) (s : State)
    → status id (skip_cancelled nodes s).graph
      ≡ (if named id nodes then skip_known (status id s.graph) else status id s.graph)
unfolding skip_cancelled set_status
status-skip_cancelled id [] s = refl
status-skip_cancelled id (node ∷ rest) s = ground (
  arith,
  status-skip_cancelled id rest (skip_with "cancel_requested" node.id s),
  Map.get-modify {V = NodeStatus} node.id id (λ _. skipped) s.graph.statuses,
  eq_iff node.id id,
  Option-cases (status id s.graph),
)

named-filter :
    (g : ExecutionGraph) (id : String) (nodes : List AgentNode)
    → named id (filter (λ node. is_pending (status node.id g)) nodes)
      ≡ (is_pending (status id g) && named id nodes)
named-filter g id [] = ground arith
named-filter g id (node ∷ rest) = elim (Bool-cases (node.id == id)) [
  | inl same ↦
      let e = eq_of_== node.id id same in
      ground (arith, named-filter g id rest, same, ap (λ i. is_pending (status i g)) e)
  | inr other ↦ ground (arith, named-filter g id rest, other)
]

named-values :
    (id : String) (nodes : Map String AgentNode) (node : AgentNode)
    → node.id ≡ id
    → Map.get id nodes ≡ some node
    → named id (Map.values nodes) ≡ true
unfolding Map.get
named-values id [] node own e = cc
named-values id ((j, n) ∷ nodes) node own e = elim (Bool-cases (j == id)) [
  | inl here ↦ ground (arith, e, here, own, eq_iff n.id id)
  | inr later ↦ ground (arith, later, named-values id nodes node own (ground (arith, e, later)))
]

-- Exactly the pending nodes are visited.
named-pending_nodes :
    (g : ExecutionGraph) (id : String)
    → IsValid g
    → named id (pending_nodes g) ≡ is_pending (status id g)
unfolding pending_nodes
named-pending_nodes g id valid = elim (Option-cases (Map.get id g.nodes)) [
  | inl missing ↦ ground (
    arith,
    named-filter g id (Map.values g.nodes),
    valid.tracked id,
    missing,
    Option-cases (status id g),
  )
  | inr (node, found) ↦ ground (
    arith,
    named-filter g id (Map.values g.nodes),
    named-values id g.nodes node (valid.stored id node found) found,
  )
]

-- A cancelled run in which nothing is running ends in this round: every node that was pending is
-- skipped, and the status of every other node stays as it was.
pub idle_cancelled :
    (tick : Tick) (s : State)
    → IsValid s.graph
    → tick.cancel ≡ true
    → (s' : State) × (idle tick s ≡ ends s')
      × ((id : String)
          → status id s'.graph
            ≡ (if is_pending (status id s.graph) then some skipped else status id s.graph))
unfolding idle
idle_cancelled tick s valid cancel = (
  record (skip_cancelled (pending_nodes s.graph) s) {
    events = (skip_cancelled (pending_nodes s.graph) s).events ++ graph_completed ∷ [];
  },
  rw cancel,
  λ id. ground (
    arith,
    status-skip_cancelled id (pending_nodes s.graph) s,
    named-pending_nodes s.graph id valid,
    Option-cases (status id s.graph),
  ),
)

-- Whether `resolve_blocked_nodes` makes progress.
resolve_each_moved :
    (nodes : List AgentNode) (events : List RuntimeEvent) (g : ExecutionGraph)
    → (resolve_each nodes true events g).1 ≡ true
unfolding resolve_each
resolve_each_moved [] events g = refl
resolve_each_moved (node ∷ rest) events g = elim (Bool-cases (is_stuck g node)) [
  | inl stuck ↦ rw stuck (resolve_each_moved rest _ _)
  | inr free ↦ rw free (resolve_each_moved rest events g)
]

resolve_each_progress :
    (nodes : List AgentNode) (events : List RuntimeEvent) (g : ExecutionGraph)
    → (resolve_each nodes false events g).1 ≡ any (is_stuck g) nodes
unfolding resolve_each
resolve_each_progress [] events g = refl
resolve_each_progress (node ∷ rest) events g = elim (Bool-cases (is_stuck g node)) [
  | inl stuck ↦ rw stuck (resolve_each_moved rest _ _)
  | inr free ↦ rw free (resolve_each_progress rest events g)
]

-- In the program's own tests: some node has no final status, and no pending node is stuck.
idle-deadlock :
    (tick : Tick) (s : State)
    → tick.cancel ≡ false
    → tick.pause ≡ false
    → ((s' : State) × (idle tick s ≡ fails deadlock s'))
      ↔ ((all_terminal s.graph ≡ false) × (any (is_stuck s.graph) (pending_nodes s.graph) ≡ false))
unfolding idle resolve_blocked_nodes
idle-deadlock tick s go awake = elim (Bool-cases (all_terminal s.graph)) [
  | inl over ↦ (λ (s', e). cc (ends_over over, e), λ h. cc (h.0))
  | inr open' ↦ elim (Bool-cases (resolve_blocked_nodes s.graph).1) [
    | inl moved ↦ (λ (s', e). cc (moves open' moved, e), λ h. cc (h.1, progress, moved))
    | inr stuck ↦
        (λ _. (open', sym progress ∙ stuck), λ _. (unblocked s, rw (go, awake, open', stuck)))
  ]
]
  where
    progress : (resolve_blocked_nodes s.graph).1 ≡ any (is_stuck s.graph) (pending_nodes s.graph)
    progress = resolve_each_progress (pending_nodes s.graph) [] s.graph

    ends_over : all_terminal s.graph ≡ true → idle tick s ≡ completed s
    ends_over over = rw (go, awake, over)

    moves :
        all_terminal s.graph ≡ false
        → (resolve_blocked_nodes s.graph).1 ≡ true
        → idle tick s ≡ continues (unblocked s)
    moves open' moved = rw (go, awake, open', moved)

-- A status that is not final.
abbrev pub IsOpen : NodeStatus → Type 0
IsOpen st = (st ≡ pending) ⊎ (st ≡ running)

-- A dependency of the node is not final yet, or all of them have succeeded.
abbrev pub IsFree : ExecutionGraph → AgentNode → Type 0
IsFree g node =
    Any (λ d. IsOpen d.1) (dependencies g node) ⊎ All (λ d. d.1 ≡ succeeded) (dependencies g node)

terminal-IsOpen : (st : NodeStatus) → (is_terminal st ≡ false) ↔ IsOpen st
unfolding is_terminal
terminal-IsOpen pending = ((λ _. inl refl), λ _. refl)
terminal-IsOpen running = ((λ _. inr refl), λ _. refl)
terminal-IsOpen succeeded = ((λ h. cc h), λ h. elim h [ inl e ↦ cc e | inr e ↦ cc e ])
terminal-IsOpen failed = ((λ h. cc h), λ h. elim h [ inl e ↦ cc e | inr e ↦ cc e ])
terminal-IsOpen skipped = ((λ h. cc h), λ h. elim h [ inl e ↦ cc e | inr e ↦ cc e ])

all_terminal-Any {ℓ} :
    {A : Type ℓ} (st : A → NodeStatus) (xs : List A)
    → (all (λ x. is_terminal (st x)) xs ≡ false) ↔ Any (λ x. IsOpen (st x)) xs
all_terminal-Any st [] = ((λ h. cc h), λ h. absurd h)
all_terminal-Any st (x ∷ xs) =
    let (to, from) = terminal-IsOpen (st x) in
    let (tos, froms) = all_terminal-Any st xs in
    elim (Bool-cases (is_terminal (st x))) [
      | inl final ↦ (
        λ h. inr (tos (ground (arith, h, final))),
        λ h. elim h [ inl o ↦ cc (final, from o) | inr later ↦ ground (arith, final, froms later) ],
      )
      | inr not_final ↦ ((λ h. inl (to not_final)), λ h. rw not_final refl)
    ]

-- Final and not failed is succeeded.
succeeded-all :
    (deps : List (String × NodeStatus))
    → all (λ d. is_terminal d.1) deps ≡ true
    → any (λ d. is_failed d.1) deps ≡ false
    → All (λ d. d.1 ≡ succeeded) deps
unfolding is_terminal
succeeded-all [] h k = tt
succeeded-all ((dep, pending) ∷ rest) h k = cc h
succeeded-all ((dep, running) ∷ rest) h k = cc h
succeeded-all ((dep, succeeded) ∷ rest) h k = (refl, succeeded-all rest h k)
succeeded-all ((dep, failed) ∷ rest) h k = cc k
succeeded-all ((dep, skipped) ∷ rest) h k = cc k

succeeded-not_failed :
    (deps : List (String × NodeStatus))
    → All (λ d. d.1 ≡ succeeded) deps
    → any (λ d. is_failed d.1) deps ≡ false
succeeded-not_failed [] h = refl
succeeded-not_failed ((dep, st) ∷ rest) (e, h) = rw e (succeeded-not_failed rest h)

-- The two tests of `is_stuck` on the dependencies.
stuck-free_iff :
    (deps : List (String × NodeStatus))
    → ((all (λ d. is_terminal d.1) deps && any (λ d. is_failed d.1) deps) ≡ false)
      ↔ (Any (λ d. IsOpen d.1) deps ⊎ All (λ d. d.1 ≡ succeeded) deps)
stuck-free_iff deps =
    let (to, from) = all_terminal-Any (λ d. d.1) deps in
    elim (Bool-cases (all (λ d. is_terminal d.1) deps)) [
      | inr waits ↦ ((λ _. inl (to waits)), λ _. rw waits refl)
      | inl final ↦ (
        λ h. inr (succeeded-all deps final (ground (arith, h, final))),
        λ h. elim h [
          | inl o ↦ cc (final, from o)
          | inr fine ↦ ground (arith, succeeded-not_failed deps fine)
        ],
      )
    ]

is_stuck-IsFree :
    (g : ExecutionGraph) (node : AgentNode) → (is_stuck g node ≡ false) ↔ IsFree g node
unfolding is_stuck
is_stuck-IsFree g node = stuck-free_iff (dependencies g node)

any-All_iff :
    (g : ExecutionGraph) (nodes : List AgentNode)
    → (any (is_stuck g) nodes ≡ false) ↔ All (IsFree g) nodes
any-All_iff g [] = ((λ _. tt), λ _. refl)
any-All_iff g (node ∷ rest) =
    let (to, from) = is_stuck-IsFree g node in
    let (tos, froms) = any-All_iff g rest in
    (
      (λ h. (to (ground (arith, h)), tos (ground (arith, h)))),
      (λ h. ground (arith, from h.0, froms h.1)),
    )

-- A run that is neither cancelled nor paused and in which nothing is running ends with the error
-- of a deadlock exactly where some status is pending or running, and every pending node has a
-- dependency that is pending or running, or has only dependencies that succeeded.
pub idle_deadlock_iff :
    (tick : Tick) (s : State)
    → tick.cancel ≡ false
    → tick.pause ≡ false
    → ((s' : State) × (idle tick s ≡ fails deadlock s'))
      ↔ (Any IsOpen (Map.values s.graph.statuses) × All (IsFree s.graph) (pending_nodes s.graph))
unfolding all_terminal
idle_deadlock_iff tick s go awake =
    let (to, from) = idle-deadlock tick s go awake in
    let (open_to, open_from) = all_terminal-Any (λ st. st) (Map.values s.graph.statuses) in
    let (free_to, free_from) = any-All_iff s.graph (pending_nodes s.graph) in
    ((λ h. let (o, f) = to h in (open_to o, free_to f)), (λ h. from (open_from h.0, free_from h.1)))
