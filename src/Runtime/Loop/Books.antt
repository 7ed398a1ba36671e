-- ===== src/Runtime/Loop/Books.antt =====
-- The books that the run loop keeps of its tasks: what each step does to them.
use cli_agent.Common.{
  ℕ, zero, suc, ◌≤◌, ◌<◌, String, ◌≡◌, refl, sym, ap, ◌∙◌, subst, inl, inr, Bool, true, false,
  Option, none, some, List, [], ◌∷◌, ◌++◌, map, arith, ltb, Bool-cases, Option-cases, ◌==◌, nat_eq,
  string_eq, ==_refl, eq_of_==, length, length-append,
}
use mathlib.Core.Bool.{false≢true}
use cli_agent.Common.Set
use cli_agent.Graph.{add_node, AgentNode, ExecutionGraph}
use cli_agent.Runtime.{Selection, chosen, nothing, aborted, select_next_node}
use cli_agent.Runtime.Attempts.{Execution, ok, err}
use cli_agent.Runtime.Loop.{
  Task, State, start_node, Launch, launched, stopped, launch, launch_next, Callback, answer, broken,
  Round, continues, ends, fails, skip_cancelled, put_back, take_task, drop_fallback,
  skip_superseded, add_dynamic, on_success, on_execution,
}
use cli_agent.Runtime.Loop.Ready.{select_next_node-chosen}

abbrev pub task_ids : List Task → List String
task_ids tasks = map (λ t. t.node.id) tasks

-- `running` holds the ids of the spawned tasks, once each, and no more than `cap`.
pub record Books (cap : ℕ) (in_flight : List String) (tasks : List Task) : Type 0 where
  pub within : length in_flight ≤ cap
  pub once : Set.Distinct in_flight
  pub tasks_once : Set.Distinct (task_ids tasks)
  pub same : (id : String) → Set.contains id in_flight ≡ Set.contains id (task_ids tasks)
  pub counted : length in_flight ≡ length tasks

task_ids-append :
    (tasks : List Task) (t : Task) → task_ids (tasks ++ t ∷ []) ≡ task_ids tasks ++ t.node.id ∷ []
task_ids-append [] t = refl
task_ids-append (x ∷ tasks) t = ap (λ l. x.node.id ∷ l) (task_ids-append tasks t)

module _ (cap : ℕ) where
  Books-start :
      (in_flight : List String) (tasks : List Task) (t : Task)
      → Books cap in_flight tasks
      → length in_flight < cap
      → Set.contains t.node.id in_flight ≡ false
      → Books cap (Set.insert t.node.id in_flight) (tasks ++ t ∷ [])
  unfolding Set.contains
  Books-start in_flight tasks t b room new = record {
    within = omega (arith, Set.length-insert-le t.node.id in_flight);
    once = Set.Distinct-insert t.node.id in_flight b.once;
    tasks_once = rw (task_ids-append tasks t) (
        Set.Distinct-append t.node.id (task_ids tasks) b.tasks_once (sym (b.same t.node.id) ∙ new));
    same = λ id. rw (task_ids-append tasks t) (
        ground (
          arith,
          Set.contains-insert t.node.id id in_flight,
          Set.contains-append id (task_ids tasks) (t.node.id ∷ []),
          b.same id,
        ));
    counted = omega (
      arith,
      Set.length-insert_new t.node.id in_flight new,
      length-append tasks (t ∷ []),
      b.counted,
    );
  }

  start_node-Books :
      (node : AgentNode) (s : State)
      → Books cap s.in_flight s.tasks
      → length s.in_flight < cap
      → Set.contains node.id s.in_flight ≡ false
      → Books cap (start_node node s).in_flight (start_node node s).tasks
  unfolding start_node
  start_node-Books node s b room new = Books-start s.in_flight s.tasks _ b room new

  abbrev pub Launched : Launch → Type 0
  Launched (launched any_launched s) = Books cap s.in_flight s.tasks
  Launched (stopped e s) = Unit

  pub launch-Books :
      (turns : ℕ) (any_launched : Bool) (s : State)
      → Books cap s.in_flight s.tasks
      → Launched (launch cap turns any_launched s)
  unfolding launch
  launch-Books zero any_launched s b = b
  launch-Books (suc turns) any_launched s b = elim (Bool-cases (ltb (length s.in_flight) cap)) [
    | inr full ↦ rw full b
    | inl room ↦ rw room (go (ground (arith, room)) (launch-Books turns true) _ refl)
  ]
    where
      go :
          length s.in_flight < cap
          → ((s' : State) → Books cap s'.in_flight s'.tasks → Launched (launch cap turns true s'))
          → (r : ExecutionGraph × Selection)
          → select_next_node s.in_flight s.running_by_role s.graph ≡ r
          → Launched
              (launch_next (λ node s'. launch cap turns true (start_node node s')) any_launched s r)
      go room ih (g, chosen node) e = ih (start_node node (record s { graph = g })) (
          start_node-Books node (record s { graph = g }) b room
            (select_next_node-chosen s.in_flight s.running_by_role s.graph g node e).0)
      go room ih (g, nothing) e = b
      go room ih (g, aborted id dep st) e = tt

-- What a finished task leaves behind.
abbrev pub Takes : List Task → Option (Task × List Task) → Type 0
Takes tasks none = Unit
Takes tasks (some (t, others)) =
    (task_ids others ≡ Set.remove t.node.id (task_ids tasks))
    × (Set.contains t.node.id (task_ids tasks) ≡ true)
    × (suc (length others) ≡ length tasks)

put_back-Takes :
    (x : Task) (tasks : List Task) (r : Option (Task × List Task))
    → Set.contains x.node.id (task_ids tasks) ≡ false
    → Takes tasks r
    → Takes (x ∷ tasks) (put_back x r)
unfolding Set.remove Set.contains
put_back-Takes x tasks none absent h = tt
put_back-Takes x tasks (some (t, others)) absent (ids, there, len) =
    elim (Bool-cases (x.node.id == t.node.id)) [
      | inl same ↦ absurd (
          false≢true (
            sym absent
            ∙ subst (λ id. Set.contains id (task_ids tasks) ≡ true)
                (sym (eq_of_== x.node.id t.node.id same)) there))
      | inr other ↦ (rw (other, ids), rw other there, omega (arith, len))
    ]

pub take_task-Takes :
    (index : ℕ) (tasks : List Task)
    → Set.Distinct (task_ids tasks)
    → Takes tasks (take_task index tasks)
unfolding take_task Set.remove Set.contains
take_task-Takes index [] d = tt
take_task-Takes zero (x ∷ tasks) (absent, d) =
    (rw (==_refl x.node.id, Set.remove_absent x.node.id (task_ids tasks) absent), rw ==_refl, refl)
take_task-Takes (suc index) (x ∷ tasks) (absent, d) =
    put_back-Takes x tasks (take_task index tasks) absent (take_task-Takes index tasks d)

module _ (cap : ℕ) where
  pub Books-release :
      (node : AgentNode) (others : List Task) (s : State) (t : Task)
      → Books cap s.in_flight s.tasks
      → Takes s.tasks (some (t, others))
      → Books cap (Set.remove t.node.id s.in_flight) others
  Books-release node others s t b (ids, there, len) = record {
    within = omega (arith, Set.length-remove-le t.node.id s.in_flight, b.within);
    once = Set.Distinct-remove t.node.id s.in_flight b.once;
    tasks_once = rw ids (Set.Distinct-remove t.node.id (task_ids s.tasks) b.tasks_once);
    same = λ id. rw ids (
        ground (
          arith,
          Set.contains-remove t.node.id id s.in_flight,
          Set.contains-remove t.node.id id (task_ids s.tasks),
          b.same id,
        ));
    counted = omega (
      arith,
      Set.length-remove_member t.node.id s.in_flight b.once (b.same t.node.id ∙ there),
      len,
      b.counted,
    );
  }

-- A round leaves the books of the running tasks alone.
abbrev pub SameBooks : State → Round → Type 0
SameBooks s (continues s') = (s'.in_flight ≡ s.in_flight) × (s'.tasks ≡ s.tasks)
SameBooks s (ends s') = (s'.in_flight ≡ s.in_flight) × (s'.tasks ≡ s.tasks)
SameBooks s (fails e s') = Unit

add_dynamic-SameBooks :
    (s : State) (from : String) (nodes : List AgentNode) (s' : State)
    → (s'.in_flight ≡ s.in_flight) × (s'.tasks ≡ s.tasks)
    → SameBooks s (add_dynamic from nodes s')
unfolding add_dynamic
add_dynamic-SameBooks s from [] s' h = h
add_dynamic-SameBooks s from (node ∷ rest) s' h = elim (Option-cases (add_node node s'.graph).1) [
  | inl fine ↦ rw (fine, add_dynamic) (add_dynamic-SameBooks s from rest _ h)
  | inr (e, failed) ↦ rw (failed, add_dynamic) tt
]

skip_superseded-SameBooks :
    (s : State) (ids : List String) (s' : State)
    → (s'.in_flight ≡ s.in_flight) × (s'.tasks ≡ s.tasks)
    → ((skip_superseded ids s').in_flight ≡ s.in_flight)
      × ((skip_superseded ids s').tasks ≡ s.tasks)
unfolding skip_superseded
skip_superseded-SameBooks s [] s' h = h
skip_superseded-SameBooks s (id ∷ rest) s' h =
    skip_superseded-SameBooks s rest _ (ground (arith, h.0), ground (arith, h.1))

pub skip_cancelled-SameBooks :
    (s : State) (nodes : List AgentNode) (s' : State)
    → (s'.in_flight ≡ s.in_flight) × (s'.tasks ≡ s.tasks)
    → ((skip_cancelled nodes s').in_flight ≡ s.in_flight)
      × ((skip_cancelled nodes s').tasks ≡ s.tasks)
unfolding skip_cancelled
skip_cancelled-SameBooks s [] s' h = h
skip_cancelled-SameBooks s (node ∷ rest) s' h = skip_cancelled-SameBooks s rest _ h

drop_fallback-SameBooks :
    (node : AgentNode) (s : State)
    → ((drop_fallback node s).in_flight ≡ s.in_flight) × ((drop_fallback node s).tasks ≡ s.tasks)
unfolding drop_fallback
drop_fallback-SameBooks node s = ground arith

pub on_execution-SameBooks :
    (node : AgentNode) (x : Execution) (callback : Callback) (s : State)
    → SameBooks s (on_execution node x callback s)
unfolding on_execution
on_execution-SameBooks node (err e) callback s = (refl, refl)
on_execution-SameBooks node (ok r) callback s = elim (Bool-cases r.succeeded) [
  | inr failed ↦ simp failed (refl, refl)
  | inl done ↦ simp done (answered callback)
]
  where
    answered : (c : Callback) → SameBooks s (on_success node r c s)
    answered (broken e) = tt
    answered (answer nodes ids) =
        add_dynamic-SameBooks s node.id nodes _
          (skip_superseded-SameBooks s ids _ (drop_fallback-SameBooks node _))
