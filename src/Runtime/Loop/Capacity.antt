-- ===== src/Runtime/Loop/Capacity.antt =====
-- How many nodes run at once.
use cli_agent.Common.{
  ℕ, ◌≤◌, String, ◌≡◌, refl, subst, inl, inr, false, not, ◌&&◌, ◌||◌, Option, none, some, List, [],
  ◌∷◌, arith, Bool-cases, nat_eq, string_eq, length,
}
use cli_agent.Common.Set
use cli_agent.Graph.{pending_nodes, all_terminal, ExecutionGraph}
use cli_agent.Runtime.{resolve_blocked_nodes}
use cli_agent.Runtime.Loop.{
  Task, State, initial, Launch, launched, stopped, Joined, finished, panicked, Tick, Round,
  continues, ends, fails, take_task, after_join, after_launch, after_round, is_nil, on_execution,
  release, join_next, idle, launches, round, run_rounds,
}
use cli_agent.Runtime.Loop.Books.{
  Books, task_ids, Launched, launch-Books, Takes, take_task-Takes, Books-release, SameBooks,
  skip_cancelled-SameBooks, on_execution-SameBooks,
}

module _ (cap : ℕ) where
  -- The books of the state that a round goes on with or ends in.
  abbrev pub Kept : Round → Type 0
  Kept (continues s) = Books cap s.in_flight s.tasks
  Kept (ends s) = Books cap s.in_flight s.tasks
  Kept (fails e s) = Unit

  SameBooks-Kept : (s : State) (r : Round) → Books cap s.in_flight s.tasks → SameBooks s r → Kept r
  SameBooks-Kept s (continues s') b (f, t) = rw (f, t) b
  SameBooks-Kept s (ends s') b (f, t) = rw (f, t) b
  SameBooks-Kept s (fails e s') b h = tt

  join_next-Kept :
      (tick : Tick) (s : State) → Books cap s.in_flight s.tasks → Kept (join_next tick s)
  unfolding join_next release
  join_next-Kept tick s b =
      joined tick.joined (take_task tick.index s.tasks)
        (take_task-Takes tick.index s.tasks b.tasks_once)
    where
      joined :
          (j : Joined) (r : Option (Task × List Task))
          → Takes s.tasks r
          → Kept (after_join tick.callback s j r)
      joined j none h = b
      joined (panicked e) (some (t, others)) h = tt
      joined (finished x) (some (t, others)) h =
          SameBooks-Kept (release t.node others s)
            (on_execution t.node x tick.callback (release t.node others s))
            (Books-release cap t.node others s t b h)
            (on_execution-SameBooks t.node x tick.callback (release t.node others s))

  idle-Kept : (tick : Tick) (s : State) → Books cap s.in_flight s.tasks → Kept (idle tick s)
  unfolding idle
  idle-Kept tick s b = elim (Bool-cases tick.cancel) [
    | inl cancel ↦ rw cancel (
        let (f, t) = skip_cancelled-SameBooks s (pending_nodes s.graph) s (refl, refl) in
        rw (f, t) b)
    | inr go ↦ elim (Bool-cases tick.pause) [
      | inl pause ↦ rw (go, pause) b
      | inr awake ↦ elim (Bool-cases (all_terminal s.graph)) [
        | inl over ↦ rw (go, awake, over) b
        | inr open' ↦ elim (Bool-cases (resolve_blocked_nodes s.graph).1) [
          | inl moved ↦ rw (go, awake, open', moved) b
          | inr stuck ↦ rw (go, awake, open', stuck) tt
        ]
      ]
    ]
  ]

  launches-Launched :
      (tick : Tick) (s : State) → Books cap s.in_flight s.tasks → Launched cap (launches cap tick s)
  launches-Launched tick s b = elim (Bool-cases (tick.cancel || tick.pause)) [
    | inl off ↦ rw off b
    | inr on ↦ rw on (launch-Books cap cap false s b)
  ]

  round-Kept : (tick : Tick) (s : State) → Books cap s.in_flight s.tasks → Kept (round cap tick s)
  unfolding round
  round-Kept tick s b = after (launches cap tick s) (launches-Launched tick s b)
    where
      after : (l : Launch) → Launched cap l → Kept (after_launch tick l)
      after (stopped e s') h = tt
      after (launched any_launched s') h =
          elim (Bool-cases (is_nil s'.in_flight && not any_launched)) [
            | inl none_runs ↦ rw none_runs (idle-Kept tick s' h)
            | inr busy ↦ rw busy (join_next-Kept tick s' h)
          ]

  run_rounds-Kept :
      (ticks : List Tick) (s : State)
      → Books cap s.in_flight s.tasks
      → Kept (run_rounds cap ticks s)
  unfolding run_rounds
  run_rounds-Kept [] s b = b
  run_rounds-Kept (tick ∷ ticks) s b =
      after (round cap tick s) (round-Kept tick s b) (run_rounds-Kept ticks)
    where
      after :
          (r : Round)
          → Kept r
          → ((s' : State) → Books cap s'.in_flight s'.tasks → Kept (run_rounds cap ticks s'))
          → Kept (after_round (run_rounds cap ticks) r)
      after (continues s') h ih = ih s' h
      after (ends s') h ih = h
      after (fails e s') h ih = tt

-- Whatever the tasks, the callback and the flags do: in every state that the loop reaches from a
-- fresh start, no more tasks are running than the global limit allows, no node runs twice at a
-- time, and the set of running ids is exactly that of the running tasks.
pub run_rounds_capacity :
    (cap : ℕ) (g : ExecutionGraph) (ticks : List Tick) (s : State)
    → run_rounds cap ticks (initial g) ≡ continues s
    → (length s.tasks ≤ cap)
      × Set.Distinct (task_ids s.tasks)
      × ((id : String) → Set.contains id s.in_flight ≡ Set.contains id (task_ids s.tasks))
unfolding initial Set.contains
run_rounds_capacity cap g ticks s e =
    let b : Books cap s.in_flight s.tasks =
      (subst (Kept cap) e (run_rounds-Kept cap ticks (initial g) start)) in
    (omega (arith, b.within, b.counted), b.tasks_once, b.same)
  where
    start : Books cap [] []
    start = record {
      within = omega arith;
      once = tt;
      tasks_once = tt;
      same = λ id. refl;
      counted = refl;
    }
