-- ===== src/Subtasks/Ranked.antt =====
-- The search for a cycle reports none where the nodes are ranked above their neighbours.
use cli_agent.Common.{
  ℕ, zero, suc, ◌<◌, String, string_eq, ◌≡◌, ◌≢◌, refl, ap, true, Option, none, some, List, [], ◌∷◌,
  ◌==◌, eq_of_==, arith, inl, inr, Bool-cases, Option-cases,
}
use cli_agent.Common.Map
use cli_agent.Common.Map.{Map}
use cli_agent.Common.Set
use cli_agent.Subtasks.Marks.{mark_of, Mark-cases, contains-nth}
use cli_agent.Subtasks.{
  Mark, visiting, done, SearchEnd, finished, cyclic, nth, neighbours, search, go_on, search_all,
  all_pending, find_cycle,
}
use cli_agent.Subtasks.Starts.{Ranks, mark_of-all_pending}
use cli_agent.Subtasks.Frames.{nodes_of, OnStack, OnStack-pop, OnStack-push, OnStack-start}

module _ (adj : Map String (List String)) (rank : String → ℕ) (ranks : Ranks rank adj) where
  -- The ranks rise from the top of the stack down.
  abbrev Below : String → List (String × ℕ) → Type 0
  Below node [] = Unit
  Below node ((id, idx) ∷ rest) = (rank node < rank id) × Below node rest

  abbrev Climbs : List (String × ℕ) → Type 0
  Climbs [] = Unit
  Climbs ((node, idx) ∷ rest) = Below node rest × Climbs rest

  Below-lt :
      (node lower : String) (rest : List (String × ℕ))
      → rank lower < rank node
      → Below node rest
      → Below lower rest
  Below-lt node lower [] lt b = tt
  Below-lt node lower ((id, idx) ∷ rest) lt (l, b) = (omega arith, Below-lt node lower rest lt b)

  Below-contains :
      (node x : String) (rest : List (String × ℕ))
      → Below node rest
      → Set.contains x (nodes_of rest) ≡ true
      → rank node < rank x
  unfolding Set.contains
  Below-contains node x [] b c = cc
  Below-contains node x ((id, idx) ∷ rest) (l, b) c = elim (Bool-cases (id == x)) [
    | inl same ↦ rw (← eq_of_== id x same) l
    | inr other ↦ Below-contains node x rest b (ground (arith, c, other))
  ]

  -- No node of the stack is a neighbour of its top.
  off_stack :
      (node next : String) (idx : ℕ) (rest : List (String × ℕ))
      → Climbs ((node, idx) ∷ rest)
      → rank next < rank node
      → Set.contains next (nodes_of ((node, idx) ∷ rest)) ≡ true
      → ⊥
  unfolding Set.contains
  off_stack node next idx rest (b, _) lt c = elim (Bool-cases (node == next)) [
    | inl same ↦ omega (arith, ap rank (eq_of_== node next same))
    | inr other ↦ omega (arith, Below-contains node next rest b (ground (arith, c, other)))
  ]

  abbrev Avoids : Option SearchEnd → Type 0
  Avoids none = Unit
  Avoids (some (cyclic id)) = ⊥
  Avoids (some (finished later)) = OnStack [] later

  search-Avoids :
      (fuel : ℕ) (stack : List (String × ℕ)) (state : Map String Mark)
      → Climbs stack
      → OnStack stack state
      → Avoids (search adj fuel stack state)
  unfolding search
  search-Avoids zero stack state c on = tt
  search-Avoids (suc fuel) [] state c on = on
  search-Avoids (suc fuel) ((node, idx) ∷ rest) state (b, c) on =
      elim (Option-cases (nth idx (neighbours adj node))) [
        | inl e ↦
            rw (e, search)
              (search-Avoids fuel rest (Map.insert node done state) c
                (OnStack-pop node idx rest state on))
        | inr (next, e) ↦
            let lt = ranks node next (contains-nth idx _ next e) in
            rw (e, search)
              (elim (Mark-cases (mark_of next state)) [
                | inl p ↦
                    rw (p, search)
                      (search-Avoids fuel ((next, 0) ∷ (node, suc idx) ∷ rest)
                        (Map.insert next visiting state)
                        ((lt, Below-lt node next rest lt b), (b, c))
                        (OnStack-push node next idx rest state on))
                | inr (inl v) ↦ absurd (off_stack node next idx rest (b, c) lt (on next v))
                | inr (inr d) ↦
                    rw (d, search) (search-Avoids fuel ((node, suc idx) ∷ rest) state (b, c) on)
              ])
      ]

  go_on-Avoids :
      (next : Map String Mark → Option SearchEnd) (r : Option SearchEnd)
      → Avoids r
      → ((later : Map String Mark) → OnStack [] later → Avoids (next later))
      → Avoids (go_on adj next r)
  go_on-Avoids next none a k = tt
  go_on-Avoids next (some (cyclic id)) a k = a
  go_on-Avoids next (some (finished later)) a k = k later a

  search_all-Avoids :
      (fuel : ℕ) (starts : List String) (state : Map String Mark)
      → OnStack [] state
      → Avoids (search_all adj fuel starts state)
  unfolding search_all
  search_all-Avoids fuel [] state on = on
  search_all-Avoids fuel (start ∷ starts) state on = elim (Mark-cases (mark_of start state)) [
    | inl p ↦
        rw (p, search_all)
          (go_on-Avoids (search_all adj fuel starts) _
            (search-Avoids fuel ((start, 0) ∷ []) (Map.insert start visiting state) (tt, tt)
              (OnStack-start start state on))
            (λ later on'. search_all-Avoids fuel starts later on'))
    | inr (inl v) ↦ rw (v, search_all) (search_all-Avoids fuel starts state on)
    | inr (inr d) ↦ rw (d, search_all) (search_all-Avoids fuel starts state on)
  ]

  acyclic :
      (r : Option SearchEnd)
      → Avoids r
      → r ≢ none
      → (later : Map String Mark) × (r ≡ some (finished later))
  acyclic none a n = absurd (n refl)
  acyclic (some (cyclic id)) a n = absurd a
  acyclic (some (finished later)) a n = (later, refl)

  pub find_cycle-finished :
      find_cycle adj ≢ none → (later : Map String Mark) × (find_cycle adj ≡ some (finished later))
  unfolding find_cycle
  find_cycle-finished n =
      acyclic (find_cycle adj)
        (search_all-Avoids _ (Map.keys adj) (all_pending (Map.keys adj))
          (λ x v. cc (v, mark_of-all_pending (Map.keys adj) x)))
        n
