-- ===== src/Subtasks/Accepts.antt =====
-- The plans that `validate_subtask_plan` accepts, described without the loops of the code.
use cli_agent.Common.{
  ℕ, ◌≤◌, ◌<◌, String, string_eq, nat_eq, ◌≡◌, ◌≢◌, ◌↔◌, refl, sym, ap, ◌∙◌, Bool, true, false, not,
  ◌||◌, ◌&&◌, Option, none, some, List, [], ◌∷◌, length, if◌then◌else◌, ◌==◌, eq_of_==, ==_refl,
  ltb, arith, inl, inr, All, Bool-cases,
}
use cli_agent.Common.Map
use cli_agent.Common.Map.{Map}
use cli_agent.Common.Set
use cli_agent.Common.Texts.{trim}
use cli_agent.Types.{SubtaskDefinition, SubtaskPlan}
use cli_agent.Subtasks.Marks.{contains-inner_dependencies, keys-adjacency, neighbours-adjacency}
use cli_agent.Subtasks.Terminates.{find_cycle-adjacency_total}
use cli_agent.Subtasks.Starts.{Ranks, key_of_neighbour, find_cycle-Ranks}
use cli_agent.Subtasks.Ranked.{find_cycle-finished}
use cli_agent.Subtasks.{
  is_blank, check_subtasks, subtask_ids, check_dependencies, check_all_dependencies, adjacency,
  PlanError, no_subtasks, too_many, Mark, SearchEnd, finished, cyclic, find_cycle, verdict,
  validate_subtask_plan,
}

-- A subtask has an id, and instructions or a description.
abbrev pub IsFilled : SubtaskDefinition → Type 0
IsFilled s = (is_blank s.id ≡ false) × ((is_blank s.instructions && is_blank s.description) ≡ false)

-- Ids that are not among the ones before, nor twice among themselves.
abbrev pub AreNew : List String → List String → Type 0
AreNew seen [] = Unit
AreNew seen (id ∷ ids) = (Set.contains id seen ≡ false) × AreNew (id ∷ seen) ids

-- One more test before the rest of the loop's body.
unless {ℓ} :
    {P : Type ℓ} (b : Bool) (e : PlanError) (r : Option PlanError)
    → (r ≡ none) ↔ P
    → ((if b then some e else r) ≡ none) ↔ ((b ≡ false) × P)
unless true e r iff = ((λ h. cc h), λ h. cc (h.0))
unless false e r iff = ((λ h. (refl, iff.0 h)), λ h. iff.1 h.1)

-- One more check before the rest.
first {ℓ κ} :
    {P : Type ℓ} {Q : Type κ} (a b : Option PlanError)
    → (a ≡ none) ↔ Q
    → (b ≡ none) ↔ P
    → (elim a [ some e ↦ some e | none ↦ b ] ≡ none) ↔ (Q × P)
first none b one iff = ((λ h. (one.0 refl, iff.0 h)), λ h. iff.1 h.1)
first (some e) b one iff = ((λ h. cc h), λ h. cc (one.1 h.0))

verdict-finished :
    (r : Option SearchEnd)
    → (verdict r ≡ none) ↔ ((later : Map String Mark) × (r ≡ some (finished later)))
verdict-finished none = ((λ h. cc h), λ h. cc (h.1))
verdict-finished (some (cyclic id)) = ((λ h. cc h), λ h. cc (h.1))
verdict-finished (some (finished later)) = ((λ h. (later, refl)), λ h. refl)

check_subtasks-none :
    (seen : List String) (subtasks : List SubtaskDefinition)
    → (check_subtasks seen subtasks ≡ none)
      ↔ (All IsFilled subtasks × AreNew seen (subtask_ids subtasks))
unfolding check_subtasks
check_subtasks-none seen [] = (λ e. (tt, tt), λ h. refl)
check_subtasks-none seen (s ∷ rest) =
    let (to, from) =
      unless _ _ _ (unless _ _ _ (unless _ _ _ (check_subtasks-none (s.id ∷ seen) rest))) in
    (
      (λ e.
          let (filled, (text, (new, (all, news)))) = to e in (((filled, text), all), (new, news))),
      (λ h.
          let (((filled, text), all), (new, news)) = h in
          from (filled, (text, (new, (all, news))))),
    )

neither : (a b : Bool) → ((not a && not b) ≡ false) ↔ ((a || b) ≡ true)
neither a b = ground arith

module _ (static_node_ids known : List String) where
  -- A dependency, without the blanks around it, is a node of the graph or a subtask of the plan.
  abbrev pub IsKnown : String → Type 0
  IsKnown dep =
      (is_blank dep ≡ false)
      × ((Set.contains (trim dep) static_node_ids || Set.contains (trim dep) known) ≡ true)

  check_dependencies-none :
      (id : String) (deps : List String)
      → (check_dependencies static_node_ids known id deps ≡ none) ↔ All IsKnown deps
  unfolding check_dependencies
  check_dependencies-none id [] = (λ e. tt, λ h. refl)
  check_dependencies-none id (dep ∷ deps) =
      let (to, from) = unless _ _ _ (unless _ _ _ (check_dependencies-none id deps)) in
      (
        (λ e. let (text, (found, all)) = to e in ((text, (neither _ _).0 found), all)),
        (λ h. let ((text, found), all) = h in from (text, ((neither _ _).1 found, all))),
      )

  check_all_dependencies-none :
      (subtasks : List SubtaskDefinition)
      → (check_all_dependencies static_node_ids known subtasks ≡ none)
        ↔ All (λ s. All IsKnown s.dependencies) subtasks
  unfolding check_all_dependencies
  check_all_dependencies-none [] = (λ e. tt, λ h. refl)
  check_all_dependencies-none (s ∷ rest) =
      first _ _ (check_dependencies-none s.id s.dependencies) (check_all_dependencies-none rest)

module _ (known : List String) (rank : String → ℕ) where
  -- A subtask ranks above those of its dependencies that are ids of subtasks as they are written,
  -- blanks included.
  abbrev pub RanksInner : SubtaskDefinition → Type 0
  RanksInner s =
      (d : String)
      → Set.contains d s.dependencies ≡ true
      → Set.contains d known ≡ true
      → rank d < rank s.id

  Ranks-inner :
      (subtasks : List SubtaskDefinition)
      → All RanksInner subtasks
      → Ranks rank (adjacency known subtasks)
  unfolding Set.contains Map.get adjacency
  Ranks-inner [] all x d c = cc
  Ranks-inner (s ∷ rest) (r, all) x d c = elim (Bool-cases (s.id == x)) [
    | inl same ↦
        let c' =
          sym (contains-inner_dependencies known s.dependencies d)
          ∙ ap (Set.contains d) (sym (neighbours-adjacency known s rest x ∙ rw same))
          ∙ c in
        rw (← eq_of_== s.id x same) (r d (ground (arith, c')) (ground (arith, c')))
    | inr other ↦
        Ranks-inner rest all x d
          (ap (Set.contains d) (sym (neighbours-adjacency known s rest x ∙ rw other)) ∙ c)
  ]

  AreNew-absent :
      (seen ids : List String) (x : String)
      → AreNew seen ids
      → Set.contains x seen ≡ true
      → Set.contains x ids ≡ false
  unfolding Set.contains
  AreNew-absent seen [] x n c = refl
  AreNew-absent seen (id ∷ ids) x (new, n) c = elim (Bool-cases (id == x)) [
    | inl same ↦ cc (new, c, eq_of_== id x same)
    | inr other ↦ rw other (AreNew-absent (id ∷ seen) ids x n (rw other c))
  ]

  RanksInner-All :
      (seen : List String) (subtasks : List SubtaskDefinition)
      → AreNew seen (subtask_ids subtasks)
      → Ranks rank (adjacency known subtasks)
      → All RanksInner subtasks
  unfolding Set.contains
  RanksInner-All seen [] n r = tt
  RanksInner-All seen (s ∷ rest) (new, n) r = (head, RanksInner-All (s.id ∷ seen) rest n tail)
    where
      head : RanksInner s
      head d c k = r s.id d (
          ap (Set.contains d) (neighbours-adjacency known s rest s.id ∙ (rw (==_refl s.id)))
          ∙ contains-inner_dependencies known s.dependencies d
          ∙ (rw (c, k)))

      differs :
          (x : String)
          → Set.contains x (Map.keys (adjacency known rest)) ≡ true
          → (s.id == x) ≡ false
      differs x c = elim (Bool-cases (s.id == x)) [
        | inl same ↦ cc (
          AreNew-absent (s.id ∷ seen) (subtask_ids rest) x n (rw same refl),
          keys-adjacency known rest,
          c,
        )
        | inr other ↦ other
      ]

      tail : Ranks rank (adjacency known rest)
      tail x d c = r x d (
          ap (Set.contains d) (
            neighbours-adjacency known s rest x
            ∙ (rw (differs x (key_of_neighbour (adjacency known rest) x d c))))
          ∙ c)

module _ (plan : SubtaskPlan) (static_node_ids : List String) (max_subtasks : ℕ) where
  abbrev ids : List String
  ids = subtask_ids plan.subtasks

  -- What a plan has to meet: its size, its texts, distinct ids, dependencies that are there, and a
  -- ranking of the subtasks above their dependencies within the plan as they are written.
  abbrev pub IsAcceptable : Type 0
  IsAcceptable =
      (length plan.subtasks ≢ 0)
      × (length plan.subtasks ≤ max_subtasks)
      × All IsFilled plan.subtasks
      × AreNew [] ids
      × All (λ s. All (IsKnown static_node_ids ids) s.dependencies) plan.subtasks
      × ((rank : String → ℕ) × All (RanksInner ids rank) plan.subtasks)

  -- A plan is accepted exactly when it has at least one and at most the given number of subtasks,
  -- each with an id and a text, the ids differ, each dependency names, once the blanks around it are
  -- left out, a node of the graph or a subtask, and the subtasks can be ranked such that each stands
  -- above the subtasks whose ids are, blanks included, exactly among its dependencies. A dependency
  -- on a subtask that is written with blanks around it puts no condition on the ranking.
  pub validate_subtask_plan-none :
      (validate_subtask_plan plan static_node_ids max_subtasks ≡ none) ↔ IsAcceptable
  unfolding validate_subtask_plan
  validate_subtask_plan-none =
      let (to, from) = unless (length plan.subtasks == 0) no_subtasks _ (
        unless (ltb max_subtasks (length plan.subtasks))
          (too_many (length plan.subtasks) max_subtasks) _
          (first _ _ (check_subtasks-none [] plan.subtasks) (
            first _ _ (check_all_dependencies-none static_node_ids ids plan.subtasks)
              (verdict-finished (find_cycle (adjacency ids plan.subtasks)))))) in
      (
        (λ e.
            let (some_there, (few, ((filled, news), (deps, (later, found))))) = to e in
            (
              (λ zero_there. ground (arith, some_there, zero_there)),
              ground (arith, few),
              filled,
              news,
              deps,
              ordered news (find_cycle-Ranks _ later found),
            )),
        (λ h. from (
          ground (arith, h.0),
          (
            ground (arith, h.1),
            (
              (h.2, h.3),
              (
                h.4,
                find_cycle-finished _ h.5.0 (Ranks-inner ids h.5.0 plan.subtasks h.5.1)
                    (find_cycle-adjacency_total plan.subtasks),
              ),
            ),
          ),
        )),
      )
    where
      ordered :
          AreNew [] ids
          → ((rank : String → ℕ) × Ranks rank (adjacency ids plan.subtasks))
          → ((rank : String → ℕ) × All (RanksInner ids rank) plan.subtasks)
      ordered news (rank, r) = (rank, RanksInner-All ids rank [] plan.subtasks news r)
