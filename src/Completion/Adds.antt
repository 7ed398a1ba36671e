-- ===== src/Completion/Adds.antt =====
-- The nodes that the callback adds without a plan: each follows the node that ended, or one added
-- before it, and stands one or two levels below.
use cli_agent.Common.{
  ℕ, String, string_eq, ◌≡◌, refl, ◌⊎◌, inl, inr, Bool, true, false, not, ◌&&◌, ◌||◌, none, List,
  [], ◌∷◌, ◌++◌, arith, ltb, ◌==◌, ==_refl, if◌then◌else◌, Bool-cases, All,
}
use cli_agent.Common.Set
use cli_agent.Common.Texts.{trim, contains_text, starts_with, count_words}
use cli_agent.Types.{role_eq, reviewer, validator, ValidationConfig, has_test}
use cli_agent.Graph.{AgentNode}
use cli_agent.Runtime.{NodeExecutionResult}
use cli_agent.GraphBuilder.{Settings, normalize_dynamic_nodes_for_runtime}
use cli_agent.GraphBuilder.Admits.{normalize-SamePlace}
use cli_agent.Completion.{
  Run, deeper, inject_git_and_summarize, parse_fix_iteration, checkpoint, review_fixes,
  validation_fixes, after_validation, replan, follow_ups, plans, plan_of, on_completed,
}

-- Every dependency is known, and the depth is one or two more, as a `u8`.
abbrev pub Follows : ℕ → List String → List AgentNode → Type 0
Follows depth known [] = Unit
Follows depth known (node ∷ rest) =
    All (λ dep. Set.contains dep known ≡ true) node.dependencies
    × ((node.depth ≡ deeper 1 depth) ⊎ (node.depth ≡ deeper 2 depth))
    × Follows depth (node.id ∷ known) rest

All-wider :
    (known wider deps : List String)
    → ((x : String) → Set.contains x known ≡ true → Set.contains x wider ≡ true)
    → All (λ dep. Set.contains dep known ≡ true) deps
    → All (λ dep. Set.contains dep wider ≡ true) deps
All-wider known wider [] w all = tt
All-wider known wider (d ∷ deps) w (c, all) = (w d c, All-wider known wider deps w all)

module _ (depth : ℕ) where
  Follows-wider :
      (known wider : List String) (nodes : List AgentNode)
      → ((x : String) → Set.contains x known ≡ true → Set.contains x wider ≡ true)
      → Follows depth known nodes
      → Follows depth wider nodes
  unfolding Set.contains
  Follows-wider known wider [] w f = tt
  Follows-wider known wider (node ∷ rest) w (deps, d, f) = (
    All-wider known wider node.dependencies w deps,
    d,
    Follows-wider (node.id ∷ known) (node.id ∷ wider) rest (λ x c. ground (arith, c, w x)) f,
  )

  Follows-append :
      (known : List String) (xs ys : List AgentNode)
      → Follows depth known xs
      → Follows depth known ys
      → Follows depth known (xs ++ ys)
  unfolding Set.contains
  Follows-append known [] ys f g = g
  Follows-append known (x ∷ xs) ys (deps, d, f) g = (
    deps,
    d,
    Follows-append (x.id ∷ known) xs ys f
        (Follows-wider known (x.id ∷ known) ys (λ y c. ground (arith, c)) g),
  )

self : (id : String) (known : List String) → Set.contains id (id ∷ known) ≡ true
unfolding Set.contains
self id known = rw (==_refl id)

module _ (node : AgentNode) where
  -- The node that ended is known.
  abbrev base : List String
  base = node.id ∷ []

  checkpoint-Follows : (run : Run) → Follows node.depth base (checkpoint run node)
  unfolding checkpoint
  checkpoint-Follows run = elim (Bool-cases (ltb 20 (count_words false run.task))) [
    | inl long ↦ rw long ((self node.id [], tt), inl refl, tt)
    | inr short ↦ rw short tt
  ]

  inject-Follows :
      (config : ValidationConfig) (run_id : String)
      → Follows node.depth base (inject_git_and_summarize config node run_id)
  unfolding inject_git_and_summarize
  inject-Follows config run_id = elim (Bool-cases config.git_auto_commit) [
    | inl git ↦ rw git ((self node.id [], tt), inl refl, ((self _ base, tt), inr refl, tt))
    | inr plain ↦ rw plain ((self node.id [], tt), inl refl, tt)
  ]

  module _ (result : NodeExecutionResult) where
    review_fixes-Follows : Follows node.depth base (review_fixes node result)
    unfolding review_fixes
    review_fixes-Follows =
        elim (Bool-cases (
          node.role == reviewer
          && result.succeeded
          && contains_text "REQUEST_CHANGES" result.output
          && ltb (parse_fix_iteration node.id) 3)) [
            | inl asked ↦
                rw asked ((self node.id [], tt), inl refl, ((self _ base, tt), inr refl, tt))
            | inr other ↦ rw other tt
          ]

    validation_fixes-Follows :
        (config : ValidationConfig) → Follows node.depth base (validation_fixes config node result)
    unfolding validation_fixes
    validation_fixes-Follows config =
        elim (Bool-cases (node.role == validator && not result.succeeded)) [
          | inl bad ↦
              elim (Bool-cases (ltb (parse_fix_iteration node.id) config.max_fix_iterations)) [
                | inl again ↦
                    rw (bad, again)
                      ((self node.id [], tt), inl refl, ((self _ base, tt), inr refl, tt))
                | inr last ↦ rw (bad, last) ((self node.id [], tt), inl refl, tt)
              ]
          | inr other ↦ rw other tt
        ]

    module _ (run : Run) where
      replan-Follows : Follows node.depth base (replan run node result)
      unfolding replan
      replan-Follows =
          elim (Bool-cases (
            node.role == reviewer
            && result.succeeded
            && ltb node.depth 4
            && starts_with "INCOMPLETE" (trim result.output))) [
              | inl asked ↦ rw asked ((self node.id [], tt), inl refl, tt)
              | inr other ↦ rw other tt
            ]

      after_validation-Follows : Follows node.depth base (after_validation run node result)
      unfolding after_validation
      after_validation-Follows =
          let finish = inject-Follows run.settings.validation_config run.run_id in
          elim (Bool-cases (node.role == validator && result.succeeded)) [
            | inr other ↦ rw other tt
            | inl good ↦
                elim (Bool-cases (
                  contains_text "lint" node.instructions
                  || not (contains_text "test" node.instructions)
                    && not (contains_text "git" node.instructions))) [
                      | inl lint ↦ elim (Bool-cases (contains_text "external" node.instructions)) [
                        | inl external ↦ elim (Bool-cases run.analysis_has_test) [
                          | inl tests ↦
                              rw (good, lint, external, tests) ((self node.id [], tt), inl refl, tt)
                          | inr no_tests ↦ rw (good, lint, external, no_tests) finish
                        ]
                        | inr local ↦ elim (Bool-cases (has_test run.settings.validation_config)) [
                          | inl tests ↦
                              rw (good, lint, local, tests) ((self node.id [], tt), inl refl, tt)
                          | inr no_tests ↦ rw (good, lint, local, no_tests) finish
                        ]
                      ]
                      | inr no_lint ↦ elim (Bool-cases (contains_text "test" node.instructions)) [
                        | inl test ↦ rw (good, no_lint, test) finish
                        | inr neither ↦ rw (good, no_lint, neither) tt
                      ]
                    ]
          ]

      follow_ups-Follows : Follows node.depth base (follow_ups run node result)
      unfolding follow_ups
      follow_ups-Follows =
          Follows-append node.depth base _ (replan run node result)
            (Follows-append node.depth base _ (after_validation run node result)
              (Follows-append node.depth base (review_fixes node result) _ review_fixes-Follows
                (validation_fixes-Follows run.settings.validation_config))
              after_validation-Follows)
            replan-Follows

-- The normalization of the policies moves no node.
Follows-normal :
    (settings : Settings) (depth : ℕ) (known : List String) (nodes : List AgentNode)
    → Follows depth known nodes
    → Follows depth known (normalize_dynamic_nodes_for_runtime settings nodes)
Follows-normal settings depth known [] f = tt
Follows-normal settings depth known (n ∷ rest) (deps, d, f) =
    let same = normalize-SamePlace settings n in
    (
      rw (same.same_dependencies) deps,
      rw (same.same_depth) d,
      rw (same.same_id) (Follows-normal settings depth (n.id ∷ known) rest f),
    )

Follows-when :
    (depth : ℕ) (known : List String) (b : Bool) (xs : List AgentNode)
    → Follows depth known xs
    → Follows depth known (if b then xs else [])
Follows-when depth known true xs f = f
Follows-when depth known false xs f = tt

-- Where no plan was read, every node of the answer depends only on the node that ended and on nodes
-- before it in the answer, stands one or two levels below the node that ended (as a `u8`), and no
-- node is skipped.
pub on_completed-Follows :
    (run : Run) (node : AgentNode) (result : NodeExecutionResult)
    → ((plans node result ≡ true) → plan_of run result.output ≡ none)
    → Follows node.depth (node.id ∷ []) (on_completed run node result).0
      × ((on_completed run node result).1 ≡ [])
unfolding on_completed
on_completed-Follows run node result no_plan = elim (Bool-cases (plans node result)) [
  | inl planner_done ↦ rw (planner_done, no_plan planner_done) (all, refl)
  | inr other ↦ rw other (
    Follows-normal run.settings node.depth (node.id ∷ []) _ (follow_ups-Follows node result run),
    refl,
  )
]
  where
    all : Follows node.depth (node.id ∷ []) (
        normalize_dynamic_nodes_for_runtime run.settings
          ((if plans node result then checkpoint run node else []) ++ follow_ups run node result))
    all = Follows-normal run.settings node.depth (node.id ∷ []) _ (
        Follows-append node.depth (node.id ∷ [])
          (if plans node result then checkpoint run node else []) _
          (Follows-when node.depth (node.id ∷ []) (plans node result) _
            (checkpoint-Follows node run))
          (follow_ups-Follows node result run))
