-- ===== src/RunControl/Change.antt =====
-- What one request does to the record of a run.
use cli_agent.Common.{
  String, string_eq, ◌≡◌, refl, ap, ◌∙◌, Bool, false, some, [], ◌∷◌, ◌++◌, ◌==◌, ==_refl, arith,
  inl, inr, ◌⊎◌, Bool-cases, Option-cases, eq_of_==,
}
use cli_agent.Common.Map
use cli_agent.RunControl.{RunStatus, Entry, RunRecord, Orchestrator, update_run, change_run}

pub some_inj : {r r' : RunRecord} → some r ≡ some r' → r ≡ r'
some_inj e = cc e

pub stored_under :
    (id : String) (run : RunRecord) (runs : Map.Map String RunRecord)
    → Map.get id (Map.insert id run runs) ≡ some run
stored_under id run runs = ground (arith, Map.get-insert id id run runs, ==_refl id)

-- The run behind a request that is carried out.
abbrev pub changed : RunStatus → Entry → RunRecord → RunRecord
changed st entry run = record { status = st; timeline = run.timeline ++ entry ∷ [] }

pub change_run_cases :
    (stored : Bool) (id : String) (refuses : RunStatus → Bool) (st : RunStatus) (entry : Entry)
    (o : Orchestrator)
    → ((change_run stored id refuses st entry o).0 ≡ o)
      ⊎ ((run : RunRecord) × (Map.get id o.runs ≡ some run)
          × (refuses run.status ≡ false)
          × ((change_run stored id refuses st entry o).0
              ≡ record o { runs = Map.insert id (changed st entry run) o.runs }))
unfolding change_run update_run
change_run_cases stored id refuses st entry o = elim (Option-cases (Map.get id o.runs)) [
  | inl missing ↦ inl (rw (change_run, missing) refl)
  | inr (run, has) ↦ elim (Bool-cases (refuses run.status)) [
    | inl no_change ↦ inl (rw (change_run, has, no_change) refl)
    | inr free ↦ inr (run, has, free, rw (change_run, has, free) refl)
  ]
]

-- A request for one run leaves the others as they are, and it leaves its own as it is or gives it the
-- new status where the old one is not refused.
pub change_run-get :
    (stored : Bool) (id other : String) (refuses : RunStatus → Bool) (st : RunStatus)
    (entry : Entry) (o : Orchestrator)
    → (Map.get other (change_run stored id refuses st entry o).0.runs ≡ Map.get other o.runs)
      ⊎ ((run : RunRecord) × (Map.get other o.runs ≡ some run)
          × (refuses run.status ≡ false)
          × (id ≡ other)
          × (Map.get other (change_run stored id refuses st entry o).0.runs
              ≡ some (changed st entry run)))
change_run-get stored id other refuses st entry o =
    elim (change_run_cases stored id refuses st entry o) [
      | inl same ↦ inl (ap (λ x. Map.get other x.runs) same)
      | inr (run, has, free, e) ↦ elim (Bool-cases (id == other)) [
        | inl own ↦ inr (
          run,
          cc (has, eq_of_== id other own),
          free,
          eq_of_== id other own,
          ap (λ x. Map.get other x.runs) e
              ∙ ground (arith, Map.get-insert id other (changed st entry run) o.runs, own),
        )
        | inr foreign ↦ inl (
            ap (λ x. Map.get other x.runs) e
            ∙ ground (arith, Map.get-insert id other (changed st entry run) o.runs, foreign))
      ]
    ]

pub change_run-controls :
    (stored : Bool) (id : String) (refuses : RunStatus → Bool) (st : RunStatus) (entry : Entry)
    (o : Orchestrator)
    → (change_run stored id refuses st entry o).0.controls ≡ o.controls
change_run-controls stored id refuses st entry o =
    elim (change_run_cases stored id refuses st entry o) [
      | inl same ↦ ap (λ x. x.controls) same
      | inr (run, has, free, e) ↦ ap (λ x. x.controls) e
    ]
