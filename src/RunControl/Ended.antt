-- ===== src/RunControl/Ended.antt =====
-- What sequences of requests do to a run that has ended.
use cli_agent.Common.{
  String, string_eq, ◌≡◌, sym, ap, ◌∙◌, Bool, true, false, ◌||◌, some, List, [], ◌∷◌, if◌then◌else◌,
  arith, inl, inr, Option-cases,
}
use cli_agent.Common.Map
use cli_agent.RunControl.{
  RunStatus, cancelling, paused, running, is_terminal, is_paused, Entry, cancel_entry, pause_entry,
  resume_entry, RunRecord, Orchestrator, change_run, set_control, cancel_run, pause_run, resume_run,
  Command, cancel, pause, resume, perform, perform_all,
}
use cli_agent.RunControl.Change.{some_inj, change_run-get}

-- The run has ended, with this record.
abbrev pub HasEnded : String → RunRecord → Orchestrator → Type 0
HasEnded id run o = (Map.get id o.runs ≡ some run) × (is_terminal run.status ≡ true)

change_run-HasEnded :
    (stored : Bool) (id other : String) (refuses : RunStatus → Bool) (st : RunStatus)
    (entry : Entry) (o : Orchestrator) (run : RunRecord)
    → ((s : RunStatus) → is_terminal s ≡ true → refuses s ≡ true)
    → HasEnded other run o
    → HasEnded other run (change_run stored id refuses st entry o).0
change_run-HasEnded stored id other refuses st entry o run all (has, final) = (
  elim (change_run-get stored id other refuses st entry o) [
    | inl same ↦ same ∙ has
    | inr (run', has', free, _, _) ↦ absurd (contradicts run run' (sym has ∙ has') final free all)
  ],
  final,
)
  where
    contradicts :
        (run run' : RunRecord)
        → some run ≡ some run'
        → is_terminal run.status ≡ true
        → refuses run'.status ≡ false
        → ((s : RunStatus) → is_terminal s ≡ true → refuses s ≡ true)
        → ⊥
    contradicts run run' e final free all =
        cc (all run.status final, ap refuses (ap (λ r. r.status) (some_inj e)), free)

perform-HasEnded :
    (command : Command) (stored : Bool) (id other : String) (o : Orchestrator) (run : RunRecord)
    → HasEnded other run o
    → HasEnded other run (perform command stored id o).0
unfolding perform
perform-HasEnded cancel stored id other o run h = elim (Option-cases (Map.get id o.controls)) [
  | inl missing ↦ rw (cancel_run, missing) h
  | inr (control, has) ↦
      rw (cancel_run, has)
        (change_run-HasEnded stored id other is_terminal cancelling cancel_entry
          (set_control id (record control { cancel_requested = true }) o) run (λ s e. e) h)
]
perform-HasEnded pause stored id other o run h = elim (Option-cases (Map.get id o.controls)) [
  | inl missing ↦ rw (pause_run, missing) h
  | inr (control, has) ↦
      rw (pause_run, has)
        (change_run-HasEnded stored id other (λ st. is_terminal st || is_paused st) paused
          pause_entry (set_control id (record control { pause_requested = true }) o) run
          (λ s e. ground (arith, e)) h)
]
perform-HasEnded resume stored id other o run h = elim (Option-cases (Map.get id o.controls)) [
  | inl missing ↦ rw (resume_run, missing) h
  | inr (control, has) ↦
      rw (resume_run, has)
        (change_run-HasEnded stored id other is_terminal
          (if control.cancel_requested then cancelling else running) resume_entry
          (set_control id (record control { pause_requested = false }) o) run (λ s e. e) h)
]

-- No sequence of requests, for this run or others, changes the record of a run that has ended:
-- neither its status nor its timeline.
pub perform_all-HasEnded :
    (requests : List (Command × Bool × String)) (o : Orchestrator) (id : String) (run : RunRecord)
    → HasEnded id run o
    → HasEnded id run (perform_all requests o)
unfolding perform_all
perform_all-HasEnded [] o id run h = h
perform_all-HasEnded ((command, stored, other) ∷ rest) o id run h =
    perform_all-HasEnded rest (perform command stored other o).0 id run
      (perform-HasEnded command stored other id o run h)
