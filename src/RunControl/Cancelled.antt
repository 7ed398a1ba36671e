-- ===== src/RunControl/Cancelled.antt =====
-- What sequences of requests do to a run that was cancelled.
use cli_agent.Common.{
  String, string_eq, ◌≡◌, refl, sym, ap, subst, ◌∙◌, Bool, true, false, ◌||◌, some, List, [], ◌∷◌,
  if◌then◌else◌, ◌==◌, ==_refl, arith, inl, inr, Bool-cases, Option-cases, eq_of_==,
}
use cli_agent.Common.Map
use cli_agent.RunControl.{
  RunStatus, queued, cancelling, paused, running, is_terminal, is_paused, RunControl, Entry,
  cancel_entry, pause_entry, resume_entry, RunRecord, Orchestrator, answers, update_run, change_run,
  set_control, cancel_run, pause_run, resume_run, Command, cancel, pause, resume, perform,
  perform_all,
}
use cli_agent.RunControl.Change.{
  some_inj, stored_under, changed, change_run-get, change_run-controls,
}

-- The run has been told to stop: its flag is set, and it has stopped, is stopping or is paused.
abbrev stopping : RunStatus → Bool
stopping queued = false
stopping running = false
stopping _ = true

pub record IsStopping (id : String) (o : Orchestrator) : Type 0 where
  pub told :
      (control : RunControl) × (Map.get id o.controls ≡ some control)
      × (control.cancel_requested ≡ true)
  pub halts : (run : RunRecord) → Map.get id o.runs ≡ some run → stopping run.status ≡ true

control_inj : {c c' : RunControl} → some c ≡ some c' → c ≡ c'
control_inj e = cc e

told_control :
    (id other : String) (control : RunControl) (o : Orchestrator)
    → Map.get id o.controls ≡ some control
    → id ≡ other
    → IsStopping other o
    → control.cancel_requested ≡ true
told_control id other control o has own h =
    ap (λ c. c.cancel_requested)
      (control_inj (sym has ∙ ap (λ i. Map.get i o.controls) own ∙ h.told.1))
    ∙ h.told.2

-- The flags of a run behind a change of those of another, or of its own that keeps the first.
set_control-IsStopping :
    (id other : String) (control control' : RunControl) (o : Orchestrator)
    → Map.get id o.controls ≡ some control
    → (control.cancel_requested ≡ true → control'.cancel_requested ≡ true)
    → IsStopping other o
    → IsStopping other (set_control id control' o)
set_control-IsStopping id other control control' o has keeps h = record {
  told = elim (Bool-cases (id == other)) [
    | inl own ↦ (
      control',
      ground (arith, Map.get-insert id other control' o.controls, own),
      keeps (told_control id other control o has (eq_of_== id other own) h),
    )
    | inr foreign ↦ (
      h.told.0,
      ground (arith, Map.get-insert id other control' o.controls, foreign, h.told.1),
      h.told.2,
    )
  ];
  halts = h.halts;
}

change_run-IsStopping :
    (stored : Bool) (id other : String) (refuses : RunStatus → Bool) (st : RunStatus)
    (entry : Entry) (o : Orchestrator)
    → (id ≡ other → stopping st ≡ true)
    → IsStopping other o
    → IsStopping other (change_run stored id refuses st entry o).0
change_run-IsStopping stored id other refuses st entry o stops h = record {
  told = (
    h.told.0,
    ap (λ m. Map.get other m) (change_run-controls stored id refuses st entry o) ∙ h.told.1,
    h.told.2,
  );
  halts = λ run has. elim (change_run-get stored id other refuses st entry o) [
    | inl same ↦ h.halts run (sym same ∙ has)
    | inr (run', has', free, own, e) ↦
        subst (λ r. stopping r.status ≡ true) (some_inj (sym e ∙ has)) (stops own)
  ];
}

perform-IsStopping :
    (command : Command) (stored : Bool) (id other : String) (o : Orchestrator)
    → IsStopping other o
    → IsStopping other (perform command stored id o).0
unfolding perform
perform-IsStopping cancel stored id other o h = elim (Option-cases (Map.get id o.controls)) [
  | inl missing ↦ rw (cancel_run, missing) h
  | inr (control, has) ↦
      rw (cancel_run, has)
        (change_run-IsStopping stored id other is_terminal cancelling cancel_entry
          (set_control id (record control { cancel_requested = true }) o) (λ own. refl)
          (set_control-IsStopping id other control (record control { cancel_requested = true }) o
            has (λ e. refl) h))
]
perform-IsStopping pause stored id other o h = elim (Option-cases (Map.get id o.controls)) [
  | inl missing ↦ rw (pause_run, missing) h
  | inr (control, has) ↦
      rw (pause_run, has)
        (change_run-IsStopping stored id other (λ st. is_terminal st || is_paused st) paused
          pause_entry (set_control id (record control { pause_requested = true }) o) (λ own. refl)
          (set_control-IsStopping id other control (record control { pause_requested = true }) o has
            (λ e. e) h))
]
perform-IsStopping resume stored id other o h = elim (Option-cases (Map.get id o.controls)) [
  | inl missing ↦ rw (resume_run, missing) h
  | inr (control, has) ↦
      rw (resume_run, has)
        (change_run-IsStopping stored id other is_terminal
          (if control.cancel_requested then cancelling else running) resume_entry
          (set_control id (record control { pause_requested = false }) o)
          (λ own. rw (told_control id other control o has own h) refl)
          (set_control-IsStopping id other control (record control { pause_requested = false }) o
            has (λ e. e) h))
]

perform_all-IsStopping :
    (requests : List (Command × Bool × String)) (o : Orchestrator) (id : String)
    → IsStopping id o
    → IsStopping id (perform_all requests o)
unfolding perform_all
perform_all-IsStopping [] o id h = h
perform_all-IsStopping ((command, stored, other) ∷ rest) o id h =
    perform_all-IsStopping rest (perform command stored other o).0 id
      (perform-IsStopping command stored other id o h)

requested-IsStopping :
    (id : String) (o : Orchestrator) (control : RunControl) (run : RunRecord)
    → IsStopping id (record (set_control id (record control { cancel_requested = true }) o) {
      runs = Map.insert id (changed cancelling cancel_entry run) o.runs;
    })
requested-IsStopping id o control run = record {
  told = (
    record control { cancel_requested = true },
    ground (
      arith,
      Map.get-insert id id (record control { cancel_requested = true }) o.controls,
      ==_refl id,
    ),
    refl,
  );
  halts = λ r e.
      subst (λ x. stopping x.status ≡ true)
        (some_inj (sym (stored_under id (changed cancelling cancel_entry run) o.runs) ∙ e)) refl;
}

cancel_run-IsStopping :
    (stored : Bool) (id : String) (o : Orchestrator)
    → (cancel_run stored id o).1 ≡ answers true
    → IsStopping id (cancel_run stored id o).0
unfolding cancel_run change_run update_run
cancel_run-IsStopping stored id o yes' = elim (Option-cases (Map.get id o.controls)) [
  | inl missing ↦ absurd (ground (arith, yes', missing))
  | inr (control, has) ↦ elim (Option-cases (Map.get id o.runs)) [
    | inl unknown ↦ absurd (ground (arith, yes', has, unknown))
    | inr (run, found) ↦ elim (Bool-cases (is_terminal run.status)) [
      | inl over ↦ absurd (ground (arith, yes', has, found, over))
      | inr open' ↦
          rw (cancel_run, has, change_run, found, open', update_run)
            (requested-IsStopping id o control run)
    ]
  ]
]

-- Where `cancel_run` answers yes, no sequence of later requests undoes it: the flag that the run
-- loop reads stays set, and the run is never queued or running again, though it can be paused.
pub cancel_stays :
    (stored : Bool) (id : String) (o : Orchestrator) (requests : List (Command × Bool × String))
    → (cancel_run stored id o).1 ≡ answers true
    → IsStopping id (perform_all requests (cancel_run stored id o).0)
cancel_stays stored id o requests yes' =
    perform_all-IsStopping requests (cancel_run stored id o).0 id
      (cancel_run-IsStopping stored id o yes')
