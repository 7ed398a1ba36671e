-- ===== src/RunControl/Tests.antt =====
-- Requests for runs on which the theorems on them are tried.
use cli_agent.Common.{String, string_eq, ◌≡◌, refl, Bool, true, false, some, List, [], ◌∷◌}
use cli_agent.Common.Map
use cli_agent.RunControl.{
  RunStatus, cancel_entry, pause_entry, running, succeeded, paused, RunRecord, Orchestrator,
  cancel_run, Command, pause, resume, perform_all, change_run, update_run,
}
use cli_agent.RunControl.Ended.{HasEnded, perform_all-HasEnded}
use cli_agent.RunControl.Cancelled.{IsStopping, cancel_stays}

abbrev run_of : RunStatus → RunRecord
run_of st = record { status = st; timeline = [] }

abbrev with_run : RunStatus → Orchestrator
with_run st = record {
  controls = ("r1", record { cancel_requested = false; pause_requested = false }) ∷ [];
  runs = ("r1", run_of st) ∷ [];
}

abbrev requests : List (Command × Bool × String)
requests = (pause, true, "r1") ∷ (resume, true, "r1") ∷ (pause, false, "r1") ∷ []

-- A run that is being cancelled can be paused, and is then shown as paused.
paused_while_cancelling :
    Map.get "r1"
      (perform_all ((pause, true, "r1") ∷ []) (cancel_run true "r1" (with_run running)).0).runs
    ≡ some (record { status = paused; timeline = cancel_entry ∷ pause_entry ∷ [] })
unfolding perform_all Map.get change_run update_run Map.insert
paused_while_cancelling = refl

cancel_stays_example :
    IsStopping "r1" (perform_all requests (cancel_run true "r1" (with_run running)).0)
unfolding cancel_run Map.get change_run update_run
cancel_stays_example = cancel_stays true "r1" (with_run running) requests refl

perform_all-HasEnded_example :
    HasEnded "r1" (run_of succeeded) (perform_all requests (with_run succeeded))
unfolding Map.get
perform_all-HasEnded_example =
    perform_all-HasEnded requests (with_run succeeded) "r1" (run_of succeeded) (refl, refl)
