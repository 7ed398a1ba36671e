-- ===== src/RunControl.antt =====
-- `cancel_run`, `pause_run` and `resume_run` of src/orchestrator/mod.rs, with the status of a run of
-- src/types.rs. The wake-up of the run loop and the recorded action change nothing here; a failure of
-- the store is an answer of the outside.
pub mod Change
pub mod Ended
pub mod Cancelled
mod Tests
use cli_agent.Common.{
  ℕ, String, string_eq, ◌≡◌, Bool, true, false, ◌||◌, Option, none, some, List, [], ◌∷◌, ◌++◌,
  if◌then◌else◌, Eq, derive_eq, ◌==◌,
}
use cli_agent.Common.Map
use cli_agent.Common.Map.{Map}

pub data RunStatus : Type 0 where
  queued cancelling cancelled paused running succeeded failed : RunStatus

abbrev pub is_terminal : RunStatus → Bool
is_terminal cancelled = true
is_terminal succeeded = true
is_terminal failed = true
is_terminal _ = false

abbrev pub is_paused : RunStatus → Bool
is_paused paused = true
is_paused _ = false

-- `Display for RunStatus`
unfoldable pub status_name : RunStatus → String
status_name queued = "queued"
status_name cancelling = "cancelling"
status_name cancelled = "cancelled"
status_name paused = "paused"
status_name running = "running"
status_name succeeded = "succeeded"
status_name failed = "failed"

-- The two shared flags that the run loop reads.
pub record RunControl : Type 0 where
  pub cancel_requested : Bool
  pub pause_requested : Bool

-- The entry of the timeline, without its time.
pub data Entry : Type 0 where
  cancel_entry pause_entry resume_entry : Entry

-- The fields of `RunRecord` that the three requests read or write.
pub record RunRecord : Type 0 where
  pub status : RunStatus
  pub timeline : List Entry

pub record Orchestrator : Type 0 where
  pub controls : Map String RunControl
  pub runs : Map String RunRecord

-- `Ok(b)`, or the error of `upsert_run`.
pub data Answer : Type 0 where
  answers : Bool → Answer
  store_failed : Answer

-- The run is changed in place before it is stored, so it stays changed where the store fails.
unfoldable pub update_run :
    Bool → String → RunStatus → Entry → RunRecord → Orchestrator → Orchestrator × Answer
update_run stored id status entry run o = (
  record o {
    runs = Map.insert id (record { status = status; timeline = run.timeline ++ entry ∷ [] }) o.runs;
  },
  if stored then answers true else store_failed,
)

-- The part of a request behind the flags; `refuses` are the statuses that it leaves alone.
unfoldable pub change_run :
    Bool → String → (RunStatus → Bool) → RunStatus → Entry → Orchestrator → Orchestrator × Answer
change_run stored id refuses status entry o = elim (Map.get id o.runs) [
  | none ↦ (o, answers false)
  | some run ↦
      if refuses run.status then (o, answers false) else update_run stored id status entry run o
]

abbrev pub set_control : String → RunControl → Orchestrator → Orchestrator
set_control id control o = record o { controls = Map.insert id control o.controls }

unfoldable pub cancel_run : Bool → String → Orchestrator → Orchestrator × Answer
cancel_run stored id o = elim (Map.get id o.controls) [
  | none ↦ (o, answers false)
  | some control ↦
      change_run stored id is_terminal cancelling cancel_entry
        (set_control id (record control { cancel_requested = true }) o)
]

unfoldable pub pause_run : Bool → String → Orchestrator → Orchestrator × Answer
pause_run stored id o = elim (Map.get id o.controls) [
  | none ↦ (o, answers false)
  | some control ↦
      change_run stored id (λ st. is_terminal st || is_paused st) paused pause_entry
        (set_control id (record control { pause_requested = true }) o)
]

unfoldable pub resume_run : Bool → String → Orchestrator → Orchestrator × Answer
resume_run stored id o = elim (Map.get id o.controls) [
  | none ↦ (o, answers false)
  | some control ↦
      change_run stored id is_terminal (if control.cancel_requested then cancelling else running)
        resume_entry (set_control id (record control { pause_requested = false }) o)
]

pub data Command : Type 0 where
  cancel pause resume : Command

-- A request for a run, and whether the store takes it.
unfoldable pub perform : Command → Bool → String → Orchestrator → Orchestrator × Answer
unfolding cancel_run pause_run resume_run
perform cancel = cancel_run
perform pause = pause_run
perform resume = resume_run

unfoldable pub perform_all : List (Command × Bool × String) → Orchestrator → Orchestrator
unfolding perform
perform_all [] o = o
perform_all ((command, stored, id) ∷ rest) o = perform_all rest (perform command stored id o).0
