-- ===== src/App/Manager/Actor.antt =====
-- The loop of the actor in crates/coding-agent-app/src/task_manager.rs, with what other tasks of the
-- process do between its rounds.
use ngy_coding_agent.Base.{ℕ, Bool, false, ◌&&◌, String, List, [], ◌∷◌, Result, if◌then◌else◌}
use ngy_coding_agent.Store.Tasks.Recovery.{RecoveryOutcome}
use ngy_coding_agent.App.Writer.{Command, run_writer}
use ngy_coding_agent.App.Writer.Handle.{Call}
use ngy_coding_agent.App.Manager.{
  TaskManager, RunnerEvent, RunnerOutcome, claims_allowed, quiesce_service, freeze_and_cancel,
  unless_panicked,
}
use ngy_coding_agent.App.Manager.Claim.{ScanEnv, claim_queued}
use ngy_coding_agent.App.Manager.Requests
use ngy_coding_agent.App.Manager.Cancel
use ngy_coding_agent.App.Manager.Requests.{request_scan}
use ngy_coding_agent.App.Manager.Cancel.{CancelEnv}

-- `TaskManagerMessage`, with what its handler meets.
pub data TaskManagerMessage : Type 0 where
  notify_queued : ℕ → TaskManagerMessage
  cancel : CancelEnv → ℕ → TaskManagerMessage
  runner_event : Call → ℕ → RunnerEvent → TaskManagerMessage
  runner_finished : Call → ℕ → RunnerOutcome → TaskManagerMessage
  finalize_degraded : Bool → RecoveryOutcome → TaskManagerMessage
  quiesce : Call → Result String ℕ → TaskManagerMessage

unfoldable pub handle_message : TaskManagerMessage → TaskManager → TaskManager
unfolding Requests.notify_queued Cancel.cancel_task Requests.append_runner_event
    Requests.finish_runner Requests.finalize_degraded Requests.quiesce
handle_message (TaskManagerMessage.notify_queued id) m = (Requests.notify_queued m).1
handle_message (TaskManagerMessage.cancel env id) m = (Cancel.cancel_task env id m).1
handle_message (TaskManagerMessage.runner_event call id event) m =
    (Requests.append_runner_event call id event m).1
handle_message (TaskManagerMessage.runner_finished call id outcome) m =
    Requests.finish_runner call id outcome m
handle_message (TaskManagerMessage.finalize_degraded quiesces recovery) m =
    (Requests.finalize_degraded quiesces recovery m).1
handle_message (TaskManagerMessage.quiesce call now) m = (Requests.quiesce call now m).1

-- The scan at the end of a round, when one is requested.
unfoldable pub scan : ScanEnv → TaskManager → TaskManager
unfolding claims_allowed claim_queued
scan env m =
    if m.scan_requested && claims_allowed m
    then (claim_queued env (record m { scan_requested = false })).1
    else m

-- What happens next: a round of the actor, with a message or a tick, or something outside of it:
-- commands to the writer, the freeze of a forced shutdown, or the start of the shutdown.
pub data Step : Type 0 where
  message : TaskManagerMessage → ScanEnv → Step
  tick : ScanEnv → Step
  commands : List Command → Step
  freeze begin_quiescing : Step

unfoldable pub step : Step → TaskManager → TaskManager
unfolding handle_message scan request_scan freeze_and_cancel quiesce_service unless_panicked
step (message msg env) m = unless_panicked (scan env) (handle_message msg m)
step (tick env) m = scan env (request_scan m)
step (commands cs) m = record m { db = run_writer cs m.db }
step freeze m = freeze_and_cancel m
step begin_quiescing m = quiesce_service m

-- The actor ends at a panic.
unfoldable pub run : List Step → TaskManager → TaskManager
unfolding step
run [] m = m
run (s ∷ ss) m = let rest = run ss (step s m) in if m.panicked then m else rest
