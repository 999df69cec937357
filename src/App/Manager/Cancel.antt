-- ===== src/App/Manager/Cancel.antt =====
-- The cancellation of a task in crates/coding-agent-app/src/task_manager.rs.
use ngy_coding_agent.Base.{ℕ, Option, List, Result, ok, err, if◌then◌else◌}
use ngy_coding_agent.Domain.Task.{Task, TaskStatus, queued, running, completed, failed, interrupted}
use ngy_coding_agent.Store.Schema.{DatabaseError}
use ngy_coding_agent.Store.Tasks.{TransitionOutcome, applied, conflict, to_cancelled}
use ngy_coding_agent.App.Writer.{StoreWriterError, Command, run_writer}
use ngy_coding_agent.App.Writer.Handle
use ngy_coding_agent.App.Writer.Handle.{Call}
use ngy_coding_agent.App.Manager.{
  TaskManager, TaskManagerError, CancelOutcome, is_frozen, contains_key, cancel_key, load_task,
}

-- What a request to cancel meets: its two reads, the call of the writer, and the commands that the
-- writer takes before the second read.
pub record CancelEnv : Type 0 where
  pub refused : Option DatabaseError
  pub call : Call
  pub others : List Command
  pub refused_again : Option DatabaseError

abbrev pub Cancelled : Type 0
Cancelled = Result TaskManagerError CancelOutcome × TaskManager

unfoldable pub accepted : Result TaskManagerError Task → Result TaskManagerError CancelOutcome
accepted (ok task) = ok (CancelOutcome.accepted task)
accepted (err e) = err e

-- The token of a running task is cancelled, and the task read again.
unfoldable pub cancel_running : CancelEnv → ℕ → TaskManager → Cancelled
unfolding accepted load_task contains_key cancel_key
cancel_running env id m =
    let after : TaskManager = record m {
      active = cancel_key id m.active;
      db = run_writer env.others m.db;
    } in
    if contains_key id m.active
    then (accepted (load_task env.refused_again id after.db), after)
    else (err (TaskManagerError.invariant "running task has no active cancellation token"), m)

unfoldable pub cancel_current_with_status : CancelEnv → Task → TaskStatus → TaskManager → Cancelled
unfolding cancel_running
cancel_current_with_status env task running m = cancel_running env task.id m
cancel_current_with_status env task TaskStatus.cancelled m = (ok (CancelOutcome.cancelled task), m)
cancel_current_with_status env task queued m =
    (err (TaskManagerError.invariant "queued conflict was not retried by the cancel owner"), m)
cancel_current_with_status env task completed m =
    (err (TaskManagerError.task_not_cancellable task), m)
cancel_current_with_status env task failed m = (err (TaskManagerError.task_not_cancellable task), m)
cancel_current_with_status env task interrupted m =
    (err (TaskManagerError.task_not_cancellable task), m)

unfoldable pub cancel_current : CancelEnv → Task → TaskManager → Cancelled
unfolding cancel_current_with_status
cancel_current env task m = cancel_current_with_status env task task.status m

unfoldable pub cancel_settled :
    CancelEnv → Result StoreWriterError TransitionOutcome → TaskManager → Cancelled
unfolding cancel_current
cancel_settled env (ok (applied task event)) m = (ok (CancelOutcome.cancelled task), m)
cancel_settled env (ok (conflict current)) m = cancel_current env current m
cancel_settled env (err e) m = (err (TaskManagerError.store_writer e), m)

unfoldable pub cancel_queued : CancelEnv → ℕ → TaskManager → Cancelled
unfolding cancel_settled Handle.transition_with_event
cancel_queued env id m =
    let result = Handle.transition_with_event env.call id queued to_cancelled m.db in
    cancel_settled env result.0 (record m { db = result.1 })

unfoldable pub cancel_loaded : CancelEnv → ℕ → Task → TaskStatus → TaskManager → Cancelled
unfolding cancel_queued
cancel_loaded env id task queued m = cancel_queued env id m
cancel_loaded env id task status m = cancel_current_with_status env task status m

unfoldable pub cancel_found : CancelEnv → ℕ → Result TaskManagerError Task → TaskManager → Cancelled
unfolding cancel_loaded
cancel_found env id (err e) m = (err e, m)
cancel_found env id (ok task) m = cancel_loaded env id task task.status m

unfoldable pub cancel_task : CancelEnv → ℕ → TaskManager → Cancelled
unfolding cancel_found is_frozen
cancel_task env id m =
    if is_frozen m
    then (err TaskManagerError.frozen, m)
    else if m.degraded
    then (err TaskManagerError.store_degraded, m)
    else cancel_found env id (load_task env.refused id m.db) m
