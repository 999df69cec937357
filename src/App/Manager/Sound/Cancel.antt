-- ===== src/App/Manager/Sound/Cancel.antt =====
-- What a request to cancel a task keeps in crates/coding-agent-app/src/task_manager.rs.
use ngy_coding_agent.Base.{ℕ, Result, ok, err, Bool-cases, inl, inr, if_both}
use ngy_coding_agent.Domain.Task.{Task, TaskStatus, queued, running, completed, failed, interrupted}
use ngy_coding_agent.Store.Tasks.{TransitionOutcome, applied, conflict, to_cancelled}
use ngy_coding_agent.App.Writer.{StoreWriterError}
use ngy_coding_agent.App.Writer.Safety.{run_writer-IsWellFormed}
use ngy_coding_agent.App.Writer.Handle
use ngy_coding_agent.App.Writer.Handle.{Call}
use ngy_coding_agent.App.Writer.Answers.{submit-IsWellFormed}
use ngy_coding_agent.App.Manager.{TaskManager, TaskManagerError, is_frozen, contains_key}
use ngy_coding_agent.App.Manager.Cancel.{
  CancelEnv, cancel_running, cancel_current_with_status, cancel_current, cancel_settled,
  cancel_queued, cancel_loaded, cancel_found, cancel_task,
}
use ngy_coding_agent.App.Manager.Sound.{Kept, IsSound, store-IsSound, cancel_key-keys}

module _ {c : ℕ} where
  cancel_running-IsSound :
      (env : CancelEnv) (id : ℕ) (m : TaskManager)
      → IsSound c 0 m
      → IsSound c 0 (cancel_running env id m).1
  unfolding cancel_running
  cancel_running-IsSound env id m p = elim (Bool-cases (contains_key id m.active)) [
    | inl there ↦
        rw (there, cancel_key-keys id m.active)
          (store-IsSound _ m (run_writer-IsWellFormed env.others m.db p.store) p)
    | inr absent ↦ rw absent p
  ]

  cancel_status-IsSound :
      (env : CancelEnv) (task : Task) (status : TaskStatus) (m : TaskManager)
      → IsSound c 0 m
      → IsSound c 0 (cancel_current_with_status env task status m).1
  unfolding cancel_current_with_status
  cancel_status-IsSound env task running m p = cancel_running-IsSound env task.id m p
  cancel_status-IsSound env task TaskStatus.cancelled m p = p
  cancel_status-IsSound env task queued m p = p
  cancel_status-IsSound env task completed m p = p
  cancel_status-IsSound env task failed m p = p
  cancel_status-IsSound env task interrupted m p = p

  cancel_settled-IsSound :
      (env : CancelEnv) (answer : Result StoreWriterError TransitionOutcome) (m : TaskManager)
      → IsSound c 0 m
      → IsSound c 0 (cancel_settled env answer m).1
  unfolding cancel_settled cancel_current
  cancel_settled-IsSound env (ok (applied task event)) m p = p
  cancel_settled-IsSound env (ok (conflict current)) m p =
      cancel_status-IsSound env current current.status m p
  cancel_settled-IsSound env (err e) m p = p

  cancel_queued-IsSound :
      (env : CancelEnv) (id : ℕ) (m : TaskManager)
      → IsSound c 0 m
      → IsSound c 0 (cancel_queued env id m).1
  unfolding cancel_queued Handle.transition_with_event
  cancel_queued-IsSound env id m p =
      let result = Handle.transition_with_event env.call id queued to_cancelled m.db in
      cancel_settled-IsSound env result.0 (record m { db = result.1 })
        (store-IsSound result.1 m (submit-IsWellFormed env.call _ m.db p.store) p)

  cancel_loaded-IsSound :
      (env : CancelEnv) (id : ℕ) (task : Task) (status : TaskStatus) (m : TaskManager)
      → IsSound c 0 m
      → IsSound c 0 (cancel_loaded env id task status m).1
  unfolding cancel_loaded
  cancel_loaded-IsSound env id task queued m p = cancel_queued-IsSound env id m p
  cancel_loaded-IsSound env id task running m p = cancel_status-IsSound env task running m p
  cancel_loaded-IsSound env id task TaskStatus.cancelled m p =
      cancel_status-IsSound env task TaskStatus.cancelled m p
  cancel_loaded-IsSound env id task completed m p = cancel_status-IsSound env task completed m p
  cancel_loaded-IsSound env id task failed m p = cancel_status-IsSound env task failed m p
  cancel_loaded-IsSound env id task interrupted m p = cancel_status-IsSound env task interrupted m p

  cancel_found-IsSound :
      (env : CancelEnv) (id : ℕ) (found : Result TaskManagerError Task) (m : TaskManager)
      → IsSound c 0 m
      → IsSound c 0 (cancel_found env id found m).1
  unfolding cancel_found
  cancel_found-IsSound env id (err e) m p = p
  cancel_found-IsSound env id (ok task) m p = cancel_loaded-IsSound env id task task.status m p

  pub cancel_task-IsSound :
      (env : CancelEnv) (id : ℕ) (m : TaskManager)
      → IsSound c 0 m
      → IsSound c 0 (cancel_task env id m).1
  unfolding cancel_task
  cancel_task-IsSound env id m p =
      if_both (Kept c) (is_frozen m) p
        (if_both (Kept c) m.degraded p (cancel_found-IsSound env id _ m p))
