-- ===== src/App/Manager/Sound/Runs.antt =====
-- What every run of the actor of crates/coding-agent-app/src/task_manager.rs keeps.
use ngy_coding_agent.Base.{◌≢◌, ℕ, false, ◌&&◌, List, [], ◌∷◌, arith, if_both}
use ngy_coding_agent.Store.Schema.{Db}
use ngy_coding_agent.Store.Invariant.{IsWellFormed}
use ngy_coding_agent.App.Writer.Safety.{run_writer-IsWellFormed}
use ngy_coding_agent.App.Service.{ServiceState, ServiceStateController, IsPublished}
use ngy_coding_agent.App.Manager.{TaskManager, spawn, claims_allowed, freeze_and_cancel}
use ngy_coding_agent.App.Manager.Alive.{unless_both}
use ngy_coding_agent.App.Manager.Claim.{ScanEnv}
use ngy_coding_agent.App.Manager.Actor.{
  TaskManagerMessage, Step, message, tick, commands, freeze, begin_quiescing, handle_message, scan,
  step, run,
}
use ngy_coding_agent.App.Manager.Requests.{request_scan}
use ngy_coding_agent.App.Manager.Sound.{quiesce_service-IsSound, IsSound, store-IsSound}
use ngy_coding_agent.App.Manager.Sound.Claims.{claim_queued-IsSound}
use ngy_coding_agent.App.Manager.Sound.Cancel.{cancel_task-IsSound}
use ngy_coding_agent.App.Manager.Sound.Requests.{
  append_runner_event-IsSound, finish_runner-IsSound, request_scan-IsSound,
  finalize_degraded-IsSound, quiesce-IsSound, notify_queued-IsSound,
}

module _ {c : ℕ} where
  handle_message-IsSound :
      (msg : TaskManagerMessage) (m : TaskManager)
      → IsSound c 0 m
      → IsSound c 0 (handle_message msg m)
  unfolding handle_message
  handle_message-IsSound (TaskManagerMessage.notify_queued id) m p = notify_queued-IsSound m p
  handle_message-IsSound (TaskManagerMessage.cancel env id) m p = cancel_task-IsSound env id m p
  handle_message-IsSound (TaskManagerMessage.runner_event call id event) m p =
      append_runner_event-IsSound call id event m p
  handle_message-IsSound (TaskManagerMessage.runner_finished call id outcome) m p =
      finish_runner-IsSound call id outcome m p
  handle_message-IsSound (TaskManagerMessage.finalize_degraded quiesces recovery) m p =
      finalize_degraded-IsSound quiesces recovery m p
  handle_message-IsSound (TaskManagerMessage.quiesce call now) m p = quiesce-IsSound call now m p

  scan-IsSound : (env : ScanEnv) (m : TaskManager) → IsSound c 0 m → IsSound c 0 (scan env m)
  unfolding scan
  scan-IsSound env m p =
      if_both (IsSound c 0) (m.scan_requested && claims_allowed m)
        (claim_queued-IsSound env (record m { scan_requested = false }) p) p

  step-IsSound : (s : Step) (m : TaskManager) → IsSound c 0 m → IsSound c 0 (step s m)
  unfolding step freeze_and_cancel
  step-IsSound (message msg env) m p =
      let kept = handle_message-IsSound msg m p in
      unless_both (IsSound c 0) (scan env) (handle_message msg m) kept
        (scan-IsSound env (handle_message msg m) kept)
  step-IsSound (tick env) m p = scan-IsSound env (request_scan m) (request_scan-IsSound m p)
  step-IsSound (commands cs) m p = store-IsSound _ m (run_writer-IsWellFormed cs m.db p.store) p
  step-IsSound freeze m p = p
  step-IsSound begin_quiescing m p = quiesce_service-IsSound m p

  run-IsSound : (steps : List Step) (m : TaskManager) → IsSound c 0 m → IsSound c 0 (run steps m)
  unfolding run
  run-IsSound [] m p = p
  run-IsSound (s ∷ ss) m p =
      if_both (IsSound c 0) m.panicked p (run-IsSound ss (step s m) (step-IsSound s m p))

-- The actor starts so on a well-formed store, with a service that is not store-degraded.
pub spawn-IsSound :
    (db : Db) (service : ServiceStateController) (concurrency : ℕ)
    → IsWellFormed db
    → IsPublished service
    → service.current.state ≢ ServiceState.store_degraded
    → IsSound concurrency 0 (spawn db service concurrency)
unfolding spawn
spawn-IsSound db service concurrency w p h = record {
  store = w;
  published = p;
  permits = omega arith;
  distinct = tt;
  agrees = λ e. h;
}

-- A task manager that is started on a well-formed store, with a service that is not store-
-- degraded, stays sound through every sequence of messages, ticks, commands of others, freezes and
-- the start of a shutdown, whatever the writer and the database answer: the store is well-formed,
-- every permit is either free or held by exactly one active entry, so that never more runners are
-- active than the concurrency allows, no task has two entries, and unless the actor has panicked
-- it is degraded only while the service is not ready, and else the service is not store-degraded.
pub run-spawn-IsSound :
    (steps : List Step) (db : Db) (service : ServiceStateController) (concurrency : ℕ)
    → IsWellFormed db
    → IsPublished service
    → service.current.state ≢ ServiceState.store_degraded
    → IsSound concurrency 0 (run steps (spawn db service concurrency))
run-spawn-IsSound steps db service concurrency w p h =
    run-IsSound steps (spawn db service concurrency) (spawn-IsSound db service concurrency w p h)
