-- ===== src/App/Manager.antt =====
-- crates/coding-agent-app/src/task_manager.rs, as it is built without the feature `test-support`: the
-- state of the actor that starts, cancels and finishes the runners of tasks. The store, which the
-- writer changes, stands in the state. What the actor has sent or spawned, and its pending
-- results, are kept in lists, newest first. A panic of the actor is the flag `panicked`.
pub mod Claim
pub mod Cancel
pub mod Requests
pub mod Actor
pub mod Alive
pub mod Sound
pub mod Frozen
pub mod Degraded
pub mod Resume
pub mod Shutdown
pub mod Progress
use ngy_coding_agent.Base.{
  ℕ, zero, suc, ◌+◌, Bool, true, false, not, ◌&&◌, ◌||◌, Option, none, some, String, List, [], ◌∷◌,
  Result, ok, err, ◌==◌, if◌then◌else◌, map, length,
}
use ngy_coding_agent.Domain.Task.{Task, TaskFailure}
use ngy_coding_agent.Domain.Repository.{Repository}
use ngy_coding_agent.Domain.Event.{
  PlanSnapshot, ActivityEntry, DiffSnapshot, TestSnapshot, TaskEventPayload,
}
use ngy_coding_agent.Store.Schema.{Db, StoreError, DatabaseError}
use ngy_coding_agent.Store.Projection.{TaskDetail, task_detail, read}
use ngy_coding_agent.Store.Tasks.Recovery.{RecoveryOutcome}
use ngy_coding_agent.App.Writer.{StoreWriterError}
use ngy_coding_agent.App.Service.{
  ServiceState, ServiceStateController, SetResult, ready, same_state, set, overflow,
}

pub data RunnerOutcome : Type 0 where
  succeeded cancelled : RunnerOutcome
  failed : TaskFailure → RunnerOutcome

pub data CancelOutcome : Type 0 where
  cancelled accepted : Task → CancelOutcome

pub data RunnerEvent : Type 0 where
  plan_updated : PlanSnapshot → RunnerEvent
  activity_appended : ActivityEntry → RunnerEvent
  diff_updated : DiffSnapshot → RunnerEvent
  test_updated : TestSnapshot → RunnerEvent

unfoldable pub into_payload : RunnerEvent → TaskEventPayload
into_payload (RunnerEvent.plan_updated plan) = TaskEventPayload.plan_updated plan
into_payload (RunnerEvent.activity_appended entry) = TaskEventPayload.activity_appended entry
into_payload (RunnerEvent.diff_updated diff) = TaskEventPayload.diff_updated diff
into_payload (RunnerEvent.test_updated tests) = TaskEventPayload.test_updated tests

pub data RunnerEventError : Type 0 where
  task_not_running store_degraded manager_closed : RunnerEventError

pub data TaskManagerError : Type 0 where
  closed frozen store_degraded task_not_found : TaskManagerError
  store : StoreError → TaskManagerError
  store_writer : StoreWriterError → TaskManagerError
  task_not_cancellable : Task → TaskManagerError
  invariant : String → TaskManagerError

-- `PendingDurableResult`, `DegradedRecoveryResult` and `DegradedCoordinatorError` of shutdown.rs.
pub data PendingDurableResult : Type 0 where
  runner_event : ℕ → RunnerEvent → PendingDurableResult
  runner_terminal : ℕ → RunnerOutcome → PendingDurableResult

pub record DegradedRecoveryResult : Type 0 where
  pub recovery : RecoveryOutcome
  pub discarded_pending_count : ℕ
  pub ready_generation : ℕ

pub data DegradedCoordinatorError : Type 0 where
  quiescing manager_closed : DegradedCoordinatorError

-- An entry of `active` under its key: its own cancellation token, and whether `done_receiver` is
-- still there. The entry holds one permit of the semaphore.
pub record ActiveRunner : Type 0 where
  pub task_id : ℕ
  pub is_cancelled : Bool
  pub has_receiver : Bool

-- `RunContext`, without the token.
pub record RunContext : Type 0 where
  pub task : Task
  pub repository : Repository

-- `available` are the free permits; `done` the tasks whose `done_sender` was used; `coordinators`
-- counts the recoveries that were started; `shutdown_frozen` and `shutdown_cancelled` are the
-- `TaskManagerShutdownControl`, which other tasks share.
pub record TaskManager : Type 0 where
  pub db : Db
  pub service : ServiceStateController
  pub available : ℕ
  pub active : List ActiveRunner
  pub pending : List PendingDurableResult
  pub recoveries : List DegradedRecoveryResult
  pub runners : List RunContext
  pub done : List ℕ
  pub coordinators : ℕ
  pub scan_requested : Bool
  pub degraded : Bool
  pub frozen : Bool
  pub shutdown_frozen : Bool
  pub shutdown_cancelled : Bool
  pub panicked : Bool

-- The actor of `TaskManagerHandle::spawn`.
unfoldable pub spawn : Db → ServiceStateController → ℕ → TaskManager
spawn db service concurrency = record {
  db = db;
  service = service;
  available = concurrency;
  active = [];
  pending = [];
  recoveries = [];
  runners = [];
  done = [];
  coordinators = 0;
  scan_requested = false;
  degraded = false;
  frozen = false;
  shutdown_frozen = false;
  shutdown_cancelled = false;
  panicked = false;
}

unfoldable pub is_frozen : TaskManager → Bool
is_frozen m = m.frozen || m.shutdown_frozen

unfoldable pub is_ready : TaskManager → Bool
is_ready m = same_state m.service.current.state ready

unfoldable pub claims_allowed : TaskManager → Bool
unfolding is_frozen is_ready
claims_allowed m = not m.degraded && not (is_frozen m) && is_ready m

-- `TaskManagerShutdownControl::freeze_and_cancel`, which any task may call.
unfoldable pub freeze_and_cancel : TaskManager → TaskManager
freeze_and_cancel m = record m { shutdown_frozen = true; shutdown_cancelled = true }

unfoldable pub panics : SetResult → Bool
panics overflow = true
panics _ = false

-- `self.service_state.set`
unfoldable pub set_service : ServiceState → TaskManager → TaskManager
unfolding panics set
set_service state m = record m {
  service = (set state m.service).1;
  panicked = m.panicked || panics (set state m.service).0;
}

-- Another task of the process sets the state quiescing; a panic there is not the actor's.
unfoldable pub quiesce_service : TaskManager → TaskManager
unfolding set
quiesce_service m = record m { service = (set ServiceState.quiescing m.service).1 }

-- `HashMap::contains_key`, `get` and `remove` on `active`.
unfoldable pub contains_key : ℕ → List ActiveRunner → Bool
contains_key id [] = false
contains_key id (r ∷ rs) = r.task_id == id || contains_key id rs

unfoldable pub remove_key : ℕ → List ActiveRunner → List ActiveRunner
remove_key id [] = []
remove_key id (r ∷ rs) = let rest = remove_key id rs in if r.task_id == id then rs else r ∷ rest

-- Dropping the entry gives its permit back, and `done_sender` is used.
unfoldable pub remove_active : ℕ → TaskManager → TaskManager
unfolding contains_key remove_key
remove_active id m =
    if contains_key id m.active
    then record m {
      active = remove_key id m.active;
      available = suc m.available;
      done = id ∷ m.done;
    }
    else m

-- `active.cancellation.cancel()` of one entry, and of all.
unfoldable pub cancel_key : ℕ → List ActiveRunner → List ActiveRunner
cancel_key id [] = []
cancel_key id (r ∷ rs) =
    (if r.task_id == id then record r { is_cancelled = true } else r) ∷ cancel_key id rs

unfoldable pub cancel_all : List ActiveRunner → List ActiveRunner
cancel_all [] = []
cancel_all (r ∷ rs) = record r { is_cancelled = true } ∷ cancel_all rs

-- What follows a statement that may panic. A panic ends the actor: the rest is not run, and the
-- channels of its answers are dropped.
unfoldable pub unless_panicked : (TaskManager → TaskManager) → TaskManager → TaskManager
unless_panicked rest m = if m.panicked then m else rest m

-- Every runner is cancelled, and the coordinator of a recovery is spawned.
unfoldable pub start_recovery : TaskManager → TaskManager
unfolding cancel_all
start_recovery m = record m { active = cancel_all m.active; coordinators = suc m.coordinators }

unfoldable pub enter_degraded : PendingDurableResult → TaskManager → TaskManager
unfolding set_service start_recovery unless_panicked
enter_degraded pending m =
    let pushed : TaskManager = record m { pending = pending ∷ m.pending } in
    if m.degraded
    then pushed
    else unless_panicked start_recovery (
        set_service ServiceState.store_degraded
          (record pushed { degraded = true; scan_requested = false }))

unfoldable pub found_task : Result StoreError (Option TaskDetail) → Result TaskManagerError Task
found_task (err e) = err (TaskManagerError.store e)
found_task (ok none) = err TaskManagerError.task_not_found
found_task (ok (some detail)) = ok detail.task

unfoldable pub load_task : Option DatabaseError → ℕ → Db → Result TaskManagerError Task
unfolding found_task read
load_task refused task_id db = found_task (read refused (task_detail task_id db))
