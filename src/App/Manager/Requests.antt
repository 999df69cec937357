-- ===== src/App/Manager/Requests.antt =====
-- The messages that crates/coding-agent-app/src/task_manager.rs handles: the events and results of
-- runners, the end of a recovery, and the shutdown.
use ngy_coding_agent.Base.{
  ℕ, Bool, true, false, not, ◌||◌, String, List, [], ◌∷◌, Result, ok, err, if◌then◌else◌, sort_by,
  leb, length,
}
use ngy_coding_agent.Domain.Task.{TaskFailure, running}
use ngy_coding_agent.Store.Tasks.{
  TaskTransition, TransitionOutcome, AppendEventOutcome, appended, not_running, to_completed,
  to_failed, to_cancelled,
}
use ngy_coding_agent.Store.Tasks.Recovery.{RecoveryOutcome}
use ngy_coding_agent.App.Service.{
  ServiceState, SetResult, set_to, invalid, overflow, set, is_quiescing,
}
use ngy_coding_agent.App.Writer.{StoreWriterError}
use ngy_coding_agent.App.Writer.Handle
use ngy_coding_agent.App.Writer.Handle.{Call}
use ngy_coding_agent.App.Manager.{
  TaskManager, ActiveRunner, TaskManagerError, RunnerEvent, RunnerEventError, RunnerOutcome,
  PendingDurableResult, DegradedRecoveryResult, DegradedCoordinatorError, into_payload, is_frozen,
  is_ready, claims_allowed, set_service, contains_key, remove_active, enter_degraded,
  quiesce_service, unless_panicked,
}

unfoldable pub notify_queued : TaskManager → Result TaskManagerError (Unit {0}) × TaskManager
unfolding is_frozen is_ready
notify_queued m =
    if is_frozen m
    then (err TaskManagerError.frozen, m)
    else if m.degraded || not (is_ready m)
    then (err TaskManagerError.store_degraded, m)
    else (ok tt, record m { scan_requested = true })

abbrev pub Appended : Type 0
Appended = Result RunnerEventError ℕ × TaskManager

-- The answer to a runner whose event could not be written; a panic drops its channel.
unfoldable pub degraded_answer : TaskManager → Appended
degraded_answer m = (
  if m.panicked then err RunnerEventError.manager_closed else err RunnerEventError.store_degraded,
  m,
)

unfoldable pub append_settled :
    PendingDurableResult → Result StoreWriterError AppendEventOutcome → TaskManager → Appended
unfolding enter_degraded degraded_answer
append_settled pending (ok (appended event)) m = (ok event, m)
append_settled pending (ok (not_running current)) m = (err RunnerEventError.task_not_running, m)
append_settled pending (err e) m = degraded_answer (enter_degraded pending m)

unfoldable pub append_active : Call → ℕ → RunnerEvent → TaskManager → Appended
unfolding append_settled Handle.append_running_event into_payload
append_active call id event m =
    let result = Handle.append_running_event call id (into_payload event) m.db in
    append_settled (PendingDurableResult.runner_event id event) result.0
      (record m { db = result.1 })

unfoldable pub append_runner_event : Call → ℕ → RunnerEvent → TaskManager → Appended
unfolding append_active is_ready
append_runner_event call id event m =
    if is_frozen m
    then (err RunnerEventError.store_degraded, m)
    else if m.degraded
    then (
      err RunnerEventError.store_degraded,
      record m { pending = PendingDurableResult.runner_event id event ∷ m.pending },
    )
    else if not (is_ready m)
    then (err RunnerEventError.store_degraded, m)
    else if not (contains_key id m.active)
    then (err RunnerEventError.task_not_running, m)
    else append_active call id event m

unfoldable pub outcome_transition : RunnerOutcome → TaskTransition
outcome_transition RunnerOutcome.succeeded = to_completed
outcome_transition RunnerOutcome.cancelled = to_cancelled
outcome_transition (RunnerOutcome.failed failure) = to_failed failure

unfoldable pub finish_settled :
    PendingDurableResult → Result StoreWriterError TransitionOutcome → TaskManager → TaskManager
finish_settled pending (ok outcome) m = m
finish_settled pending (err e) m = enter_degraded pending m

-- `if self.claims_allowed() { self.scan_requested = true; }`
unfoldable pub request_scan : TaskManager → TaskManager
unfolding claims_allowed
request_scan m = if claims_allowed m then record m { scan_requested = true } else m

unfoldable pub finish_active : Call → ℕ → RunnerOutcome → TaskManager → TaskManager
unfolding finish_settled request_scan outcome_transition remove_active unless_panicked
finish_active call id outcome m =
    let result = Handle.transition_with_event call id running (outcome_transition outcome) m.db in
    unless_panicked (λ m'. request_scan (remove_active id m'))
      (finish_settled (PendingDurableResult.runner_terminal id outcome) result.0
        (record m { db = result.1 }))

unfoldable pub finish_runner : Call → ℕ → RunnerOutcome → TaskManager → TaskManager
unfolding finish_active
finish_runner call id outcome m =
    if not (contains_key id m.active)
    then m
    else if is_frozen m
    then remove_active id m
    else if m.degraded
    then remove_active id
        (record m { pending = PendingDurableResult.runner_terminal id outcome ∷ m.pending })
    else finish_active call id outcome m

abbrev pub Finalized : Type 0
Finalized = Result DegradedCoordinatorError DegradedRecoveryResult × TaskManager

-- `finalize_degraded` after it has asked for the state ready. A panic drops the channel of the answer.
unfoldable pub finalize_set : RecoveryOutcome → SetResult → TaskManager → TaskManager → Finalized
finalize_set recovery (set_to snapshot) before m =
    let result : DegradedRecoveryResult = record {
      recovery = recovery;
      discarded_pending_count = length before.pending;
      ready_generation = snapshot.generation;
    } in
    (ok result, record m { recoveries = result ∷ m.recoveries })
finalize_set recovery (invalid from to) before m = (
  err DegradedCoordinatorError.quiescing,
  record m { pending = before.pending; degraded = true; scan_requested = false },
)
finalize_set recovery overflow before m = (err DegradedCoordinatorError.manager_closed, m)

-- The service may begin to quiesce after the test: `quiesces`.
unfoldable pub finalize_degraded : Bool → RecoveryOutcome → TaskManager → Finalized
unfolding finalize_set set_service quiesce_service
finalize_degraded quiesces recovery m =
    let before = if quiesces then quiesce_service m else m in
    let cleared : TaskManager = record before {
      pending = [];
      degraded = false;
      scan_requested = true;
    } in
    if is_frozen m || is_quiescing m.service.current.state
    then (err DegradedCoordinatorError.quiescing, m)
    else if not m.degraded
    then (err DegradedCoordinatorError.manager_closed, m)
    else finalize_set recovery (set ServiceState.ready before.service).0 before
        (set_service ServiceState.ready cleared)

abbrev pub by_task_id : ActiveRunner → ActiveRunner → Bool
by_task_id r s = leb r.task_id s.task_id

-- `filter_map` of `take_shutdown_handles`: the tasks whose `done_receiver` was there.
unfoldable pub handles : List ActiveRunner → List ℕ
handles [] = []
handles (r ∷ rs) = let rest = handles rs in if r.has_receiver then r.task_id ∷ rest else rest

unfoldable pub take_receivers : List ActiveRunner → List ActiveRunner
take_receivers [] = []
take_receivers (r ∷ rs) = record r { has_receiver = false } ∷ take_receivers rs

unfoldable pub take_shutdown_handles : TaskManager → List ℕ × TaskManager
unfolding handles take_receivers
take_shutdown_handles m =
    (handles (sort_by by_task_id m.active), record m { active = take_receivers m.active })

pub data QuiesceResult : Type 0 where
  durable : RecoveryOutcome → List ℕ → QuiesceResult
  frozen : List ℕ → StoreWriterError → QuiesceResult

abbrev pub shutdown_failure : TaskFailure
shutdown_failure = record {
  code = "APP_SHUTDOWN";
  message = "application shut down before the task finished";
  retryable = true;
}

abbrev pub Quiesced : Type 0
Quiesced = Result TaskManagerError QuiesceResult × TaskManager

abbrev pub quiesced : Result StoreWriterError RecoveryOutcome → List ℕ → QuiesceResult
quiesced (ok recovery) active = durable recovery active
quiesced (err e) active = frozen active e

unfoldable pub quiesce_at : Call → Result String ℕ → TaskManager → Quiesced
unfolding take_shutdown_handles Handle.recover_incomplete
quiesce_at call (err message) m = (err (TaskManagerError.invariant message), m)
quiesce_at call (ok now) m =
    let recovery = Handle.recover_incomplete call now shutdown_failure m.db in
    let taken = take_shutdown_handles (record m { db = recovery.1 }) in
    (ok (quiesced recovery.0 taken.0), taken.1)

-- A panic drops the channel of the answer.
unfoldable pub quiesce_unless_panicked : Call → Result String ℕ → TaskManager → Quiesced
unfolding quiesce_at
quiesce_unless_panicked call now m =
    let rest = quiesce_at call now m in
    if m.panicked then (err TaskManagerError.closed, m) else rest

-- `try_freeze` fails when the shutdown is frozen already.
unfoldable pub quiesce : Call → Result String ℕ → TaskManager → Quiesced
unfolding quiesce_unless_panicked is_frozen set_service
quiesce call now m =
    if is_frozen m
    then (err TaskManagerError.frozen, m)
    else quiesce_unless_panicked call now (
        set_service ServiceState.quiescing
          (record m { shutdown_frozen = true; frozen = true; scan_requested = false }))
