-- ===== src/App/Writer.antt =====
-- crates/coding-agent-app/src/store_writer.rs, as it is built without the feature `test-support`:
-- the operations that the writer hands to the store, its retries, and the receipts it sends.
pub mod Safety
pub mod Handle
pub mod Answers
use ngy_coding_agent.Base.{
  ℕ, suc, ◌+◌, ◌%◌, Bool, true, false, ◌||◌, Option, none, some, List, [], ◌∷◌, Result, ok, err,
  ◌==◌, leb, if◌then◌else◌, is_some, map_err,
}
use ngy_coding_agent.Domain.Task.{NewTask, TaskFailure, TaskStatus}
use ngy_coding_agent.Domain.Event.{TaskEventPayload}
use ngy_coding_agent.Domain.Repository.{NewRepository}
use ngy_coding_agent.Store.Schema.{
  Db, StoreError, DatabaseError, database, sqlite, invariant_violation,
}
use ngy_coding_agent.Store.Tx.{Env}
use ngy_coding_agent.Store.Repositories
use ngy_coding_agent.Store.Repositories.{RegisterRepositoryOutcome}
use ngy_coding_agent.Store.Tasks
use ngy_coding_agent.Store.Tasks.{
  CreateTaskOutcome, TransitionOutcome, AppendEventOutcome, TaskTransition,
}
use ngy_coding_agent.Store.Tasks.Recovery.{RecoveryOutcome}

pub data StoreWriterOperation : Type 0 where
  register_repository : NewRepository → StoreWriterOperation
  create_task : NewTask → StoreWriterOperation
  retry_task : ℕ → StoreWriterOperation
  transition_with_event : ℕ → TaskStatus → TaskTransition → StoreWriterOperation
  append_running_event : ℕ → TaskEventPayload → StoreWriterOperation
  recover_incomplete : ℕ → TaskFailure → StoreWriterOperation

pub data StoreWriterOperationOutcome : Type 0 where
  register_repository : RegisterRepositoryOutcome → StoreWriterOperationOutcome
  create_task retry_task : CreateTaskOutcome → StoreWriterOperationOutcome
  transition_with_event : TransitionOutcome → StoreWriterOperationOutcome
  append_running_event : AppendEventOutcome → StoreWriterOperationOutcome
  recover_incomplete : RecoveryOutcome → StoreWriterOperationOutcome

pub data StoreWriterError : Type 0 where
  busy closed : StoreWriterError
  store : StoreError → StoreWriterError

abbrev pub WriteResult : Type 0
WriteResult = Result StoreWriterError StoreWriterOperationOutcome

unfoldable pub sqlite_code_is_retryable : ℕ → Bool
sqlite_code_is_retryable code = code % 256 == 5 || code % 256 == 6

unfoldable pub classify_store_error : StoreError → StoreWriterError
classify_store_error (database (sqlite code)) =
    if sqlite_code_is_retryable code then busy else store (database (sqlite code))
classify_store_error e = store e

abbrev pub finished :
    {A : Type 0} → (A → StoreWriterOperationOutcome) → Result StoreError A × Db → WriteResult × Db
finished outcome (ok a, db) = (ok (outcome a), db)
finished outcome (err e, db) = (err (classify_store_error e), db)

-- `StoreWriterBackend::execute` of `Store`
unfoldable pub backend_execute : Env → StoreWriterOperation → Db → WriteResult × Db
backend_execute env (StoreWriterOperation.register_repository input) db =
    finished StoreWriterOperationOutcome.register_repository
      (Repositories.register_repository env input db)
backend_execute env (StoreWriterOperation.create_task input) db =
    finished StoreWriterOperationOutcome.create_task (Tasks.create_task env input db)
backend_execute env (StoreWriterOperation.retry_task task_id) db =
    finished StoreWriterOperationOutcome.retry_task (Tasks.retry_task env task_id db)
backend_execute env (StoreWriterOperation.transition_with_event task_id expected transition) db =
    finished StoreWriterOperationOutcome.transition_with_event
      (Tasks.transition_with_event env task_id expected transition db)
backend_execute env (StoreWriterOperation.append_running_event task_id payload) db =
    finished StoreWriterOperationOutcome.append_running_event
      (Tasks.append_running_event env task_id payload db)
backend_execute env (StoreWriterOperation.recover_incomplete now failure) db =
    finished StoreWriterOperationOutcome.recover_incomplete
      (Tasks.Recovery.recover_incomplete env now failure db)

-- `RETRY_DELAYS`, in milliseconds.
abbrev pub retry_delays : List ℕ
retry_delays = 25 ∷ 50 ∷ 100 ∷ 200 ∷ 400 ∷ []

-- One attempt: what the store meets, and what the clock says after it and after the sleep.
pub record Attempt : Type 0 where
  pub env : Env
  pub now : ℕ
  pub woken : ℕ

-- What follows a failed attempt: another one, or the end.
unfoldable pub retry_or_stop :
    Attempt → ℕ → ℕ → WriteResult × Db → WriteResult × Db → WriteResult × Db
retry_or_stop attempt delay deadline again (err busy, db) =
    if leb deadline attempt.now || leb deadline (attempt.now + delay) || leb deadline attempt.woken
    then (err busy, db)
    else again
retry_or_stop attempt delay deadline again result = result

-- The loop of `execute`, whose attempt number `n` is the next.
unfoldable pub execute_from :
    List ℕ → (ℕ → Attempt) → ℕ → ℕ → StoreWriterOperation → Db → WriteResult × Db
unfolding retry_or_stop
execute_from [] attempts n deadline operation db = backend_execute (attempts n).env operation db
execute_from (delay ∷ delays) attempts n deadline operation db =
    let result = backend_execute (attempts n).env operation db in
    let again = execute_from delays attempts (suc n) deadline operation result.1 in
    retry_or_stop (attempts n) delay deadline again result

unfoldable pub execute : (ℕ → Attempt) → ℕ → ℕ → StoreWriterOperation → Db → WriteResult × Db
unfolding execute_from
execute attempts start deadline operation db =
    let result = execute_from retry_delays attempts 0 deadline operation db in
    if leb deadline start then (err busy, db) else result

-- The identifier of the last event that an outcome has recorded.
unfoldable pub event_id : StoreWriterOperationOutcome → Option ℕ
event_id (StoreWriterOperationOutcome.create_task (CreateTaskOutcome.created t e)) = some e
event_id (StoreWriterOperationOutcome.retry_task (CreateTaskOutcome.created t e)) = some e
event_id (StoreWriterOperationOutcome.transition_with_event (TransitionOutcome.applied t e)) =
    some e
event_id (StoreWriterOperationOutcome.append_running_event (AppendEventOutcome.appended e)) = some e
event_id (StoreWriterOperationOutcome.recover_incomplete r) = r.last_event_id
event_id _ = none

-- `expect_repository` to `expect_recovery`: the outcome belongs to the operation.
unfoldable pub expect :
    StoreWriterOperation
    → StoreWriterOperationOutcome
    → Result StoreWriterError StoreWriterOperationOutcome
expect (StoreWriterOperation.register_repository i)
      (StoreWriterOperationOutcome.register_repository o) =
    ok (StoreWriterOperationOutcome.register_repository o)
expect (StoreWriterOperation.create_task i) (StoreWriterOperationOutcome.create_task o) =
    ok (StoreWriterOperationOutcome.create_task o)
expect (StoreWriterOperation.retry_task i) (StoreWriterOperationOutcome.retry_task o) =
    ok (StoreWriterOperationOutcome.retry_task o)
expect (StoreWriterOperation.transition_with_event i s t)
      (StoreWriterOperationOutcome.transition_with_event o) =
    ok (StoreWriterOperationOutcome.transition_with_event o)
expect (StoreWriterOperation.append_running_event i p)
      (StoreWriterOperationOutcome.append_running_event o) =
    ok (StoreWriterOperationOutcome.append_running_event o)
expect (StoreWriterOperation.recover_incomplete n f)
      (StoreWriterOperationOutcome.recover_incomplete o) =
    ok (StoreWriterOperationOutcome.recover_incomplete o)
expect _ _ = err (store (invariant_violation "store writer backend returned a mismatched outcome"))

pub record WriteReceipt : Type 0 where
  pub value : StoreWriterOperationOutcome
  pub event_id : Option ℕ

-- `receipt_and_wake`, with whether the events are woken.
unfoldable pub receipt_and_wake :
    Result StoreWriterError StoreWriterOperationOutcome
    → Result StoreWriterError WriteReceipt × Bool
receipt_and_wake (err e) = (err e, false)
receipt_and_wake (ok value) =
    (ok (record { value = value; event_id = event_id value }), is_some (event_id value))

unfoldable pub expect_of :
    StoreWriterOperation → WriteResult → Result StoreWriterError StoreWriterOperationOutcome
unfolding expect
expect_of operation (err e) = err e
expect_of operation (ok outcome) = expect operation outcome

-- One command of `run_writer`.
unfoldable pub run_command :
    (ℕ → Attempt)
    → ℕ
    → ℕ
    → StoreWriterOperation
    → Db
    → (Result StoreWriterError WriteReceipt × Bool) × Db
unfolding expect_of receipt_and_wake
run_command attempts start deadline operation db =
    let result = execute attempts start deadline operation db in
    (receipt_and_wake (expect_of operation result.0), result.1)

pub record Command : Type 0 where
  pub operation : StoreWriterOperation
  pub deadline : ℕ
  pub start : ℕ
  pub attempts : ℕ → Attempt

-- The loop of `run_writer` over the commands that arrive.
unfoldable pub run_writer : List Command → Db → Db
unfolding run_command
run_writer [] db = db
run_writer (c ∷ cs) db = run_writer cs (run_command c.attempts c.start c.deadline c.operation db).1
