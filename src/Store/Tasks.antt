-- ===== src/Store/Tasks.antt =====
-- crates/coding-agent-store/src/tasks.rs: the five operations on tasks, each one transaction.
pub mod Events
pub mod Recovery
use ngy_coding_agent.Base.{
  ℕ, zero, suc, ◌+◌, Bool, true, false, ◌&&◌, ◌||◌, not, Option, none, some, String, List, [], ◌∷◌,
  ◌++◌, Result, ok, err, ltb, ◌==◌, if◌then◌else◌, ite, map_err, length,
}
use ngy_coding_agent.Domain.Value.{pos, event_id, event_cursor, max_timestamp, invalid_timestamp}
use ngy_coding_agent.Domain.Task.{
  NewTask, try_new, Task, TaskFailure, TaskStatus, TaskStatus-discrete, can_transition_to,
  is_retryable, queued, running, completed, failed, cancelled, interrupted,
}
use ngy_coding_agent.Domain.Event.{TaskEventKind, TaskEventPayload, kind}
use ngy_coding_agent.Store.Schema.{
  Db, StoreError, DatabaseError, database, domain, illegal_transition, idempotency_conflict,
  task_not_found, task_not_retryable, invalid_running_event, task_attempt_overflow, TaskRow,
  find_where, update_where, count_where, select_where, same_id, same_request, retries, same_bytes,
}
use ngy_coding_agent.Store.Tx.{Env, Tx, ◌>>=◌, ◌>>◌, pure, raise, lift, gets, require, transact}
use ngy_coding_agent.Store.Codec.{u32_limit, task_from_record, payload_json}
use Events.{
  current_timestamp, ensure_exactly_one, load_where, insert_task, update_tasks, insert_event,
  append_lifecycle_event, lifecycle_kind, latest_event_cursor, set_last_event,
}

pub data TaskTransition : Type 0 where
  to_running to_completed to_cancelled : TaskTransition
  to_failed to_interrupted : TaskFailure → TaskTransition

-- `TaskTransition::next`
unfoldable pub next : TaskTransition → TaskStatus
next to_running = running
next to_completed = completed
next (to_failed f) = failed
next to_cancelled = cancelled
next (to_interrupted f) = interrupted

-- `TaskTransition::failure`
unfoldable pub failure : TaskTransition → Option TaskFailure
failure (to_failed f) = some f
failure (to_interrupted f) = some f
failure to_running = none
failure to_completed = none
failure to_cancelled = none

-- `CreateTaskOutcome` and `RetryTaskOutcome`
pub data CreateTaskOutcome : Type 0 where
  created : Task → ℕ → CreateTaskOutcome
  existing : Task → CreateTaskOutcome

pub data TransitionOutcome : Type 0 where
  applied : Task → ℕ → TransitionOutcome
  conflict : Task → TransitionOutcome

pub data AppendEventOutcome : Type 0 where
  appended : ℕ → AppendEventOutcome
  not_running : Task → AppendEventOutcome

-- The row that an INSERT of `create_task` or `retry_task` writes.
abbrev pub queued_row : ℕ → ℕ → ℕ → List ℕ → ℕ → Option ℕ → ℕ → TaskRow
queued_row id request repository prompt attempt retry_of now = record {
  id = id;
  client_request_id = request;
  repository_id = repository;
  prompt = prompt;
  status = queued;
  attempt = attempt;
  retry_of = retry_of;
  created_at = now;
  started_at = none;
  finished_at = none;
  last_event_id = 0;
  failure = none;
}

unfoldable pub create_new : Env → NewTask → Tx CreateTaskOutcome
create_new env input = do
  now ← current_timestamp env
  insert_task
      (queued_row env.task_id input.client_request_id input.repository_id input.prompt 1 none now)
  (task, event) ← append_lifecycle_event env.task_id TaskEventKind.task_queued now
  pure (created task event)

-- Whether a known request came with other input.
unfoldable pub conflicts : NewTask → Task → Bool
conflicts input task =
    not (task.repository_id == input.repository_id) || not (same_bytes task.prompt input.prompt)

-- A request that is known already: the same input gets the same task.
unfoldable pub same_input : NewTask → Task → Tx CreateTaskOutcome
same_input input task db =
    if conflicts input task then err idempotency_conflict else ok (existing task, db)

unfoldable pub create_or_find : Env → NewTask → Option Task → Tx CreateTaskOutcome
unfolding create_new same_input
create_or_find env input none = create_new env input
create_or_find env input (some task) = same_input input task

unfoldable pub create_body : Env → NewTask → Tx CreateTaskOutcome
unfolding create_or_find
create_body env input = do
  found ← load_where (same_request input.client_request_id)
  create_or_find env input found

unfoldable pub create_checked :
    Env → Db → Result StoreError NewTask → Result StoreError CreateTaskOutcome × Db
unfolding create_body
create_checked env db (err e) = (err e, db)
create_checked env db (ok input) = transact env (create_body env input) db

unfoldable pub create_task : Env → NewTask → Db → Result StoreError CreateTaskOutcome × Db
unfolding create_checked
create_task env input db =
    create_checked env db
      (map_err domain (try_new input.client_request_id input.repository_id input.prompt))

unfoldable pub retry_new : Env → Task → Tx CreateTaskOutcome
retry_new env source = do
  -- `checked_add` on a `u32`
  require (if ltb (source.attempt + 1) u32_limit then some tt else none) task_attempt_overflow
  now ← current_timestamp env
  insert_task (
      queued_row env.task_id env.client_request_id source.repository_id source.prompt
        (source.attempt + 1) (some source.id) now)
  (task, event) ← append_lifecycle_event env.task_id TaskEventKind.task_queued now
  pure (created task event)

unfoldable pub retry_or_find : Env → Task → Option Task → Tx CreateTaskOutcome
unfolding retry_new
retry_or_find env source (some child) = pure (existing child)
retry_or_find env source none = retry_new env source

unfoldable pub retry_body : Env → ℕ → Tx CreateTaskOutcome
unfolding retry_or_find
retry_body env source_id = do
  found ← load_where (same_id source_id)
  source ← require found task_not_found
  require (if is_retryable source.status then some tt else none) task_not_retryable
  child ← load_where (retries source_id)
  retry_or_find env source child

unfoldable pub retry_task : Env → ℕ → Db → Result StoreError CreateTaskOutcome × Db
unfolding retry_body
retry_task env source_id = transact env (retry_body env source_id)

-- The SET clause of the UPDATE that a transition runs.
unfoldable pub apply_transition : TaskTransition → ℕ → TaskRow → TaskRow
unfolding next failure
apply_transition to_running now row = record row {
  status = running;
  started_at = some now;
  finished_at = none;
  failure = none;
}
apply_transition transition now row = record row {
  status = next transition;
  finished_at = some now;
  failure = failure transition;
}

-- `WHERE id = ? AND status = ?`
abbrev pub in_status : ℕ → TaskStatus → TaskRow → Bool
in_status id expected row = row.id == id && ite (TaskStatus-discrete row.status expected) true false

-- The commit comes before the answer that there is no such task.
unfoldable pub missing_task : Option DatabaseError → StoreError
missing_task none = task_not_found
missing_task (some e) = database e

unfoldable pub transition_conflict : Env → ℕ → Tx TransitionOutcome
unfolding missing_task
transition_conflict env task_id = do
  found ← load_where (same_id task_id)
  current ← require found (missing_task env.commit_error)
  pure (conflict current)

unfoldable pub transition_applied : ℕ → TaskStatus → ℕ → ℕ → Tx TransitionOutcome
transition_applied task_id status now rows = do
  ensure_exactly_one rows "task transition updated multiple rows"
  (task, event) ← append_lifecycle_event task_id (lifecycle_kind status) now
  pure (applied task event)

unfoldable pub transition_rows : Env → ℕ → TaskStatus → ℕ → ℕ → Tx TransitionOutcome
unfolding transition_conflict transition_applied
transition_rows env task_id status now zero = transition_conflict env task_id
transition_rows env task_id status now (suc rows) = transition_applied task_id status now (suc rows)

unfoldable pub transition_body : Env → ℕ → TaskStatus → TaskTransition → Tx TransitionOutcome
unfolding transition_rows
transition_body env task_id expected transition = do
  now ← current_timestamp env
  rows ← update_tasks (in_status task_id expected) (apply_transition transition now)
  transition_rows env task_id (next transition) now rows

unfoldable pub transition_with_event :
    Env → ℕ → TaskStatus → TaskTransition → Db → Result StoreError TransitionOutcome × Db
unfolding transition_body
transition_with_event env task_id expected transition db =
    if can_transition_to expected (next transition)
    then transact env (transition_body env task_id expected transition) db
    else (err (illegal_transition expected (next transition)), db)

-- The payloads that `append_running_event` takes.
unfoldable pub is_panel : TaskEventPayload → Bool
is_panel (TaskEventPayload.plan_updated p) = true
is_panel (TaskEventPayload.activity_appended a) = true
is_panel (TaskEventPayload.diff_updated d) = true
is_panel (TaskEventPayload.test_updated t) = true
is_panel _ = false

unfoldable pub append_to : Env → TaskEventPayload → Task → TaskStatus → Tx AppendEventOutcome
append_to env payload current running = do
  now ← current_timestamp env
  event ← insert_event current.id (kind payload) (payload_json payload) now
  rows ← update_tasks (in_status current.id running) (set_last_event event)
  ensure_exactly_one rows "running event did not update exactly one task"
  pure (appended event)
append_to env payload current _ = pure (not_running current)

unfoldable pub append_body : Env → ℕ → TaskEventPayload → Tx AppendEventOutcome
unfolding append_to
append_body env task_id payload = do
  found ← load_where (same_id task_id)
  current ← require found task_not_found
  append_to env payload current current.status

unfoldable pub append_running_event :
    Env → ℕ → TaskEventPayload → Db → Result StoreError AppendEventOutcome × Db
unfolding append_body
append_running_event env task_id payload db =
    if is_panel payload
    then transact env (append_body env task_id payload) db
    else (err invalid_running_event, db)
