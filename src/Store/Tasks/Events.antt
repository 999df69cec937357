-- ===== src/Store/Tasks/Events.antt =====
-- crates/coding-agent-store/src/tasks.rs: the statements and helpers that the operations share.
use ngy_coding_agent.Base.{
  ℕ, suc, Bool, true, false, ◌&&◌, Option, none, some, String, List, [], ◌∷◌, ◌++◌, Result, ok, err,
  ltb, ◌==◌, if◌then◌else◌, map_err, is_some, is_none,
}
use Prim.Native.Nat.{max}
use ngy_coding_agent.Domain.Value.{utc_timestamp, pos, event_id, event_cursor}
use ngy_coding_agent.Domain.Task.{
  Task, TaskStatus, queued, running, completed, failed, cancelled, interrupted,
}
use ngy_coding_agent.Domain.Event.{TaskEventKind, TaskEventPayload}
use ngy_coding_agent.Store.Schema.{
  Db, StoreError, constraint_failed, table_full, domain, task_not_found, invariant_violation,
  TaskRow, EventRow, Object, find_where, update_where, count_where, same_id, same_request, retries,
  has_repository,
}
use ngy_coding_agent.Store.Tx.{Env, Tx, ◌>>=◌, ◌>>◌, pure, lift, require}
use ngy_coding_agent.Store.Codec.{task_from_record, payload_json}

-- `UtcTimestamp::new(OffsetDateTime::now_utc())`
unfoldable pub current_timestamp : Env → Tx ℕ
current_timestamp env = lift (map_err domain (utc_timestamp env.now))

unfoldable pub ensure_exactly_one : ℕ → String → Tx (Unit {0})
ensure_exactly_one rows message db =
    if rows == 1 then ok (tt, db) else err (invariant_violation message)

unfoldable pub decode_row : Option TaskRow → Tx (Option Task)
decode_row none db = ok (none, db)
decode_row (some row) db = elim (task_from_record row) [ err e ↦ err e | ok t ↦ ok (some t, db) ]

-- `load_task`, `load_task_by_client_request` and `load_retry_child`: one SELECT by a column.
unfoldable pub load_where : (TaskRow → Bool) → Tx (Option Task)
unfolding decode_row
load_where p db = decode_row (find_where p db.tasks) db

-- The constraints on `retry_of`: it is unique, and it names a task.
unfoldable pub retry_insertable : Option ℕ → List TaskRow → Bool
retry_insertable none tasks = true
retry_insertable (some source) tasks =
    is_none (find_where (retries source) tasks) && is_some (find_where (same_id source) tasks)

-- The constraints that SQLite checks on an INSERT into `tasks`: the keys are unique, and what they
-- refer to is there.
unfoldable pub insertable : TaskRow → Db → Bool
unfolding retry_insertable
insertable row db =
    is_none (find_where (same_id row.id) db.tasks)
    && is_none (find_where (same_request row.client_request_id) db.tasks)
    && is_some (find_where (has_repository row.repository_id) db.repositories)
    && retry_insertable row.retry_of db.tasks

unfoldable pub insert_task : TaskRow → Tx (Unit {0})
insert_task row db =
    if insertable row db
    then ok (tt, record db { tasks = db.tasks ++ row ∷ [] })
    else err constraint_failed

-- An UPDATE of `tasks`, with its `rows_affected`.
unfoldable pub update_tasks : (TaskRow → Bool) → (TaskRow → TaskRow) → Tx ℕ
update_tasks p f db = ok (count_where p db.tasks, record db { tasks = update_where p f db.tasks })

unfoldable pub set_last_event : ℕ → TaskRow → TaskRow
set_last_event event row = record row { last_event_id = event }

abbrev pub max_rowid : ℕ
max_rowid = 9223372036854775807

-- The INSERT of `insert_event`: the row id is one above the largest ever given out, and a table
-- that has given out the last one is full.
unfoldable pub insert_row : ℕ → TaskEventKind → Object → ℕ → Tx ℕ
insert_row task_id event_kind payload created_at db =
    if ltb db.sequence max_rowid
    then ok (
      suc db.sequence,
      record db { sequence = suc db.sequence; task_events = db.task_events ++ row ∷ [] },
    )
    else err table_full
  where
    row : EventRow
    row = record {
      id = suc db.sequence;
      schema_version = 1;
      task_id = task_id;
      kind = event_kind;
      payload_json = payload;
      created_at = created_at;
    }

-- `insert_event`
unfoldable pub insert_event : ℕ → TaskEventKind → Object → ℕ → Tx ℕ
insert_event task_id event_kind payload created_at = do
  rowid ← insert_row task_id event_kind payload created_at
  lift (map_err domain (event_id (pos rowid)))

unfoldable pub lifecycle_payload : TaskEventKind → Task → Result StoreError TaskEventPayload
lifecycle_payload TaskEventKind.task_queued t = ok (TaskEventPayload.task_queued t)
lifecycle_payload TaskEventKind.task_started t = ok (TaskEventPayload.task_started t)
lifecycle_payload TaskEventKind.task_completed t = ok (TaskEventPayload.task_completed t)
lifecycle_payload TaskEventKind.task_failed t = ok (TaskEventPayload.task_failed t)
lifecycle_payload TaskEventKind.task_cancelled t = ok (TaskEventPayload.task_cancelled t)
lifecycle_payload TaskEventKind.task_interrupted t = ok (TaskEventPayload.task_interrupted t)
lifecycle_payload _ t = err (invariant_violation "panel event passed to lifecycle payload builder")

unfoldable pub lifecycle_kind : TaskStatus → TaskEventKind
lifecycle_kind queued = TaskEventKind.task_queued
lifecycle_kind running = TaskEventKind.task_started
lifecycle_kind completed = TaskEventKind.task_completed
lifecycle_kind failed = TaskEventKind.task_failed
lifecycle_kind cancelled = TaskEventKind.task_cancelled
lifecycle_kind interrupted = TaskEventKind.task_interrupted

-- `WHERE id = ? AND payload_json = '{}'`
abbrev pub is_placeholder : ℕ → EventRow → Bool
is_placeholder id e = e.id == id && elim e.payload_json [ [] ↦ true | _ ↦ false ]

-- An UPDATE of `task_events`, with its `rows_affected`.
unfoldable pub set_payload : ℕ → Object → Tx ℕ
set_payload id payload db = ok (
  count_where (is_placeholder id) db.task_events,
  record db {
    task_events =
        update_where (is_placeholder id) (λ e. record e { payload_json = payload }) db.task_events;
  },
)

unfoldable pub append_lifecycle_event : ℕ → TaskEventKind → ℕ → Tx (Task × ℕ)
append_lifecycle_event task_id event_kind created_at = do
  event ← insert_event task_id event_kind [] created_at
  rows ← update_tasks (same_id task_id) (set_last_event event)
  ensure_exactly_one rows "lifecycle event did not update exactly one task"
  found ← load_where (same_id task_id)
  task ← require found task_not_found
  payload ← lift (lifecycle_payload event_kind task)
  filled ← set_payload event (payload_json payload)
  ensure_exactly_one filled "lifecycle payload did not update exactly one placeholder"
  pure (task, event)

-- `SELECT COALESCE(MAX(id), 0) FROM task_events`
unfoldable pub max_id : List EventRow → ℕ
max_id [] = 0
max_id (e ∷ es) = max e.id (max_id es)

unfoldable pub latest_event_cursor : Tx ℕ
latest_event_cursor db = lift (map_err domain (event_cursor (pos (max_id db.task_events)))) db
