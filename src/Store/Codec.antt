-- ===== src/Store/Codec.antt =====
-- The column codecs of crates/coding-agent-store/src/tasks.rs and src/projection.rs.
pub mod Roundtrip
use text.Mathlib.Text.{◌==◌ as str_eq}
use ngy_coding_agent.Base.{
  ℕ, String, [], ◌∷◌, Result, ok, err, ◌>>=◌, ◌>>◌, guard, map_err, ltb, ◌==◌, if◌then◌else◌, ite,
}
use ngy_coding_agent.Domain.Value.{event_id, pos, invalid_task_attempt}
use ngy_coding_agent.Domain.Task.{
  Task, TaskStatus, TaskStatus-discrete, try_from_stored, queued, running, completed, failed,
  cancelled, interrupted,
}
use ngy_coding_agent.Domain.Event.{
  TaskEventKind, TaskEventPayload, TaskEvent, PlanSnapshot, ActivityEntry, DiffSnapshot,
  TestSnapshot,
}
use ngy_coding_agent.Store.Schema.{
  StoreError, domain, json, invalid_task_status, invalid_event_kind, invalid_event_schema_version,
  invariant_violation, Value, null, task_value, plan_value, entry_value, diff_value, tests_value,
  Object, TaskRow, EventRow,
}

unfoldable pub status_text : TaskStatus → String
status_text queued = "queued"
status_text running = "running"
status_text completed = "completed"
status_text failed = "failed"
status_text cancelled = "cancelled"
status_text interrupted = "interrupted"

unfoldable pub parse_status : String → Result StoreError TaskStatus
parse_status value =
    if str_eq value "queued"
    then ok queued
    else if str_eq value "running"
    then ok running
    else if str_eq value "completed"
    then ok completed
    else if str_eq value "failed"
    then ok failed
    else if str_eq value "cancelled"
    then ok cancelled
    else if str_eq value "interrupted"
    then ok interrupted
    else err (invalid_task_status value)

unfoldable pub event_kind_text : TaskEventKind → String
event_kind_text TaskEventKind.task_queued = "task.queued"
event_kind_text TaskEventKind.task_started = "task.started"
event_kind_text TaskEventKind.plan_updated = "plan.updated"
event_kind_text TaskEventKind.activity_appended = "activity.appended"
event_kind_text TaskEventKind.diff_updated = "diff.updated"
event_kind_text TaskEventKind.test_updated = "test.updated"
event_kind_text TaskEventKind.task_completed = "task.completed"
event_kind_text TaskEventKind.task_failed = "task.failed"
event_kind_text TaskEventKind.task_cancelled = "task.cancelled"
event_kind_text TaskEventKind.task_interrupted = "task.interrupted"

unfoldable pub parse_event_kind : String → Result StoreError TaskEventKind
parse_event_kind value =
    if str_eq value "task.queued"
    then ok TaskEventKind.task_queued
    else if str_eq value "task.started"
    then ok TaskEventKind.task_started
    else if str_eq value "plan.updated"
    then ok TaskEventKind.plan_updated
    else if str_eq value "activity.appended"
    then ok TaskEventKind.activity_appended
    else if str_eq value "diff.updated"
    then ok TaskEventKind.diff_updated
    else if str_eq value "test.updated"
    then ok TaskEventKind.test_updated
    else if str_eq value "task.completed"
    then ok TaskEventKind.task_completed
    else if str_eq value "task.failed"
    then ok TaskEventKind.task_failed
    else if str_eq value "task.cancelled"
    then ok TaskEventKind.task_cancelled
    else if str_eq value "task.interrupted"
    then ok TaskEventKind.task_interrupted
    else err (invalid_event_kind value)

abbrev pub u32_limit : ℕ
u32_limit = 4294967296

-- `task_from_record`: the checks on the columns that SQLite does not make itself.
unfoldable pub task_from_record : TaskRow → Result StoreError Task
task_from_record row = do
  guard (ltb row.attempt u32_limit) (domain invalid_task_attempt)
  last_event ← map_err domain (event_id (pos row.last_event_id))
  map_err domain (try_from_stored (record row { last_event_id = last_event }))

-- `payload_json`
unfoldable pub payload_json : TaskEventPayload → Object
payload_json (TaskEventPayload.task_queued task) = ("task", task_value task) ∷ []
payload_json (TaskEventPayload.task_started task) = ("task", task_value task) ∷ []
payload_json (TaskEventPayload.plan_updated plan) = ("plan", plan_value plan) ∷ []
payload_json (TaskEventPayload.activity_appended entry) = ("entry", entry_value entry) ∷ []
payload_json (TaskEventPayload.diff_updated diff) = ("diff", diff_value diff) ∷ []
payload_json (TaskEventPayload.test_updated tests) = ("tests", tests_value tests) ∷ []
payload_json (TaskEventPayload.task_completed task) = ("task", task_value task) ∷ []
payload_json (TaskEventPayload.task_failed task) = ("task", task_value task) ∷ []
payload_json (TaskEventPayload.task_cancelled task) = ("task", task_value task) ∷ []
payload_json (TaskEventPayload.task_interrupted task) = ("task", task_value task) ∷ []

unfoldable pub payload_field : Object → String → Value
payload_field [] field = null
payload_field ((k, v) ∷ rest) field = if str_eq k field then v else payload_field rest field

-- `serde_json::from_value` at each of the five types.
abbrev as_task : Value → Result StoreError Task
as_task (task_value t) = ok t
as_task _ = err json

abbrev as_plan : Value → Result StoreError PlanSnapshot
as_plan (plan_value p) = ok p
as_plan _ = err json

abbrev as_entry : Value → Result StoreError ActivityEntry
as_entry (entry_value e) = ok e
as_entry _ = err json

abbrev as_diff : Value → Result StoreError DiffSnapshot
as_diff (diff_value d) = ok d
as_diff _ = err json

abbrev as_tests : Value → Result StoreError TestSnapshot
as_tests (tests_value t) = ok t
as_tests _ = err json

unfoldable pub lifecycle_task : Object → ℕ → ℕ → TaskStatus → Result StoreError Task
unfolding payload_field
lifecycle_task payload task_id event_id expected_status = do
  parsed ← as_task (payload_field payload "task")
  task ← map_err domain (try_from_stored parsed)
  guard (task.id == task_id)
      (invariant_violation "lifecycle payload task ID does not match event task ID")
  guard (task.last_event_id == event_id)
      (invariant_violation "lifecycle payload last event ID does not match event ID")
  ite (TaskStatus-discrete task.status expected_status) (ok task)
      (err (invariant_violation "lifecycle payload task status does not match event kind"))

abbrev fmap {ℓ κ} : {A : Type ℓ} {B : Type κ} → (A → B) → Result StoreError A → Result StoreError B
fmap f (ok a) = ok (f a)
fmap f (err e) = err e

unfoldable pub payload_from_value :
    TaskEventKind → Object → ℕ → ℕ → Result StoreError TaskEventPayload
unfolding payload_field
payload_from_value TaskEventKind.task_queued p t e =
    fmap TaskEventPayload.task_queued (lifecycle_task p t e queued)
payload_from_value TaskEventKind.task_started p t e =
    fmap TaskEventPayload.task_started (lifecycle_task p t e running)
payload_from_value TaskEventKind.plan_updated p t e =
    fmap TaskEventPayload.plan_updated (as_plan (payload_field p "plan"))
payload_from_value TaskEventKind.activity_appended p t e =
    fmap TaskEventPayload.activity_appended (as_entry (payload_field p "entry"))
payload_from_value TaskEventKind.diff_updated p t e =
    fmap TaskEventPayload.diff_updated (as_diff (payload_field p "diff"))
payload_from_value TaskEventKind.test_updated p t e =
    fmap TaskEventPayload.test_updated (as_tests (payload_field p "tests"))
payload_from_value TaskEventKind.task_completed p t e =
    fmap TaskEventPayload.task_completed (lifecycle_task p t e completed)
payload_from_value TaskEventKind.task_failed p t e =
    fmap TaskEventPayload.task_failed (lifecycle_task p t e failed)
payload_from_value TaskEventKind.task_cancelled p t e =
    fmap TaskEventPayload.task_cancelled (lifecycle_task p t e cancelled)
payload_from_value TaskEventKind.task_interrupted p t e =
    fmap TaskEventPayload.task_interrupted (lifecycle_task p t e interrupted)

unfoldable pub event_from_record : EventRow → Result StoreError TaskEvent
event_from_record r = do
  guard (r.schema_version == 1) (invalid_event_schema_version r.schema_version)
  id ← map_err domain (event_id (pos r.id))
  payload ← payload_from_value r.kind r.payload_json r.task_id id
  ok (record {
    id = id;
    schema_version = r.schema_version;
    task_id = r.task_id;
    payload = payload;
    created_at = r.created_at;
  })
