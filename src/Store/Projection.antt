-- ===== src/Store/Projection.antt =====
-- crates/coding-agent-store/src/projection.rs: the snapshots and pages that are read back. Of a
-- snapshot and of the details of a task this is what the database answers with; the task manager
-- reads them by `read`, which may be refused.
use text.Mathlib.Text.{◌==◌ as str_eq}
use ngy_coding_agent.Base.{
  ℕ, Bool, true, not, ◌&&◌, ◌||◌, Option, none, some, String, List, [], ◌∷◌, ◌++◌, Result, ok, err,
  ◌>>=◌, ltb, leb, ◌==◌, if◌then◌else◌, map_err, sort_by, collect, take,
}
use Prim.Native.Nat.{min}
use ngy_coding_agent.Domain.Value.{event_cursor, pos}
use ngy_coding_agent.Domain.Task.{Task, TaskFailure}
use ngy_coding_agent.Domain.Repository.{Repository}
use ngy_coding_agent.Domain.Event.{
  PlanSnapshot, ActivityEntry, DiffSnapshot, TestSnapshot, TaskEvent, TaskEventKind,
  TaskEventPayload, TimelineEntry, kind,
}
use ngy_coding_agent.Store.Schema.{
  Db, StoreError, DatabaseError, database, domain, TaskRow, EventRow, find_where, select_where,
  same_id,
}
use ngy_coding_agent.Store.Codec.{task_from_record, event_from_record}
use ngy_coding_agent.Store.Repositories.{list_repositories}
use ngy_coding_agent.Store.Tasks.Events.{max_id, max_rowid}

pub record BootstrapSnapshot : Type 0 where
  pub repositories : List Repository
  pub tasks : List Task
  pub latest_event_id : ℕ

pub record TaskDetail : Type 0 where
  pub task : Task
  pub plan : Option PlanSnapshot
  pub activity : List ActivityEntry
  pub diff : Option DiffSnapshot
  pub tests : Option TestSnapshot
  pub timeline : List TimelineEntry
  pub event_cursor : ℕ

pub record EventPage : Type 0 where
  pub events : List TaskEvent
  pub high_watermark : ℕ

-- `latest_event_cursor`
unfoldable pub latest_event_id : Db → Result StoreError ℕ
latest_event_id db = map_err domain (event_cursor (pos (max_id db.task_events)))

-- `ORDER BY created_at DESC, id`
abbrev pub newest_first : TaskRow → TaskRow → Bool
newest_first s t = ltb t.created_at s.created_at || (t.created_at == s.created_at && leb s.id t.id)

unfoldable pub bootstrap_snapshot : Db → Result StoreError BootstrapSnapshot
bootstrap_snapshot db = do
  repositories ← list_repositories db
  tasks ← collect task_from_record (sort_by newest_first db.tasks)
  latest ← latest_event_id db
  ok (record { repositories = repositories; tasks = tasks; latest_event_id = latest })

abbrev pub by_id : EventRow → EventRow → Bool
by_id d e = leb d.id e.id

abbrev pub of_task : Option ℕ → EventRow → Bool
of_task none e = true
of_task (some task_id) e = e.task_id == task_id

abbrev pub in_page : ℕ → Option (ℕ × ℕ) → EventRow → Bool
in_page after none e = ltb after e.id
in_page after (some (high, limit)) e = ltb after e.id && leb e.id high

-- `LIMIT limit_as_i64(limit)`
abbrev pub limited {ℓ} : {A : Type ℓ} → Option (ℕ × ℕ) → List A → List A
limited none rows = rows
limited (some (high, limit)) rows = take (min limit max_rowid) rows

-- Whether the database refuses a statement of a read, and with what error.
pub record ReadEnv : Type 0 where
  pub begin_error : Option DatabaseError
  pub latest_error : Option DatabaseError
  pub events_error : Option DatabaseError
  pub commit_error : Option DatabaseError

unfoldable pub read {ℓ} :
    {A : Type ℓ} → Option DatabaseError → Result StoreError A → Result StoreError A
read none result = result
read (some e) result = err (database e)

unfoldable pub load_events : Option ℕ → ℕ → Option (ℕ × ℕ) → Db → Result StoreError (List TaskEvent)
load_events task_id after page db = collect event_from_record (
    limited page (
      sort_by by_id (select_where (λ e. of_task task_id e && in_page after page e) db.task_events)))

unfoldable pub event_page : ReadEnv → Option ℕ → ℕ → ℕ → Db → Result StoreError EventPage
unfolding read
event_page env task_id after limit db = do
  begun ← read env.begin_error (ok (tt {0}))
  high ← read env.latest_error (latest_event_id db)
  events ← read env.events_error (load_events task_id after (some (high, limit)) db)
  read env.commit_error (ok (record { events = events; high_watermark = high }))

unfoldable pub events_after : ReadEnv → ℕ → ℕ → Db → Result StoreError EventPage
unfolding event_page
events_after env = event_page env none

unfoldable pub task_events_after : ReadEnv → ℕ → ℕ → ℕ → Db → Result StoreError EventPage
unfolding event_page
task_events_after env task_id = event_page env (some task_id)

unfoldable pub timeline_label : TaskEventKind → String
timeline_label TaskEventKind.task_queued = "Task queued"
timeline_label TaskEventKind.task_started = "Task started"
timeline_label TaskEventKind.task_completed = "Task completed"
timeline_label TaskEventKind.task_failed = "Task failed"
timeline_label TaskEventKind.task_cancelled = "Task cancelled"
timeline_label TaskEventKind.task_interrupted = "Task interrupted"
timeline_label _ = ""

unfoldable pub timeline_failure : TaskEventKind → Option TaskFailure → Option TaskFailure
timeline_failure TaskEventKind.task_failed f = f
timeline_failure TaskEventKind.task_interrupted f = f
timeline_failure _ f = none

unfoldable pub timeline_entry : TaskEvent → Option TaskFailure → TimelineEntry
unfolding timeline_label timeline_failure
timeline_entry event task_failure = record {
  event_id = event.id;
  kind = kind event.payload;
  label = timeline_label (kind event.payload);
  created_at = event.created_at;
  failure = timeline_failure (kind event.payload) task_failure;
}

-- `activity.iter().all(|existing| existing.id != entry.id)`
unfoldable pub none_has_id : String → List ActivityEntry → Bool
none_has_id id [] = true
none_has_id id (a ∷ as') = not (str_eq a.id id) && none_has_id id as'

abbrev push_timeline : TaskDetail → TaskEvent → Task → TaskDetail
push_timeline d event task = record d {
  timeline = d.timeline ++ timeline_entry event task.failure ∷ [];
}

-- One round of the loop of `project_task_detail`.
unfoldable pub project_event : TaskDetail → TaskEvent → TaskEventPayload → TaskDetail
project_event d event (TaskEventPayload.plan_updated plan) = record d { plan = some plan }
project_event d event (TaskEventPayload.activity_appended entry) =
    if none_has_id entry.id d.activity then record d { activity = d.activity ++ entry ∷ [] } else d
project_event d event (TaskEventPayload.diff_updated diff) = record d { diff = some diff }
project_event d event (TaskEventPayload.test_updated tests) = record d { tests = some tests }
project_event d event (TaskEventPayload.task_queued task) = push_timeline d event task
project_event d event (TaskEventPayload.task_started task) = push_timeline d event task
project_event d event (TaskEventPayload.task_completed task) = push_timeline d event task
project_event d event (TaskEventPayload.task_failed task) = push_timeline d event task
project_event d event (TaskEventPayload.task_cancelled task) = push_timeline d event task
project_event d event (TaskEventPayload.task_interrupted task) = push_timeline d event task

unfoldable pub project_events : TaskDetail → List TaskEvent → TaskDetail
unfolding project_event
project_events d [] = d
project_events d (e ∷ es) = project_events (project_event d e e.payload) es

unfoldable pub project_task_detail : Task → List TaskEvent → ℕ → TaskDetail
unfolding project_events
project_task_detail task events cursor =
    project_events
      (record {
        task = task;
        plan = none;
        activity = [];
        diff = none;
        tests = none;
        timeline = [];
        event_cursor = cursor;
      })
      events

detail_of : ℕ → Db → Option TaskRow → Result StoreError (Option TaskDetail)
detail_of task_id db none = ok none
detail_of task_id db (some row) = do
  task ← task_from_record row
  events ← load_events (some task_id) 0 none db
  cursor ← latest_event_id db
  ok (some (project_task_detail task events cursor))

unfoldable pub task_detail : ℕ → Db → Result StoreError (Option TaskDetail)
unfolding detail_of
task_detail task_id db = detail_of task_id db (find_where (same_id task_id) db.tasks)
