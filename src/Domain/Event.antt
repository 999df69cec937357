-- ===== src/Domain/Event.antt =====
-- crates/coding-agent-domain/src/event.rs: panel snapshots, event kinds, payloads and events.
use ngy_coding_agent.Base.{ℕ, String, List, Option}
use ngy_coding_agent.Domain.Task.{Task, TaskFailure}

pub data PlanItemStatus : Type 0 where
  pending running completed : PlanItemStatus

pub record PlanItem : Type 0 where
  pub id : String
  pub title : String
  pub status : PlanItemStatus

pub record PlanSnapshot : Type 0 where
  pub revision : ℕ
  pub items : List PlanItem

pub data ActivityLevel : Type 0 where
  info warning error : ActivityLevel

pub record ActivityEntry : Type 0 where
  pub id : String
  pub level : ActivityLevel
  pub message : String
  pub created_at : ℕ

pub data DiffFileStatus : Type 0 where
  added modified deleted : DiffFileStatus

pub record DiffFile : Type 0 where
  pub path : String
  pub status : DiffFileStatus
  pub patch : String
  pub additions : ℕ
  pub deletions : ℕ

pub record DiffSnapshot : Type 0 where
  pub revision : ℕ
  pub files : List DiffFile

pub data TestStatus : Type 0 where
  queued running passed failed cancelled : TestStatus

pub record TestCase : Type 0 where
  pub id : String
  pub name : String
  pub status : TestStatus
  pub duration_ms : ℕ
  pub summary : String

pub record TestSnapshot : Type 0 where
  pub revision : ℕ
  pub status : TestStatus
  pub cases : List TestCase

pub data TaskEventKind : Type 0 where
  task_queued task_started plan_updated activity_appended diff_updated : TaskEventKind
  test_updated task_completed task_failed task_cancelled task_interrupted : TaskEventKind

pub data TaskEventPayload : Type 0 where
  task_queued : Task → TaskEventPayload
  task_started : Task → TaskEventPayload
  plan_updated : PlanSnapshot → TaskEventPayload
  activity_appended : ActivityEntry → TaskEventPayload
  diff_updated : DiffSnapshot → TaskEventPayload
  test_updated : TestSnapshot → TaskEventPayload
  task_completed : Task → TaskEventPayload
  task_failed : Task → TaskEventPayload
  task_cancelled : Task → TaskEventPayload
  task_interrupted : Task → TaskEventPayload

-- `TaskEventPayload::kind`
unfoldable pub kind : TaskEventPayload → TaskEventKind
kind (TaskEventPayload.task_queued t) = TaskEventKind.task_queued
kind (TaskEventPayload.task_started t) = TaskEventKind.task_started
kind (TaskEventPayload.plan_updated p) = TaskEventKind.plan_updated
kind (TaskEventPayload.activity_appended a) = TaskEventKind.activity_appended
kind (TaskEventPayload.diff_updated d) = TaskEventKind.diff_updated
kind (TaskEventPayload.test_updated t) = TaskEventKind.test_updated
kind (TaskEventPayload.task_completed t) = TaskEventKind.task_completed
kind (TaskEventPayload.task_failed t) = TaskEventKind.task_failed
kind (TaskEventPayload.task_cancelled t) = TaskEventKind.task_cancelled
kind (TaskEventPayload.task_interrupted t) = TaskEventKind.task_interrupted

pub record TaskEvent : Type 0 where
  pub id : ℕ
  pub schema_version : ℕ
  pub task_id : ℕ
  pub payload : TaskEventPayload
  pub created_at : ℕ

pub record TimelineEntry : Type 0 where
  pub event_id : ℕ
  pub kind : TaskEventKind
  pub label : String
  pub created_at : ℕ
  pub failure : Option TaskFailure
