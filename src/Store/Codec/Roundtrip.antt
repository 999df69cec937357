-- ===== src/Store/Codec/Roundtrip.antt =====
-- Reading back what the codecs of crates/coding-agent-store/src/tasks.rs write.
use ngy_coding_agent.Base.{ℕ, zero, suc, ◌<◌, ◌≡◌, refl, true, arith, ok}
use ngy_coding_agent.Domain.Value.{event_id, pos}
use ngy_coding_agent.Domain.Task.{
  Task, TaskStatus, try_from_stored, state_is_valid, queued, running, completed, failed, cancelled,
  interrupted,
}
use ngy_coding_agent.Domain.Event.{TaskEventKind, TaskEventPayload, kind}
use ngy_coding_agent.Store.Tasks.Events.{lifecycle_payload, lifecycle_kind}
use ngy_coding_agent.Store.Codec.{
  status_text, parse_status, event_kind_text, parse_event_kind, u32_limit, task_from_record,
  payload_json, lifecycle_task, payload_from_value,
}

-- The text of every status is read back as that status.
pub parse_status-status_text : (s : TaskStatus) → parse_status (status_text s) ≡ ok s
unfolding parse_status status_text
parse_status-status_text queued = refl
parse_status-status_text running = refl
parse_status-status_text completed = refl
parse_status-status_text failed = refl
parse_status-status_text cancelled = refl
parse_status-status_text interrupted = refl

-- The text of every kind of event is read back as that kind.
pub parse_event_kind-event_kind_text :
    (k : TaskEventKind) → parse_event_kind (event_kind_text k) ≡ ok k
unfolding parse_event_kind event_kind_text
parse_event_kind-event_kind_text TaskEventKind.task_queued = refl
parse_event_kind-event_kind_text _ = refl

-- The columns of a task that do not yet name an event: the attempt is a positive `u32`, and the
-- times and the failure fit the status.
pub record IsReady (t : Task) : Type 0 where
  pub attempt_positive : 0 < t.attempt
  pub attempt_fits : t.attempt < u32_limit
  pub state_fits : state_is_valid t.status t ≡ true

pub record IsStored (t : Task) : Type 0 where
  pub ready : IsReady t
  pub open ready use *
  pub event_positive : 0 < t.last_event_id

pub try_from_stored-IsReady : (t : Task) → IsReady t → try_from_stored t ≡ ok t
unfolding try_from_stored
try_from_stored-IsReady t h = ground (arith, h.attempt_positive, h.state_fits)

event_id-pos : (n : ℕ) → 0 < n → event_id (pos n) ≡ ok n
unfolding event_id
event_id-pos zero h = absurd (omega arith)
event_id-pos (suc n) h = refl

pub task_from_record-IsStored : (t : Task) → IsStored t → task_from_record t ≡ ok t
unfolding task_from_record
task_from_record-IsStored t h = ground (
  arith,
  h.ready.attempt_fits,
  event_id-pos t.last_event_id h.event_positive,
  try_from_stored-IsReady t h.ready,
)

-- A lifecycle payload that belongs to the event: its task is stored, has the event's task and id,
-- and has the status of the event's kind.
pub record Belongs (task_id event_id : ℕ) (s : TaskStatus) (t : Task) : Type 0 where
  pub ready : IsReady t
  pub same_task : t.id ≡ task_id
  pub same_event : t.last_event_id ≡ event_id
  pub same_status : t.status ≡ s

abbrev pub IsWritable : ℕ → ℕ → TaskEventPayload → Type 0
IsWritable i e (TaskEventPayload.task_queued t) = Belongs i e queued t
IsWritable i e (TaskEventPayload.task_started t) = Belongs i e running t
IsWritable i e (TaskEventPayload.task_completed t) = Belongs i e completed t
IsWritable i e (TaskEventPayload.task_failed t) = Belongs i e failed t
IsWritable i e (TaskEventPayload.task_cancelled t) = Belongs i e cancelled t
IsWritable i e (TaskEventPayload.task_interrupted t) = Belongs i e interrupted t
IsWritable i e _ = Unit

lifecycle_task-written :
    (t : Task) (i e : ℕ) (s : TaskStatus)
    → Belongs i e s t
    → lifecycle_task (payload_json (TaskEventPayload.task_queued t)) i e s ≡ ok t
unfolding lifecycle_task payload_json
lifecycle_task-written t i e s h = ground (arith, try_from_stored-IsReady t h.ready)

-- A payload that was written for an event (for a lifecycle event: with a valid task of the id,
-- last event id and status of the event) is read back as it was.
pub payload_from_value-payload_json :
    (p : TaskEventPayload) (i e : ℕ)
    → IsWritable i e p
    → payload_from_value (kind p) (payload_json p) i e ≡ ok p
unfolding payload_from_value payload_json kind
payload_from_value-payload_json (TaskEventPayload.plan_updated x) i e h = refl
payload_from_value-payload_json (TaskEventPayload.activity_appended x) i e h = refl
payload_from_value-payload_json (TaskEventPayload.diff_updated x) i e h = refl
payload_from_value-payload_json (TaskEventPayload.test_updated x) i e h = refl
payload_from_value-payload_json (TaskEventPayload.task_queued t) i e h =
    rw (lifecycle_task-written t i e queued h)
payload_from_value-payload_json (TaskEventPayload.task_started t) i e h =
    rw (lifecycle_task-written t i e running h)
payload_from_value-payload_json (TaskEventPayload.task_completed t) i e h =
    rw (lifecycle_task-written t i e completed h)
payload_from_value-payload_json (TaskEventPayload.task_failed t) i e h =
    rw (lifecycle_task-written t i e failed h)
payload_from_value-payload_json (TaskEventPayload.task_cancelled t) i e h =
    rw (lifecycle_task-written t i e cancelled h)
payload_from_value-payload_json (TaskEventPayload.task_interrupted t) i e h =
    rw (lifecycle_task-written t i e interrupted h)

-- The payload that a task's status makes belongs to its event.
pub lifecycle_payload-IsWritable :
    (t : Task) {i e : ℕ}
    → IsReady t
    → t.id ≡ i
    → t.last_event_id ≡ e
    → (p : TaskEventPayload) × (lifecycle_payload (lifecycle_kind t.status) t ≡ ok p)
      × (kind p ≡ lifecycle_kind t.status)
      × IsWritable i e p
unfolding lifecycle_payload lifecycle_kind kind
lifecycle_payload-IsWritable t {i} {e} r same_task same_event = go t.status refl
  where
    belongs : (s : TaskStatus) → t.status ≡ s → Belongs i e s t
    belongs s h = record {
      ready = r;
      same_task = same_task;
      same_event = same_event;
      same_status = h;
    }

    Written : TaskStatus → Type 0
    Written s =
        (p : TaskEventPayload) × (lifecycle_payload (lifecycle_kind s) t ≡ ok p)
        × (kind p ≡ lifecycle_kind s)
        × IsWritable i e p

    go : (s : TaskStatus) → t.status ≡ s → Written s
    go queued h = (TaskEventPayload.task_queued t, refl, refl, belongs queued h)
    go running h = (TaskEventPayload.task_started t, refl, refl, belongs running h)
    go completed h = (TaskEventPayload.task_completed t, refl, refl, belongs completed h)
    go failed h = (TaskEventPayload.task_failed t, refl, refl, belongs failed h)
    go cancelled h = (TaskEventPayload.task_cancelled t, refl, refl, belongs cancelled h)
    go interrupted h = (TaskEventPayload.task_interrupted t, refl, refl, belongs interrupted h)
