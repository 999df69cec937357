-- ===== src/Store/Tasks/Recovery.antt =====
-- `recover_incomplete` of crates/coding-agent-store/src/tasks.rs.
use ngy_coding_agent.Base.{
  ℕ, Bool, true, false, ◌&&◌, ◌||◌, Option, none, some, List, [], ◌∷◌, Result, ltb, leb, ◌==◌,
  length, map, sort_by,
}
use ngy_coding_agent.Domain.Task.{TaskStatus, TaskFailure, queued, running, interrupted}
use ngy_coding_agent.Domain.Event.{TaskEventKind}
use ngy_coding_agent.Store.Schema.{Db, StoreError, TaskRow, select_where}
use ngy_coding_agent.Store.Tx.{Env, Tx, ◌>>=◌, ◌>>◌, pure, gets, transact}
use ngy_coding_agent.Store.Tasks.Events.{
  ensure_exactly_one, update_tasks, append_lifecycle_event, latest_event_cursor,
}

pub record RecoveryOutcome : Type 0 where
  pub interrupted_count : ℕ
  pub first_event_id : Option ℕ
  pub last_event_id : Option ℕ
  pub high_watermark : ℕ

-- `status IN ('queued', 'running')`
unfoldable pub is_incomplete : TaskStatus → Bool
is_incomplete queued = true
is_incomplete running = true
is_incomplete _ = false

abbrev pub incomplete_row : TaskRow → Bool
incomplete_row t = is_incomplete t.status

abbrev pub incomplete_id : ℕ → TaskRow → Bool
incomplete_id id t = t.id == id && is_incomplete t.status

-- `ORDER BY created_at, id`
abbrev pub oldest_first : TaskRow → TaskRow → Bool
oldest_first s t = ltb s.created_at t.created_at || (s.created_at == t.created_at && leb s.id t.id)

unfoldable pub incomplete_ids : Db → List ℕ
incomplete_ids db = map (λ t. t.id) (sort_by oldest_first (select_where incomplete_row db.tasks))

-- The SET clause of the UPDATE.
unfoldable pub interrupt : ℕ → TaskFailure → TaskRow → TaskRow
interrupt now failure t = record t {
  status = interrupted;
  finished_at = some now;
  failure = some failure;
}

-- One round of the loop.
unfoldable pub recover_one : ℕ → TaskFailure → ℕ → Tx ℕ
recover_one now failure id = do
  rows ← update_tasks (incomplete_id id) (interrupt now failure)
  ensure_exactly_one rows "recovery did not update exactly one task"
  (task, event) ← append_lifecycle_event id TaskEventKind.task_interrupted now
  pure event

unfoldable pub recover_each : ℕ → TaskFailure → List ℕ → Tx (List ℕ)
recover_each now failure [] = pure []
recover_each now failure (id ∷ ids) = do
  event ← recover_one now failure id
  rest ← recover_each now failure ids
  pure (event ∷ rest)

unfoldable pub first : List ℕ → Option ℕ
first [] = none
first (x ∷ xs) = some x

unfoldable pub last : List ℕ → Option ℕ
last [] = none
last (x ∷ []) = some x
last (x ∷ y ∷ ys) = last (y ∷ ys)

unfoldable pub recover_body : ℕ → TaskFailure → Tx RecoveryOutcome
recover_body now failure = do
  ids ← gets incomplete_ids
  events ← recover_each now failure ids
  high ← latest_event_cursor
  pure (record {
    interrupted_count = length events;
    first_event_id = first events;
    last_event_id = last events;
    high_watermark = high;
  })

unfoldable pub recover_incomplete :
    Env → ℕ → TaskFailure → Db → Result StoreError RecoveryOutcome × Db
unfolding recover_body
recover_incomplete env now failure = transact env (recover_body now failure)
