-- ===== src/Examples/Data.antt =====
-- A store that the writer has filled: a repository, a running task 7 and a queued task 8.
use ngy_coding_agent.Store.Projection.{ReadEnv}
use ngy_coding_agent.Store.Pages.{IsAnswered}
use ngy_coding_agent.Store.Tasks.Recovery.{
  RecoveryOutcome, recover_incomplete, recover_body, recover_each, recover_one, interrupt,
  incomplete_ids, is_incomplete, first, last,
}
use ngy_coding_agent.Base.{
  ok, sort_by, insert_by, true, ◌++◌, ℕ, ◌≡◌, refl, none, some, List, [], ◌∷◌, ◌+◌,
}
use ngy_coding_agent.Domain.Task.{TaskFailure, cancelled, NewTask, Task, queued, running}
use ngy_coding_agent.Domain.Path.{
  CanonicalPath, try_from_canonical, components, collect_from, has_forbidden, same_path, segments,
  named_components, is_absolute, push,
}
use ngy_coding_agent.Domain.Repository.{NewRepository}
use ngy_coding_agent.Store.Schema.{Db, empty, find_where, same_id, same_request, retries}
use ngy_coding_agent.Store.Tx.{Env}
use ngy_coding_agent.Store.Tasks.{to_running, to_cancelled, queued_row}
use ngy_coding_agent.Store.Invariant.{IsWellFormed, empty-IsWellFormed}
use ngy_coding_agent.App.Writer.{StoreWriterOperation, Command, Attempt, run_writer}
use ngy_coding_agent.App.Writer.Safety.{run_writer-IsWellFormed}
use ngy_coding_agent.Domain.Task.{
  TaskStatus-discrete, can_transition_to, is_retryable, trim_start, trim, try_new, try_from_stored,
}
use ngy_coding_agent.Domain.Value.{event_id, event_cursor, utc_timestamp}
use ngy_coding_agent.Store.Schema.{find_where, update_where, count_where, select_where, same_bytes}
use ngy_coding_agent.Store.Tx.{◌>>=◌, lift, require, commit, begin, transact}
use ngy_coding_agent.Store.Codec.{
  status_text, parse_status, event_kind_text, parse_event_kind, task_from_record, payload_json,
  payload_field, lifecycle_task, payload_from_value, event_from_record,
}
use ngy_coding_agent.Store.Tasks.Events.{
  current_timestamp, ensure_exactly_one, decode_row, load_where, retry_insertable, insertable,
  insert_task, update_tasks, set_last_event, insert_row, insert_event, lifecycle_payload,
  lifecycle_kind, set_payload, append_lifecycle_event, max_id, latest_event_cursor,
}
use ngy_coding_agent.Store.Tasks.{
  next, failure, create_new, conflicts, same_input, create_or_find, create_body, create_checked,
  create_task, retry_new, retry_or_find, retry_body, retry_task, apply_transition,
  transition_conflict, transition_applied, transition_rows, transition_body, transition_with_event,
  is_panel, append_to, append_body, append_running_event,
}
use ngy_coding_agent.Store.Repositories.{
  identity_key, reopen, update_repository, repository_insertable, insert_repository,
  register_existing, register_new, register_or_reopen, register_body, register_repository,
}
use ngy_coding_agent.Store.Repositories.Record.{repository_from_record}
use ngy_coding_agent.App.Writer.{
  sqlite_code_is_retryable, classify_store_error, backend_execute, retry_or_stop, execute_from,
  execute, expect, receipt_and_wake, expect_of, run_command, run_writer,
}
use ngy_coding_agent.Domain.Event.{kind}

abbrev pub env_at : ℕ → ℕ → Env
env_at now task = record {
  begin_error = none;
  commit_error = none;
  now = now;
  task_id = task;
  client_request_id = 100 + task;
  repository_id = 3;
}

abbrev pub attempt_at : ℕ → ℕ → ℕ → Attempt
attempt_at now task n = record { env = env_at now task; now = now; woken = now }

abbrev pub command_at : ℕ → ℕ → StoreWriterOperation → Command
command_at now task operation = record {
  operation = operation;
  deadline = now + 1000;
  start = now;
  attempts = attempt_at now task;
}

pub root_accepted : try_from_canonical (b'/' ∷ b'r' ∷ []) ≡ ok (b'/' ∷ b'r' ∷ [])
unfolding try_from_canonical components collect_from has_forbidden same_path segments
    named_components is_absolute push
root_accepted = refl

abbrev pub root : CanonicalPath
root = record { path = b'/' ∷ b'r' ∷ []; accepted = root_accepted }

abbrev pub repository_input : NewRepository
repository_input = record {
  selected_path = root;
  display_name = "r";
  git_root = root;
  cargo_workspace_root = root;
}

-- A task with the request `request` for the repository.
abbrev pub task_input : ℕ → NewTask
task_input request = record {
  client_request_id = request;
  repository_id = 3;
  prompt = b' ' ∷ b'f' ∷ b'i' ∷ b'x' ∷ b' ' ∷ [];
}

abbrev pub commands : List Command
commands =
    command_at 1 0 (StoreWriterOperation.register_repository repository_input)
    ∷ command_at 2 7 (StoreWriterOperation.create_task (task_input 107))
    ∷ command_at 3 8 (StoreWriterOperation.create_task (task_input 108))
    ∷ command_at 4 0 (StoreWriterOperation.transition_with_event 7 queued to_running)
    ∷ []

abbrev pub db : Db
db = run_writer commands empty

pub db-IsWellFormed : IsWellFormed db
db-IsWellFormed = run_writer-IsWellFormed commands empty empty-IsWellFormed

-- The row of the running task, and of the queued one.
abbrev pub task_7 : Task
task_7 = record {
  id = 7;
  client_request_id = 107;
  repository_id = 3;
  prompt = b'f' ∷ b'i' ∷ b'x' ∷ [];
  status = running;
  attempt = 1;
  retry_of = none;
  created_at = 2;
  started_at = some 4;
  finished_at = none;
  last_event_id = 3;
  failure = none;
}

abbrev pub task_8 : Task
task_8 = record {
  id = 8;
  client_request_id = 108;
  repository_id = 3;
  prompt = b'f' ∷ b'i' ∷ b'x' ∷ [];
  status = queued;
  attempt = 1;
  retry_of = none;
  created_at = 3;
  started_at = none;
  finished_at = none;
  last_event_id = 2;
  failure = none;
}

-- The queued task cancelled, and then retried as the task 9.
abbrev pub cancel : Command
cancel = command_at 5 0 (StoreWriterOperation.transition_with_event 8 queued to_cancelled)

abbrev pub cancelled_db : Db
cancelled_db = run_writer (commands ++ cancel ∷ []) empty

abbrev pub retried_db : Db
retried_db =
    run_writer (commands ++ cancel ∷ command_at 6 9 (StoreWriterOperation.retry_task 8) ∷ []) empty

pub cancelled_db-IsWellFormed : IsWellFormed cancelled_db
cancelled_db-IsWellFormed =
    run_writer-IsWellFormed (commands ++ cancel ∷ []) empty empty-IsWellFormed

pub retried_db-IsWellFormed : IsWellFormed retried_db
retried_db-IsWellFormed =
    run_writer-IsWellFormed
      (commands ++ cancel ∷ command_at 6 9 (StoreWriterOperation.retry_task 8) ∷ []) empty
      empty-IsWellFormed

abbrev pub cancelled_8 : Task
cancelled_8 = record task_8 { status = cancelled; finished_at = some 5; last_event_id = 4 }

abbrev pub task_9 : Task
task_9 = record {
  id = 9;
  client_request_id = 109;
  repository_id = 3;
  prompt = b'f' ∷ b'i' ∷ b'x' ∷ [];
  status = queued;
  attempt = 2;
  retry_of = some 8;
  created_at = 6;
  started_at = none;
  finished_at = none;
  last_event_id = 5;
  failure = none;
}

abbrev pub restart : TaskFailure
restart = record { code = "restart"; message = "the application was restarted"; retryable = true }

abbrev pub recovery : RecoveryOutcome
recovery = record {
  interrupted_count = 2;
  first_event_id = some 4;
  last_event_id = some 5;
  high_watermark = 5;
}

-- What the commands leave, computed.
db_rows :
    (db.tasks ≡ task_7 ∷ task_8 ∷ [])
    × (db.sequence ≡ 3)
    × (insertable (queued_row 9 109 3 (b'f' ∷ b'i' ∷ b'x' ∷ []) 1 none 5) db ≡ true)
    × (cancelled_db.tasks ≡ task_7 ∷ cancelled_8 ∷ [])
    × (cancelled_db.sequence ≡ 4)
    × (insertable (queued_row 9 109 3 (b'f' ∷ b'i' ∷ b'x' ∷ []) 2 (some 8) 6) cancelled_db ≡ true)
    × (retried_db.tasks ≡ task_7 ∷ cancelled_8 ∷ task_9 ∷ [])
    × ((recover_incomplete (env_at 6 9) 6 restart db).0 ≡ ok recovery)
unfolding TaskStatus-discrete can_transition_to is_retryable trim_start trim try_new try_from_stored
    event_id event_cursor utc_timestamp find_where update_where count_where select_where same_bytes
    ◌>>=◌ lift require commit begin transact status_text parse_status event_kind_text
    parse_event_kind task_from_record payload_json payload_field lifecycle_task payload_from_value
    event_from_record current_timestamp ensure_exactly_one decode_row load_where retry_insertable
    insertable insert_task update_tasks set_last_event insert_row insert_event lifecycle_payload
    lifecycle_kind set_payload append_lifecycle_event max_id latest_event_cursor next failure
    create_new conflicts same_input create_or_find create_body create_checked create_task retry_new
    retry_or_find retry_body retry_task apply_transition transition_conflict transition_applied
    transition_rows transition_body transition_with_event is_panel append_to append_body
    append_running_event identity_key reopen update_repository repository_insertable
    insert_repository register_existing register_new register_or_reopen register_body
    register_repository repository_from_record sqlite_code_is_retryable classify_store_error
    backend_execute retry_or_stop execute_from execute expect receipt_and_wake expect_of run_command
    run_writer kind recover_incomplete recover_body recover_each recover_one interrupt
    incomplete_ids is_incomplete first last sort_by insert_by
db_rows = (refl, refl, refl, refl, refl, refl, refl, refl)

pub db_tasks : db.tasks ≡ task_7 ∷ task_8 ∷ []
db_tasks = db_rows.0

pub db_sequence : db.sequence ≡ 3
db_sequence = db_rows.1

pub found_7 : find_where (same_id 7) db.tasks ≡ some task_7
unfolding find_where
found_7 = rw db_tasks refl

pub found_8 : find_where (same_id 8) db.tasks ≡ some task_8
unfolding find_where
found_8 = rw db_tasks refl

pub fresh_9 : insertable (queued_row 9 109 3 (b'f' ∷ b'i' ∷ b'x' ∷ []) 1 none 5) db ≡ true
fresh_9 = db_rows.2

pub cancelled_sequence : cancelled_db.sequence ≡ 4
cancelled_sequence = db_rows.4

pub fresh_retry :
    insertable (queued_row 9 109 3 (b'f' ∷ b'i' ∷ b'x' ∷ []) 2 (some 8) 6) cancelled_db ≡ true
fresh_retry = db_rows.5

pub found_cancelled : find_where (same_id 8) cancelled_db.tasks ≡ some cancelled_8
unfolding find_where
found_cancelled = rw db_rows.3 refl

pub not_retried : find_where (retries 8) cancelled_db.tasks ≡ none
unfolding find_where
not_retried = rw db_rows.3 refl

pub found_retried : find_where (same_id 8) retried_db.tasks ≡ some cancelled_8
unfolding find_where
found_retried = rw db_rows.6 refl

pub found_child : find_where (retries 8) retried_db.tasks ≡ some task_9
unfolding find_where
found_child = rw db_rows.6 refl

pub unknown_109 : find_where (same_request 109) db.tasks ≡ none
unfolding find_where
unknown_109 = rw db_tasks refl

pub recovered : (recover_incomplete (env_at 6 9) 6 restart db).0 ≡ ok recovery
recovered = db_rows.7

-- A read that the database answers.
abbrev pub free_read : ReadEnv
free_read = record {
  begin_error = none;
  latest_error = none;
  events_error = none;
  commit_error = none;
}

pub free_read-IsAnswered : IsAnswered free_read
free_read-IsAnswered = record { begins = refl; latest = refl; events = refl; commits = refl }
