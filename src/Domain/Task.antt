-- ===== src/Domain/Task.antt =====
-- crates/coding-agent-domain/src/task.rs: a task, its statuses, and the checks on new and stored tasks.
use ngy_coding_agent.Base.{
  ℕ, Bool, true, false, ◌&&◌, ◌||◌, Option, String, List, [], ◌∷◌, ltb, leb, ◌==◌, if◌then◌else◌,
  length, is_some, is_none, Result, ok, err,
}
use mathlib.Core.List.{reverse}
use ngy_coding_agent.Domain.Value.{
  DomainError, invalid_prompt, invalid_task_attempt, invalid_task_state,
}

pub data TaskStatus : Type 0 where
  queued running completed failed cancelled interrupted : TaskStatus

unfoldable pub TaskStatus-discrete : Discrete TaskStatus
TaskStatus-discrete = hlevel

unfoldable pub can_transition_to : TaskStatus → TaskStatus → Bool
can_transition_to queued running = true
can_transition_to queued cancelled = true
can_transition_to queued interrupted = true
can_transition_to running completed = true
can_transition_to running failed = true
can_transition_to running cancelled = true
can_transition_to running interrupted = true
can_transition_to _ _ = false

unfoldable pub is_retryable : TaskStatus → Bool
is_retryable completed = true
is_retryable failed = true
is_retryable cancelled = true
is_retryable interrupted = true
is_retryable _ = false

pub record TaskFailure : Type 0 where
  pub code : String
  pub message : String
  pub retryable : Bool

-- Identifiers are UUIDs, kept as numbers; a prompt is the list of its Unicode scalar values.
pub record NewTask : Type 0 where
  pub client_request_id : ℕ
  pub repository_id : ℕ
  pub prompt : List ℕ

-- `char::is_whitespace`
pub is_whitespace : ℕ → Bool
is_whitespace c =
    (leb 0x9 c && leb c 0xd)
    || c == 0x20
    || c == 0x85
    || c == 0xa0
    || c == 0x1680
    || (leb 0x2000 c && leb c 0x200a)
    || c == 0x2028
    || c == 0x2029
    || c == 0x202f
    || c == 0x205f
    || c == 0x3000

-- `str::trim_start`
unfoldable pub trim_start : List ℕ → List ℕ
trim_start [] = []
trim_start (c ∷ cs) = let rest = trim_start cs in if is_whitespace c then rest else c ∷ cs

-- `str::trim`
unfoldable pub trim : List ℕ → List ℕ
unfolding trim_start is_whitespace
trim s = reverse (trim_start (reverse (trim_start s)))

abbrev pub max_prompt : ℕ
max_prompt = 50_000

unfoldable pub try_new : ℕ → ℕ → List ℕ → Result DomainError NewTask
try_new client_request_id repository_id prompt =
    let trimmed = trim prompt in
    let scalar_count = length trimmed in
    if scalar_count == 0 || ltb max_prompt scalar_count
    then err invalid_prompt
    else ok (record {
      client_request_id = client_request_id;
      repository_id = repository_id;
      prompt = trimmed;
    })

pub record Task : Type 0 where
  pub id : ℕ
  pub client_request_id : ℕ
  pub repository_id : ℕ
  pub prompt : List ℕ
  pub status : TaskStatus
  pub attempt : ℕ
  pub retry_of : Option ℕ
  pub created_at : ℕ
  pub started_at : Option ℕ
  pub finished_at : Option ℕ
  pub last_event_id : ℕ
  pub failure : Option TaskFailure

abbrev pub state_is_valid : TaskStatus → Task → Bool
state_is_valid queued t = is_none t.started_at && is_none t.finished_at && is_none t.failure
state_is_valid running t = is_some t.started_at && is_none t.finished_at && is_none t.failure
state_is_valid completed t = is_some t.started_at && is_some t.finished_at && is_none t.failure
state_is_valid failed t = is_some t.started_at && is_some t.finished_at && is_some t.failure
state_is_valid cancelled t = is_some t.finished_at && is_none t.failure
state_is_valid interrupted t = is_some t.finished_at && is_some t.failure

unfoldable pub try_from_stored : Task → Result DomainError Task
try_from_stored t =
    if t.attempt == 0
    then err invalid_task_attempt
    else if state_is_valid t.status t
    then ok t
    else err invalid_task_state
