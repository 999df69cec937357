-- ===== src/Store/Schema.antt =====
-- crates/coding-agent-store: StoreError (src/lib.rs), and the tables of migrations/0001_initial.sql
-- with the statements that the source runs on them. An identifier or a timestamp in a column is
-- kept as its value. The order of identifiers as texts is that of their values.
use ngy_coding_agent.Base.{
  ℕ, suc, Bool, true, false, ◌&&◌, Option, none, some, String, List, [], ◌∷◌, ◌==◌, if◌then◌else◌,
}
use ngy_coding_agent.Domain.Value.{DomainError}
use ngy_coding_agent.Domain.Task.{Task, TaskStatus}
use ngy_coding_agent.Domain.Event.{
  PlanSnapshot, ActivityEntry, DiffSnapshot, TestSnapshot, TaskEventKind,
}
use ngy_coding_agent.Domain.Repository.{Repository}

-- What `sqlx::Error` says: a SQLite result code, or a failure that has none.
pub data DatabaseError : Type 0 where
  sqlite : ℕ → DatabaseError
  other : DatabaseError

pub data StoreError : Type 0 where
  database : DatabaseError → StoreError
  domain : DomainError → StoreError
  invalid_task_status : String → StoreError
  invalid_event_kind : String → StoreError
  invalid_event_schema_version : ℕ → StoreError
  json : StoreError
  illegal_transition : TaskStatus → TaskStatus → StoreError
  idempotency_conflict task_not_found task_not_retryable invalid_running_event : StoreError
  task_attempt_overflow : StoreError
  invariant_violation : String → StoreError

-- SQLITE_CONSTRAINT and SQLITE_FULL
abbrev pub constraint_failed : StoreError
constraint_failed = database (sqlite 19)

abbrev pub table_full : StoreError
table_full = database (sqlite 13)

-- A JSON value as far as the store writes and reads them, and a JSON object of such values.
pub data Value : Type 0 where
  null : Value
  task_value : Task → Value
  plan_value : PlanSnapshot → Value
  entry_value : ActivityEntry → Value
  diff_value : DiffSnapshot → Value
  tests_value : TestSnapshot → Value

abbrev pub Object : Type 0
Object = List (String × Value)

-- A row of `tasks`. `last_event_id` is 0 until the first event of the task is recorded.
abbrev pub TaskRow : Type 0
TaskRow = Task

-- A row of `task_events`.
pub record EventRow : Type 0 where
  pub id : ℕ
  pub schema_version : ℕ
  pub task_id : ℕ
  pub kind : TaskEventKind
  pub payload_json : Object
  pub created_at : ℕ

-- A row of `repositories`, with the keys under which it is unique.
pub record RepositoryRow : Type 0 where
  pub repository : Repository
  pub git_identity_key : List ℕ
  pub cargo_identity_key : List ℕ

-- `sequence` is the largest row id that `task_events` has given out (AUTOINCREMENT).
pub record Db : Type 0 where
  pub repositories : List RepositoryRow
  pub tasks : List TaskRow
  pub task_events : List EventRow
  pub sequence : ℕ

abbrev pub empty : Db
empty = record { repositories = []; tasks = []; task_events = []; sequence = 0 }

module _ {ℓ} {A : Type ℓ} where
  -- `SELECT … WHERE p`, of which the first row is fetched.
  unfoldable pub find_where : (A → Bool) → List A → Option A
  find_where p [] = none
  find_where p (x ∷ xs) = let rest = find_where p xs in if p x then some x else rest

  -- `UPDATE … SET f WHERE p`
  unfoldable pub update_where : (A → Bool) → (A → A) → List A → List A
  update_where p f [] = []
  update_where p f (x ∷ xs) = (if p x then f x else x) ∷ update_where p f xs

  -- `rows_affected` of such an update.
  unfoldable pub count_where : (A → Bool) → List A → ℕ
  count_where p [] = 0
  count_where p (x ∷ xs) = let rest = count_where p xs in if p x then suc rest else rest

  -- `SELECT … WHERE p`
  unfoldable pub select_where : (A → Bool) → List A → List A
  select_where p [] = []
  select_where p (x ∷ xs) = let rest = select_where p xs in if p x then x ∷ rest else rest

-- Tests on columns.
abbrev pub same_id : ℕ → TaskRow → Bool
same_id i t = t.id == i

abbrev pub same_request : ℕ → TaskRow → Bool
same_request i t = t.client_request_id == i

abbrev pub option_is : ℕ → Option ℕ → Bool
option_is i none = false
option_is i (some j) = j == i

abbrev pub retries : ℕ → TaskRow → Bool
retries i t = option_is i t.retry_of

unfoldable pub same_bytes : List ℕ → List ℕ → Bool
same_bytes [] [] = true
same_bytes [] (y ∷ ys) = false
same_bytes (x ∷ xs) [] = false
same_bytes (x ∷ xs) (y ∷ ys) = x == y && same_bytes xs ys

abbrev pub has_repository : ℕ → RepositoryRow → Bool
has_repository i r = r.repository.id == i

abbrev pub same_keys : List ℕ → List ℕ → RepositoryRow → Bool
same_keys git cargo r = same_bytes r.git_identity_key git && same_bytes r.cargo_identity_key cargo
