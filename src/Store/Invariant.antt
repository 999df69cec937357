-- ===== src/Store/Invariant.antt =====
-- What holds of the database between two operations of crates/coding-agent-store/src/tasks.rs.
pub mod Record
pub mod Lifecycle
pub mod Insert
pub mod Operations
pub mod Transitions
pub mod Panel
pub mod Cleared
pub mod Recovery
pub mod Repositories
use ngy_coding_agent.Base.{
  ℕ, zero, suc, ◌<◌, ◌≤◌, ◌≡◌, ◌≢◌, refl, List, [], ◌∷◌, All, map, Option, none, some, ok, arith,
}
use ngy_coding_agent.Domain.Path.{try_from_canonical}
use ngy_coding_agent.Domain.Task.{Task}
use ngy_coding_agent.Domain.Event.{TaskEvent}
use ngy_coding_agent.Store.Schema.{Db, empty, EventRow, RepositoryRow, TaskRow, find_where, same_id}
use ngy_coding_agent.Store.Codec.{event_from_record}
use ngy_coding_agent.Store.Codec.Roundtrip.{IsStored}
use ngy_coding_agent.Store.Table.{Distinct}
use ngy_coding_agent.Store.History.{Rising, History, absent, at, replay, replay_from, last_of}
use ngy_coding_agent.Store.Tasks.Events.{max_rowid}

abbrev pub add_source : Option ℕ → List ℕ → List ℕ
add_source none rest = rest
add_source (some source) rest = source ∷ rest

-- The tasks that have been retried.
abbrev pub sources : List TaskRow → List ℕ
sources [] = []
sources (t ∷ ts) = add_source t.retry_of (sources ts)

-- A row of `tasks` can be read, and says what the log says of the task.
pub record IsCurrent (es : List EventRow) (t : TaskRow) : Type 0 where
  pub stored : IsStored t
  pub status : replay t.id es ≡ at t.status
  pub last : t.last_event_id ≡ last_of t.id es

abbrev pub Decodes : EventRow → Type 0
Decodes e = (event : TaskEvent) × (event_from_record e ≡ ok event)

abbrev pub IsCanonical : List ℕ → Type 0
IsCanonical path = try_from_canonical path ≡ ok path

-- A row of `repositories` can be read: its paths are canonical.
pub record IsReadable (r : RepositoryRow) : Type 0 where
  pub selected : IsCanonical r.repository.selected_path
  pub git : IsCanonical r.repository.git_root
  pub cargo : IsCanonical r.repository.cargo_workspace_root

-- The part that does not speak of single tasks.
pub record HasKeys (db : Db) : Type 0 where
  pub ids : Distinct (map (λ t. t.id) db.tasks)
  pub requests : Distinct (map (λ t. t.client_request_id) db.tasks)
  pub retried : Distinct (sources db.tasks)
  pub rising : Rising 0 db.sequence db.task_events
  pub decodes : All Decodes db.task_events
  pub room : db.sequence ≤ max_rowid
  pub readable : All IsReadable db.repositories

pub record IsWellFormed (db : Db) : Type 0 where
  pub keys : HasKeys db
  pub open keys use *
  pub current : All (IsCurrent db.task_events) db.tasks
  pub known : (i : ℕ) → find_where (same_id i) db.tasks ≡ none → replay i db.task_events ≡ absent

pub empty-IsWellFormed : IsWellFormed empty
unfolding replay_from
empty-IsWellFormed = record {
  keys = record {
    ids = tt;
    requests = tt;
    retried = tt;
    rising = refl;
    decodes = tt;
    room = omega arith;
    readable = tt;
  };
  current = tt;
  known = λ i h. refl;
}
