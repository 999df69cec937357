-- ===== src/Store/Invariant/Insert.antt =====
-- The INSERT of a task (crates/coding-agent-store/src/tasks.rs) under the constraints of the table.
use mathlib.Core.List.{append-nil}
use ngy_coding_agent.Base.{
  ap, ℕ, ◌≡◌, ◌≢◌, refl, List, [], ◌∷◌, ◌++◌, All, All-append, Option, none, some, arith, true,
  false, is_none, ◌∙◌,
}
use ngy_coding_agent.Store.Schema.{
  Db, TaskRow, find_where, same_id, same_request, retries, option_is,
}
use ngy_coding_agent.Store.Table.{
  Distinct, Distinct-snoc, absent_of_find, find-snoc_none, All-map, Distinct-append,
}
use ngy_coding_agent.Store.Tasks.Events.{insertable, retry_insertable}
use ngy_coding_agent.Store.Invariant.{IsCurrent, IsWellFormed, sources, add_source}
use ngy_coding_agent.Store.Invariant.Record.{IsPending}

-- Nobody retries `source` yet.
abbrev NotRetried : Option ℕ → List TaskRow → Type 0
NotRetried none ts = Unit
NotRetried (some source) ts = All (λ y. y ≢ source) (sources ts)

All-add_source :
    (s : ℕ) (o : Option ℕ) (rest : List ℕ)
    → option_is s o ≡ false
    → All (λ y. y ≢ s) rest
    → All (λ y. y ≢ s) (add_source o rest)
All-add_source s none rest h k = k
All-add_source s (some x) rest h k = (ground arith, k)

not_retried :
    (s : ℕ) (ts : List TaskRow) → find_where (retries s) ts ≡ none → All (λ y. y ≢ s) (sources ts)
unfolding find_where
not_retried s [] h = tt
not_retried s (t ∷ ts) h =
    All-add_source s t.retry_of (sources ts) (ground arith) (not_retried s ts (ground arith))

add_source-append :
    (o : Option ℕ) (ys zs : List ℕ) → add_source o (ys ++ zs) ≡ add_source o ys ++ zs
add_source-append none ys zs = refl
add_source-append (some x) ys zs = refl

sources-snoc :
    (ts : List TaskRow) (row : TaskRow)
    → sources (ts ++ row ∷ []) ≡ sources ts ++ add_source row.retry_of []
sources-snoc [] row = refl
sources-snoc (t ∷ ts) row =
    ap (add_source t.retry_of) (sources-snoc ts row)
    ∙ add_source-append t.retry_of (sources ts) (add_source row.retry_of [])

Distinct-sources :
    (ts : List TaskRow) (row : TaskRow)
    → Distinct (sources ts)
    → NotRetried row.retry_of ts
    → Distinct (sources (ts ++ row ∷ []))
Distinct-sources ts row d h = rw (sources-snoc ts row) (go row.retry_of h)
  where
    go : (o : Option ℕ) → NotRetried o ts → Distinct (sources ts ++ add_source o [])
    go none k = rw append-nil d
    go (some x) k = Distinct-append (sources ts) x d k

-- What the constraints that SQLite checks say of the row.
pub record IsNew (row : TaskRow) (db : Db) : Type 0 where
  pub new_id : find_where (same_id row.id) db.tasks ≡ none
  pub new_request : find_where (same_request row.client_request_id) db.tasks ≡ none
  pub new_source : NotRetried row.retry_of db.tasks

is_none-eq : (o : Option TaskRow) → is_none o ≡ true → o ≡ none
is_none-eq none h = refl
is_none-eq (some t) h = cc

pub insertable-IsNew : (row : TaskRow) (db : Db) → insertable row db ≡ true → IsNew row db
unfolding insertable
insertable-IsNew row db h = record {
  new_id = ground (arith, is_none-eq (find_where (same_id row.id) db.tasks));
  new_request =
      ground (arith, is_none-eq (find_where (same_request row.client_request_id) db.tasks));
  new_source = go row.retry_of (ground arith);
}
  where
    go : (o : Option ℕ) → retry_insertable o db.tasks ≡ true → NotRetried o db.tasks
    go none k = tt
    go (some x) k =
        not_retried x db.tasks (ground (arith, is_none-eq (find_where (retries x) db.tasks)))

abbrev pub inserted : Db → TaskRow → Db
inserted db row = record db { tasks = db.tasks ++ row ∷ [] }

pub insert-IsPending :
    (db : Db) (row : TaskRow) → IsWellFormed db → IsNew row db → IsPending (inserted db row) row.id
insert-IsPending db row w new = record {
  keys = record {
    ids =
        Distinct-snoc (λ t. t.id) db.tasks row w.keys.ids
          (absent_of_find (λ t. t.id) row.id db.tasks new.new_id);
    requests =
        Distinct-snoc (λ t. t.client_request_id) db.tasks row w.keys.requests
          (absent_of_find (λ t. t.client_request_id) row.client_request_id db.tasks
            new.new_request);
    retried = Distinct-sources db.tasks row w.keys.retried new.new_source;
    rising = w.keys.rising;
    decodes = w.keys.decodes;
    room = w.keys.room;
    readable = w.keys.readable;
  };
  others =
      All-append (λ t. t.id ≢ row.id → IsCurrent db.task_events t) db.tasks (row ∷ [])
        (All-map (IsCurrent db.task_events) (λ t. t.id ≢ row.id → IsCurrent db.task_events t)
          db.tasks (λ t c _. c) w.current)
        (λ away. absurd (away refl), tt);
  known = λ j away h. w.known j (find-snoc_none (λ t. t.id) j db.tasks row h).0;
}
