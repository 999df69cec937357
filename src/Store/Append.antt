-- ===== src/Store/Append.antt =====
-- What `append_lifecycle_event` does to a database whose keys are unique and whose events rise.
-- (crates/coding-agent-store/src/tasks.rs)
use ngy_coding_agent.Domain.Value.{event_id}
use ngy_coding_agent.Base.{
  String, ℕ, suc, ◌<◌, ◌≤◌, ◌≡◌, refl, false, List, [], ◌∷◌, ◌++◌, arith, All, ltb, ok, err, some,
  map,
}
use ngy_coding_agent.Domain.Event.{TaskEventKind, TaskEventPayload}
use ngy_coding_agent.Store.Schema.{
  Db, table_full, EventRow, TaskRow, Object, find_where, update_where, count_where, same_id,
}
use ngy_coding_agent.Store.Tx.{◌>>=◌, lift, require}
use ngy_coding_agent.Store.Codec.{task_from_record, payload_json}
use ngy_coding_agent.Store.Table.{Distinct, find-update, count-key}
use ngy_coding_agent.Store.History.{Rising, Rising-bound}
use ngy_coding_agent.Store.Tasks.Events.{
  append_lifecycle_event, insert_event, insert_row, update_tasks, ensure_exactly_one, load_where,
  set_payload, set_last_event, lifecycle_payload, is_placeholder, max_rowid,
}

-- The row of an event that is recorded next.
abbrev pub next_event : Db → ℕ → TaskEventKind → Object → ℕ → EventRow
next_event db task_id kind payload now = record {
  id = suc db.sequence;
  schema_version = 1;
  task_id = task_id;
  kind = kind;
  payload_json = payload;
  created_at = now;
}

-- The database with one more event, and its tasks given anew.
abbrev pub recorded : Db → List TaskRow → EventRow → Db
recorded db tasks e = record db {
  tasks = tasks;
  task_events = db.task_events ++ e ∷ [];
  sequence = suc db.sequence;
}

module _ (n : ℕ) (e : EventRow) (new : e.id ≡ suc n) (blank : e.payload_json ≡ []) where
  placeholder-count :
      (es : List EventRow)
      → All (λ d. d.id ≤ n) es
      → count_where (is_placeholder (suc n)) (es ++ e ∷ []) ≡ 1
  unfolding count_where
  placeholder-count [] h = rw (new, blank) (ground arith)
  placeholder-count (d ∷ es) h = ground (arith, h.0, placeholder-count es h.1)

  placeholder-update :
      (payload : Object) (es : List EventRow)
      → All (λ d. d.id ≤ n) es
      → update_where
          (is_placeholder (suc n))
          (λ d. record d { payload_json = payload })
          (es ++ e ∷ [])
        ≡ es ++ record e { payload_json = payload } ∷ []
  unfolding update_where
  placeholder-update payload [] h = rw (new, blank) (ground arith)
  placeholder-update payload (d ∷ es) h = ground (arith, h.0, placeholder-update payload es h.1)

module _ (db : Db) (task_id : ℕ) (kind : TaskEventKind) (payload : Object) (now : ℕ) where
  insert_row-room :
      db.sequence < max_rowid
      → insert_row task_id kind payload now db
        ≡ ok (suc db.sequence, recorded db db.tasks (next_event db task_id kind payload now))
  unfolding insert_row
  insert_row-room room = ground arith

  insert_row-full :
      ltb db.sequence max_rowid ≡ false → insert_row task_id kind payload now db ≡ err table_full
  unfolding insert_row
  insert_row-full full = ground arith

  -- The INSERT of an event, while the table has room.
  pub insert_event-room :
      db.sequence < max_rowid
      → insert_event task_id kind payload now db
        ≡ ok (suc db.sequence, recorded db db.tasks (next_event db task_id kind payload now))
  unfolding insert_event event_id ◌>>=◌ lift
  insert_event-room room = ground (arith, insert_row-room room)

  pub insert_event-full :
      ltb db.sequence max_rowid ≡ false → insert_event task_id kind payload now db ≡ err table_full
  unfolding insert_event ◌>>=◌
  insert_event-full full = ground (arith, insert_row-full full)

pub ensure_one :
    (n : ℕ) (message : String) (db : Db) → n ≡ 1 → ensure_exactly_one n message db ≡ ok (tt, db)
unfolding ensure_exactly_one
ensure_one n message db h = rw h

-- On a row whose update is a stored task, a lifecycle event is recorded whole: the task takes its
-- id, and its payload is the task as it then stands. Only a full table stops it.
module _ (db : Db) (task_id : ℕ) (kind : TaskEventKind) (now : ℕ) {row : TaskRow}
    {payload : TaskEventPayload} (found : find_where (same_id task_id) db.tasks ≡ some row)
    (keys : Distinct (map (λ t. t.id) db.tasks)) (rising : Rising 0 db.sequence db.task_events)
    (stored : task_from_record (set_last_event (suc db.sequence) row)
      ≡ ok (set_last_event (suc db.sequence) row))
    (made : lifecycle_payload kind (set_last_event (suc db.sequence) row) ≡ ok payload) where
  abbrev lifecycle_tasks : List TaskRow
  lifecycle_tasks = update_where (same_id task_id) (set_last_event (suc db.sequence)) db.tasks

  blank_event : EventRow
  blank_event = next_event db task_id kind [] now

  loaded :
      find_where (same_id task_id) lifecycle_tasks ≡ some (set_last_event (suc db.sequence) row)
  loaded =
      find-update (λ t. t.id) task_id (set_last_event (suc db.sequence)) db.tasks
        (λ y. unfold set_last_event in refl) found

  blank : Db
  blank = recorded db lifecycle_tasks blank_event

  filled :
      set_payload (suc db.sequence) (payload_json payload) blank
      ≡ ok (1, recorded db lifecycle_tasks (next_event db task_id kind (payload_json payload) now))
  unfolding set_payload blank blank_event
  filled =
      let bound = Rising-bound 0 db.sequence db.task_events rising in
      rw (
        placeholder-count db.sequence blank_event refl refl db.task_events bound,
        placeholder-update db.sequence blank_event refl refl (payload_json payload) db.task_events
            bound,
      )

  pub append_lifecycle_event-room :
      db.sequence < max_rowid
      → append_lifecycle_event task_id kind now db
        ≡ ok (
          (set_last_event (suc db.sequence) row, suc db.sequence),
          recorded db lifecycle_tasks (next_event db task_id kind (payload_json payload) now),
        )
  unfolding ◌>>=◌ lift require append_lifecycle_event update_tasks load_where blank_event blank
  append_lifecycle_event-room room = ground (
    arith,
    insert_event-room db task_id kind [] now room,
    count-key (λ t. t.id) task_id db.tasks found keys,
    loaded,
    filled,
    ensure_one 1 "lifecycle event did not update exactly one task" blank refl,
    ensure_one 1 "lifecycle payload did not update exactly one placeholder"
        (recorded db lifecycle_tasks (next_event db task_id kind (payload_json payload) now)) refl,
  )

pub append_lifecycle_event-full :
    (db : Db) (task_id : ℕ) (kind : TaskEventKind) (now : ℕ)
    → ltb db.sequence max_rowid ≡ false
    → append_lifecycle_event task_id kind now db ≡ err table_full
unfolding append_lifecycle_event ◌>>=◌
append_lifecycle_event-full db task_id kind now full =
    ground (arith, insert_event-full db task_id kind [] now full)
