-- ===== src/Store/Invariant/Panel.antt =====
-- `append_running_event` of crates/coding-agent-store/src/tasks.rs keeps the invariant.
use ngy_coding_agent.Base.{
  ◌≢◌, ℕ, suc, ◌<◌, ◌≡◌, refl, sym, subst, some, ok, arith, Bool, true, ltb, ltb→lt, Bool-cases,
  inl, inr, Option-cases,
}
use ngy_coding_agent.Domain.Task.{TaskStatus, running}
use ngy_coding_agent.Domain.Event.{TaskEventPayload, kind}
use ngy_coding_agent.Store.Schema.{Db, TaskRow, EventRow, find_where, update_where, same_id}
use ngy_coding_agent.Store.Tx.{Env}
use ngy_coding_agent.Store.Ensures.{
  Ensures, Ensures-lift, Ensures-require, Ensures-ok, Ensures-err, transact-keeps,
}
use ngy_coding_agent.Store.Table.{find-All, update-eq, found-key, All-map}
use ngy_coding_agent.Store.Append.{recorded, next_event, insert_event-room, insert_event-full}
use ngy_coding_agent.Store.Codec.{payload_json}
use ngy_coding_agent.Store.Codec.Roundtrip.{IsWritable, task_from_record-IsStored}
use ngy_coding_agent.Store.History.{at, advance}
use ngy_coding_agent.Store.Tasks.Events.{
  current_timestamp, load_where, decode_row, insert_event, set_last_event, max_rowid,
}
use ngy_coding_agent.Store.Tasks.{in_status, is_panel, append_to, append_body, append_running_event}
use ngy_coding_agent.Store.Invariant.{IsWellFormed, IsCurrent}
use ngy_coding_agent.Store.Invariant.Record.{IsPending, record-IsWellFormed}
use ngy_coding_agent.Store.Invariant.Lifecycle.{Decodes-written}
use ngy_coding_agent.Store.Invariant.Operations.{WellFormedAfter}
use ngy_coding_agent.Store.Invariant.Transitions.{
  Ensures-update, Ensures-one, has_status, eq-has_status,
}

-- On a well-formed database every row decodes to itself.
pub load_where-IsWellFormed :
    (db : Db) (p : TaskRow → Bool)
    → IsWellFormed db
    → load_where p db ≡ ok (find_where p db.tasks, db)
unfolding load_where decode_row
load_where-IsWellFormed db p w = elim (Option-cases (find_where p db.tasks)) [
  | inl e ↦ rw (e, decode_row)
  | inr (row, e) ↦
      let (c, _) = find-All (IsCurrent db.task_events) p db.tasks e w.current in
      rw (e, decode_row) (rw (task_from_record-IsStored row c.stored, decode_row))
]

pub IsPending-IsWellFormed : (db : Db) (i : ℕ) → IsWellFormed db → IsPending db i
IsPending-IsWellFormed db i w = record {
  keys = w.keys;
  others =
      All-map (IsCurrent db.task_events) (λ t. t.id ≢ i → IsCurrent db.task_events t) db.tasks
        (λ t c _. c) w.current;
  known = λ j _. w.known j;
}

panel-IsWritable : (p : TaskEventPayload) (i e : ℕ) → is_panel p ≡ true → IsWritable i e p
unfolding is_panel
panel-IsWritable (TaskEventPayload.plan_updated x) i e h = tt
panel-IsWritable (TaskEventPayload.activity_appended x) i e h = tt
panel-IsWritable (TaskEventPayload.diff_updated x) i e h = tt
panel-IsWritable (TaskEventPayload.test_updated x) i e h = tt
panel-IsWritable _ i e h = absurd (cc h)

panel-advance :
    (p : TaskEventPayload) → is_panel p ≡ true → advance (at running) (kind p) ≡ at running
unfolding is_panel kind
panel-advance p h = ground arith

module _ (db : Db) (w : IsWellFormed db) (payload : TaskEventPayload)
    (panel : is_panel payload ≡ true) where
  module _ (row : TaskRow) (found : find_where (same_id row.id) db.tasks ≡ some row) (now : ℕ) where
    abbrev event : EventRow
    event = next_event db row.id (kind payload) (payload_json payload) now

    -- A running task with one more panel event.
    panel-keeps :
        row.status ≡ running
        → db.sequence < max_rowid
        → IsWellFormed (
            recorded db
              (update_where (same_id row.id) (set_last_event (suc db.sequence)) db.tasks)
              event)
    unfolding set_last_event
    panel-keeps runs free =
        let (c, _) =
          find-All (IsCurrent db.task_events) (same_id row.id) db.tasks found w.current in
        record-IsWellFormed db row.id event (IsPending-IsWellFormed db row.id w) found refl refl
          (Decodes-written event payload refl refl refl refl
            (panel-IsWritable payload row.id (suc db.sequence) panel))
          free
          (record {
            ready = record {
              attempt_positive = c.stored.ready.attempt_positive;
              attempt_fits = c.stored.ready.attempt_fits;
              state_fits = ground (arith, c.stored.ready.state_fits);
            };
            event_positive = omega arith;
          })
          (ground (arith, c.status, panel-advance payload panel))

  append_to-keeps :
      (env : Env) (row : TaskRow) (s : TaskStatus)
      → find_where (same_id row.id) db.tasks ≡ some row
      → row.status ≡ s
      → Ensures WellFormedAfter (append_to env payload row s db)
  unfolding append_to current_timestamp
  append_to-keeps env row running found runs = Ensures-lift WellFormedAfter db _ _ λ now _.
      elim (Bool-cases (ltb db.sequence max_rowid)) [
        | inl free ↦
            Ensures-ok WellFormedAfter db
              (insert_event row.id (kind payload) (payload_json payload) now) _
              (insert_event-room db row.id (kind payload) (payload_json payload) now
                (ltb→lt db.sequence max_rowid free))
              (Ensures-update WellFormedAfter _ (in_status row.id running)
                (set_last_event (suc db.sequence)) _
                (Ensures-one WellFormedAfter _ _ _ _ λ _.
                  rw
                    (update-eq (λ t. t.id) row.id (has_status running)
                      (set_last_event (suc db.sequence)) db.tasks found
                      (eq-has_status running row runs) w.ids)
                    (panel-keeps row found now runs (ltb→lt db.sequence max_rowid free))))
        | inr full ↦
            Ensures-err WellFormedAfter db
              (insert_event row.id (kind payload) (payload_json payload) now) _
              (insert_event-full db row.id (kind payload) (payload_json payload) now full)
      ]
  append_to-keeps env row _ found runs = w

  append_body-keeps : (env : Env) (i : ℕ) → Ensures WellFormedAfter (append_body env i payload db)
  unfolding append_body
  append_body-keeps env i =
      Ensures-ok WellFormedAfter db (load_where (same_id i)) _
        (load_where-IsWellFormed db (same_id i) w)
        (Ensures-require WellFormedAfter db (find_where (same_id i) db.tasks) _ _ λ row found.
          append_to-keeps env row row.status
            (subst (λ j. find_where (same_id j) db.tasks ≡ some row)
              (sym (found-key (λ t. t.id) i db.tasks found)) found)
            refl)

-- Appending an event to a task, whatever the payload and the status, keeps a well-formed store
-- well-formed.
pub append_running_event-IsWellFormed :
    (db : Db) (w : IsWellFormed db) (env : Env) (i : ℕ) (payload : TaskEventPayload)
    → IsWellFormed (append_running_event env i payload db).1
unfolding append_running_event
append_running_event-IsWellFormed db w env i payload = elim (Bool-cases (is_panel payload)) [
  | inl panel ↦ rw panel (
      transact-keeps IsWellFormed env (append_body env i payload) db w
        (append_body-keeps db w payload panel env i))
  | inr other ↦ rw other w
]
