-- ===== src/Store/Answers/Running.antt =====
-- What `append_running_event` of crates/coding-agent-store/src/tasks.rs answers.
use ngy_coding_agent.Base.{ap, ◌∙◌, ℕ, suc, ◌<◌, ◌≡◌, ◌≢◌, refl, some, ok, true, arith, subst, sym}
use ngy_coding_agent.Domain.Task.{Task, TaskStatus, running}
use ngy_coding_agent.Domain.Event.{TaskEventPayload, kind}
use ngy_coding_agent.Store.Schema.{Db, find_where, update_where, same_id}
use ngy_coding_agent.Store.Tx.{Env, ◌>>=◌, require}
use ngy_coding_agent.Store.Ensures.{transact_commits}
use ngy_coding_agent.Store.Table.{count-found, update-eq, found-key}
use ngy_coding_agent.Store.Codec.{payload_json}
use ngy_coding_agent.Store.Append.{next_event, recorded, ensure_one, insert_event-room}
use ngy_coding_agent.Store.Tasks.Events.{max_rowid, set_last_event, update_tasks}
use ngy_coding_agent.Store.Tasks.{
  is_panel, append_to, append_body, append_running_event, appended, not_running,
}
use ngy_coding_agent.Store.Invariant.{IsWellFormed}
use ngy_coding_agent.Store.Invariant.Transitions.{has_status, eq-has_status}
use ngy_coding_agent.Store.Invariant.Panel.{load_where-IsWellFormed}
use ngy_coding_agent.Store.Answers.{IsServing, timestamp}

-- The store with one more event of the task `i`.
abbrev pub with_event : Db → Env → ℕ → TaskEventPayload → Db
with_event db env i payload =
    recorded db (update_where (same_id i) (set_last_event (suc db.sequence)) db.tasks)
      (next_event db i (kind payload) (payload_json payload) env.now)

module _ (db : Db) (w : IsWellFormed db) (env : Env) (v : IsServing env) (i : ℕ)
    (payload : TaskEventPayload) (panel : is_panel payload ≡ true) (row : Task)
    (found : find_where (same_id i) db.tasks ≡ some row) where
  appended-to :
      (i ≡ row.id)
      → row.status ≡ running
      → db.sequence < max_rowid
      → append_to env payload row running db
        ≡ ok (appended (suc db.sequence), with_event db env row.id payload)
  unfolding append_to update_tasks ◌>>=◌
  appended-to same runs room =
      let there = subst (λ j. find_where (same_id j) db.tasks ≡ some row) same found in
      ground (
        arith,
        timestamp env db v,
        insert_event-room db row.id (kind payload) (payload_json payload) env.now room,
        count-found (λ t. t.id) row.id (has_status running) db.tasks there w.ids
            (eq-has_status running row runs),
        update-eq (λ t. t.id) row.id (has_status running) (set_last_event (suc db.sequence))
            db.tasks there (eq-has_status running row runs) w.ids,
        ensure_one 1 "running event did not update exactly one task"
            (with_event db env row.id payload) refl,
      )

  body-to : append_body env i payload db ≡ append_to env payload row row.status db
  unfolding append_body ◌>>=◌ require
  body-to = ground (arith, load_where-IsWellFormed db (same_id i) w, found)

  appended-body :
      row.status ≡ running
      → db.sequence < max_rowid
      → append_body env i payload db ≡ ok (appended (suc db.sequence), with_event db env i payload)
  appended-body runs room =
      let same : i ≡ row.id = sym (found-key (λ t. t.id) i db.tasks found) in
      body-to
      ∙ ap (λ s. append_to env payload row s db) runs
      ∙ appended-to same runs room
      ∙ ap (λ j. ok (appended (suc db.sequence), with_event db env j payload)) (sym same)

  -- In a well-formed store whose database answers and where event ids are left, appending a panel
  -- event to a running task succeeds: exactly one event of its kind, with its payload and the next
  -- id, is added, the row of the task takes that id, and the answer is that id.
  pub append_running_event-appended :
      row.status ≡ running
      → db.sequence < max_rowid
      → append_running_event env i payload db
        ≡ (ok (appended (suc db.sequence)), with_event db env i payload)
  unfolding append_running_event
  append_running_event-appended runs room = rw panel (
      transact_commits env (append_body env i payload) db v.begins v.commits
        (appended-body runs room))

  not_running-to :
      (s : TaskStatus) → s ≢ running → append_to env payload row s db ≡ ok (not_running row, db)
  unfolding append_to
  not_running-to s n = ground arith

  not_running-body : row.status ≢ running → append_body env i payload db ≡ ok (not_running row, db)
  not_running-body n = body-to ∙ not_running-to row.status n

  -- In a well-formed store whose database answers, appending a panel event to a task that is not
  -- running answers with the task as it is and changes nothing.
  pub append_running_event-not_running :
      row.status ≢ running → append_running_event env i payload db ≡ (ok (not_running row), db)
  unfolding append_running_event
  append_running_event-not_running n =
      rw panel (
        transact_commits env (append_body env i payload) db v.begins v.commits (not_running-body n))
