-- ===== src/Store/Answers.antt =====
-- What the operations of crates/coding-agent-store/src/tasks.rs answer on a well-formed store.
pub mod Created
pub mod Known
pub mod Running
use ngy_coding_agent.Base.{
  [], inl, inr, ◌⊎◌, ◌==◌, ==_refl, ==→eq, not, ◌||◌, Bool-cases, ℕ, suc, ◌<◌, ◌≤◌, ◌≡◌, ◌≢◌, refl,
  sym, ap, subst, ◌∙◌, none, some, ok, err, true, false, arith, if◌then◌else◌, List, ◌∷◌, Bool,
}
use ngy_coding_agent.Domain.Value.{utc_timestamp, max_timestamp}
use ngy_coding_agent.Domain.Task.{NewTask, Task, TaskStatus, can_transition_to, try_new}
use ngy_coding_agent.Domain.Event.{TaskEventPayload}
use ngy_coding_agent.Store.Schema.{
  Db, TaskRow, find_where, update_where, same_id, same_request, same_bytes, idempotency_conflict,
}
use ngy_coding_agent.Store.Tx.{Env, ◌>>=◌, lift, require, transact, begin, commit}
use ngy_coding_agent.Store.Ensures.{transact_commits}
use ngy_coding_agent.Store.Table.{
  count-found, update-eq, find-update, found-key, find-keyed, count_refused, update_none, All-found,
  All-map,
}
use ngy_coding_agent.Store.Codec.{payload_json}
use ngy_coding_agent.Store.Codec.Roundtrip.{IsReady}
use ngy_coding_agent.Store.History.{at, replay}
use ngy_coding_agent.Store.Append.{next_event, recorded, ensure_one}
use ngy_coding_agent.Store.Tasks.Events.{
  current_timestamp, update_tasks, set_last_event, lifecycle_kind, max_rowid,
  append_lifecycle_event,
}
use ngy_coding_agent.Store.Tasks.{
  TaskTransition, next, apply_transition, in_status, transition_body, transition_rows,
  transition_applied, transition_conflict, transition_with_event, applied, conflict, create_task,
  create_checked, create_body, create_or_find, same_input, conflicts, existing,
}
use ngy_coding_agent.Store.Invariant.{IsWellFormed, IsCurrent}
use ngy_coding_agent.Store.Invariant.Record.{update-IsPending}
use ngy_coding_agent.Store.Invariant.Lifecycle.{logged}
use ngy_coding_agent.Store.Invariant.Transitions.{
  apply_transition-IsReady, apply_transition_status, apply_transition_id, apply_transition_request,
  apply_transition_source, advance-lifecycle_kind, has_status, eq-has_status,
}
use ngy_coding_agent.Store.Invariant.Panel.{load_where-IsWellFormed}

-- The database is there, and the clock can be stored.
pub record IsServing (env : Env) : Type 0 where
  pub begins : env.begin_error ≡ none
  pub commits : env.commit_error ≡ none
  pub clock : env.now ≤ max_timestamp

pub timestamp : (env : Env) (db : Db) → IsServing env → current_timestamp env db ≡ ok (env.now, db)
unfolding current_timestamp lift utc_timestamp
timestamp env db v = ground (arith, v.clock)

-- The store after a transition of the task `i`, whose event has the payload `p`.
abbrev pub transitioned : Db → Env → ℕ → TaskTransition → TaskEventPayload → Db
transitioned db env i tr p =
    let changed = record db {
      tasks = update_where (same_id i) (apply_transition tr env.now) db.tasks;
    } in
    recorded changed (update_where (same_id i) (set_last_event (suc db.sequence)) changed.tasks)
      (next_event changed i (lifecycle_kind (next tr)) (payload_json p) env.now)

module _ (db : Db) (w : IsWellFormed db) (env : Env) (v : IsServing env) where
  module _ (i : ℕ) (s : TaskStatus) (tr : TaskTransition)
      (legal : can_transition_to s (next tr) ≡ true) (row : TaskRow)
      (found : find_where (same_id i) db.tasks ≡ some row) where
    abbrev f : TaskRow → TaskRow
    f = apply_transition tr env.now

    abbrev changed : Db
    changed = record db { tasks = update_where (same_id i) f db.tasks }

    past : row.status ≡ s → replay i db.task_events ≡ at s
    past from =
        let (c, _) = find-keyed (λ t. t.id) (IsCurrent db.task_events) i db.tasks found w.current in
        subst (λ j. replay j db.task_events ≡ at s) (found-key (λ t. t.id) i db.tasks found)
          (c.status ∙ ap at from)

    ready : row.status ≡ s → IsReady (f row)
    ready from =
        let (c, _) = find-keyed (λ t. t.id) (IsCurrent db.task_events) i db.tasks found w.current in
        apply_transition-IsReady tr env.now row c.stored.ready
          (subst (λ s. can_transition_to s (next tr) ≡ true) (sym from) legal)

    appended :
        row.status ≡ s
        → db.sequence < max_rowid
        → (p : TaskEventPayload) × (append_lifecycle_event i
              (lifecycle_kind (next tr))
              env.now
              changed
            ≡ ok (
              (set_last_event (suc db.sequence) (f row), suc db.sequence),
              transitioned db env i tr p,
            ))
    appended from free =
        let status = apply_transition_status tr env.now row in
        let (p, e, _) =
          logged changed i env.now
            (update-IsPending f (apply_transition_id tr env.now)
              (apply_transition_request tr env.now) (apply_transition_source tr env.now) db i w)
            (find-update (λ t. t.id) i f db.tasks (apply_transition_id tr env.now) found)
            (ready from) (rw (past from, status) (advance-lifecycle_kind s (next tr) legal)) free in
        (
          p,
          subst
              (λ t.
                append_lifecycle_event i (lifecycle_kind t) env.now changed
                ≡ ok (
                  (set_last_event (suc db.sequence) (f row), suc db.sequence),
                  recorded changed
                      (update_where (same_id i) (set_last_event (suc db.sequence)) changed.tasks)
                      (next_event changed i (lifecycle_kind t) (payload_json p) env.now),
                ))
              status e,
        )

    applied-body :
        (p : TaskEventPayload)
        → row.status ≡ s
        → append_lifecycle_event i (lifecycle_kind (next tr)) env.now changed
          ≡ ok (
            (set_last_event (suc db.sequence) (f row), suc db.sequence),
            transitioned db env i tr p,
          )
        → transition_body env i s tr db
          ≡ ok (
            applied (set_last_event (suc db.sequence) (f row)) (suc db.sequence),
            transitioned db env i tr p,
          )
    unfolding transition_body transition_rows transition_applied update_tasks ◌>>=◌
    applied-body p from e = ground (
      arith,
      timestamp env db v,
      count-found (λ t. t.id) i (has_status s) db.tasks found w.ids (eq-has_status s row from),
      update-eq (λ t. t.id) i (has_status s) f db.tasks found (eq-has_status s row from) w.ids,
      ensure_one 1 "task transition updated multiple rows" changed refl,
      e,
    )

    -- In a well-formed store whose database answers, a legal transition of a task that is in the
    -- expected status succeeds while event ids are left: the row is changed, exactly one event of
    -- the next status is appended to the log with the next id, and the answer is the changed task
    -- with that id.
    pub transition_with_event-applied :
        row.status ≡ s
        → db.sequence < max_rowid
        → (p : TaskEventPayload) × (transition_with_event env i s tr db ≡ (
          ok (applied (set_last_event (suc db.sequence) (f row)) (suc db.sequence)),
          transitioned db env i tr p,
        ))
    unfolding transition_with_event
    transition_with_event-applied from free =
        let (p, e) = appended from free in
        (
          p,
          rw legal (
              transact_commits env (transition_body env i s tr) db v.begins v.commits
                (applied-body p from e)),
        )

    other_status : row.status ≢ s → has_status s row ≡ false
    other_status n = ground arith

    conflict-body : row.status ≢ s → transition_body env i s tr db ≡ ok (conflict row, db)
    unfolding transition_body transition_rows transition_conflict update_tasks ◌>>=◌ require
    conflict-body n =
        let refused =
          All-map (λ y. y.id ≡ i → y ≡ row) (λ y. y.id ≡ i → has_status s y ≡ false) db.tasks
            (λ y h k. subst (λ r. has_status s r ≡ false) (sym (h k)) (other_status n))
            (All-found (λ t. t.id) i db.tasks found w.ids) in
        let zero_rows = count_refused (λ t. t.id) i (has_status s) db.tasks refused in
        ground (
          arith,
          timestamp env db v,
          zero_rows,
          update_none (in_status i s) f db.tasks zero_rows,
          load_where-IsWellFormed db (same_id i) w,
          found,
        )

    -- In a well-formed store whose database answers, a legal transition of a task that is in
    -- another status than the expected one answers with the task as it is and changes nothing.
    pub transition_with_event-conflict :
        row.status ≢ s → transition_with_event env i s tr db ≡ (ok (conflict row), db)
    unfolding transition_with_event
    transition_with_event-conflict n =
        rw legal (
          transact_commits env (transition_body env i s tr) db v.begins v.commits (conflict-body n))
