-- ===== src/Store/Answers/Created.antt =====
-- What `create_task` and `retry_task` of crates/coding-agent-store/src/tasks.rs answer when they
-- make a task.
use ngy_coding_agent.Base.{
  ℕ, suc, ◌+◌, ◌<◌, ◌≡◌, refl, List, [], ◌∷◌, ◌++◌, Option, none, some, ok, err, true, false, arith,
}
use ngy_coding_agent.Base.{◌⊎◌, inl, inr}
use ngy_coding_agent.Domain.Task.{queued, running, NewTask, Task, try_new, is_retryable}
use ngy_coding_agent.Domain.Event.{TaskEventKind, TaskEventPayload, queued}
use ngy_coding_agent.Store.Schema.{
  Db, TaskRow, find_where, update_where, same_id, same_request, retries, task_not_retryable,
}
use ngy_coding_agent.Store.Tx.{Env, ◌>>=◌, require, transact, begin, commit}
use ngy_coding_agent.Store.Ensures.{transact_commits}
use ngy_coding_agent.Store.Table.{find-snoc}
use ngy_coding_agent.Store.Codec.{payload_json, u32_limit}
use ngy_coding_agent.Store.Append.{next_event, recorded}
use ngy_coding_agent.Store.Tasks.Events.{
  insertable, insert_task, set_last_event, max_rowid, append_lifecycle_event, lifecycle_kind,
}
use ngy_coding_agent.Store.Tasks.{
  queued_row, create_task, create_checked, create_body, create_or_find, create_new, retry_task,
  retry_body, retry_or_find, retry_new, created, existing,
}
use ngy_coding_agent.Store.Invariant.{IsWellFormed}
use ngy_coding_agent.Store.Invariant.Insert.{insertable-IsNew, inserted, insert-IsPending}
use ngy_coding_agent.Store.Invariant.Lifecycle.{logged}
use ngy_coding_agent.Store.Invariant.Operations.{queued-IsReady}
use ngy_coding_agent.Store.Invariant.Panel.{load_where-IsWellFormed}
use ngy_coding_agent.Store.Answers.{IsServing, timestamp}

-- The store with a new task, whose first event has the payload `p`.
abbrev pub with_task : Db → TaskRow → TaskEventPayload → Db
with_task db row p =
    let with_row = record db { tasks = db.tasks ++ row ∷ [] } in
    recorded with_row
      (update_where (same_id row.id) (set_last_event (suc db.sequence)) with_row.tasks)
      (next_event with_row row.id TaskEventKind.task_queued (payload_json p) row.created_at)

module _ (db : Db) (w : IsWellFormed db) where
  module _ (id request repository : ℕ) (prompt : List ℕ) (attempt : ℕ) (source : Option ℕ)
      (now : ℕ) where
    abbrev row : TaskRow
    row = queued_row id request repository prompt attempt source now

    insert-new : insertable row db ≡ true → insert_task row db ≡ ok (tt, inserted db row)
    unfolding insert_task
    insert-new new = ground (arith, new)

    recorded_row :
        insertable row db ≡ true
        → 0 < attempt
        → attempt < u32_limit
        → db.sequence < max_rowid
        → (p : TaskEventPayload) × (append_lifecycle_event id TaskEventKind.task_queued now
              (inserted db row)
            ≡ ok ((set_last_event (suc db.sequence) row, suc db.sequence), with_task db row p))
    unfolding lifecycle_kind
    recorded_row new positive fits room =
        let n = insertable-IsNew row db new in
        let (p, e, _) =
          logged (inserted db row) id now (insert-IsPending db row w n)
            (find-snoc (λ t. t.id) id db.tasks row n.new_id refl)
            (queued-IsReady id request repository prompt attempt source now positive fits)
            (rw (w.known id n.new_id) refl) room in
        (p, e)

  module _ (env : Env) (v : IsServing env) (room : db.sequence < max_rowid) where
    module _ (input new : NewTask)
        (accepted : try_new input.client_request_id input.repository_id input.prompt ≡ ok new)
        (unknown : find_where (same_request new.client_request_id) db.tasks ≡ none)
        (fresh : insertable
            (queued_row env.task_id new.client_request_id new.repository_id new.prompt 1 none
              env.now)
            db
          ≡ true) where
      abbrev created_row : TaskRow
      created_row =
          queued_row env.task_id new.client_request_id new.repository_id new.prompt 1 none env.now

      created-body :
          (p : TaskEventPayload)
          → append_lifecycle_event env.task_id TaskEventKind.task_queued env.now
              (inserted db created_row)
            ≡ ok (
              (set_last_event (suc db.sequence) created_row, suc db.sequence),
              with_task db created_row p,
            )
          → create_body env new db
            ≡ ok (
              created (set_last_event (suc db.sequence) created_row) (suc db.sequence),
              with_task db created_row p,
            )
      unfolding create_body create_or_find create_new ◌>>=◌
      created-body p e = ground (
        arith,
        load_where-IsWellFormed db (same_request new.client_request_id) w,
        unknown,
        timestamp env db v,
        insert-new env.task_id new.client_request_id new.repository_id new.prompt 1 none env.now
            fresh,
        e,
      )

      -- In a well-formed store whose database answers and where event ids are left, creating a
      -- task with an accepted prompt and an unknown request id succeeds when the constraints of
      -- the table admit its row: one queued row of attempt 1 with the trimmed prompt and one event
      -- with the next id are added, and the answer is that task with that id.
      pub create_task-created :
          (p : TaskEventPayload) × (create_task env input db ≡ (
            ok (created (set_last_event (suc db.sequence) created_row) (suc db.sequence)),
            with_task db created_row p,
          ))
      unfolding create_task create_checked
      create_task-created =
          let (p, e) =
            recorded_row env.task_id new.client_request_id new.repository_id new.prompt 1 none
              env.now fresh (omega arith) (omega arith) room in
          (
            p,
            rw accepted (
                transact_commits env (create_body env new) db v.begins v.commits
                  (created-body p e)),
          )

    module _ (i : ℕ) (source : Task) (found : find_where (same_id i) db.tasks ≡ some source) where
      abbrev retry_row : TaskRow
      retry_row =
          queued_row env.task_id env.client_request_id source.repository_id source.prompt
            (source.attempt + 1) (some source.id) env.now

      retried-body :
          (p : TaskEventPayload)
          → is_retryable source.status ≡ true
          → find_where (retries i) db.tasks ≡ none
          → source.attempt + 1 < u32_limit
          → insertable retry_row db ≡ true
          → append_lifecycle_event env.task_id TaskEventKind.task_queued env.now
              (inserted db retry_row)
            ≡ ok (
              (set_last_event (suc db.sequence) retry_row, suc db.sequence),
              with_task db retry_row p,
            )
          → retry_body env i db
            ≡ ok (
              created (set_last_event (suc db.sequence) retry_row) (suc db.sequence),
              with_task db retry_row p,
            )
      unfolding retry_body retry_or_find retry_new ◌>>=◌ require
      retried-body p over new fits fresh e = ground (
        arith,
        load_where-IsWellFormed db (same_id i) w,
        load_where-IsWellFormed db (retries i) w,
        found,
        new,
        timestamp env db v,
        insert-new env.task_id env.client_request_id source.repository_id source.prompt
            (source.attempt + 1) (some source.id) env.now fresh,
        e,
      )

      -- In a well-formed store whose database answers and where event ids are left, retrying a
      -- task that is at its end, has no retry yet and an attempt below the limit succeeds when the
      -- constraints of the table admit the new row: one queued row with the same repository and
      -- prompt, the next attempt and the task as its source, and one event with the next id are
      -- added, and the answer is that task with that id.
      pub retry_task-created :
          is_retryable source.status ≡ true
          → find_where (retries i) db.tasks ≡ none
          → source.attempt + 1 < u32_limit
          → insertable retry_row db ≡ true
          → (p : TaskEventPayload) × (retry_task env i db ≡ (
            ok (created (set_last_event (suc db.sequence) retry_row) (suc db.sequence)),
            with_task db retry_row p,
          ))
      unfolding retry_task
      retry_task-created over new fits fresh =
          let (p, e) =
            recorded_row env.task_id env.client_request_id source.repository_id source.prompt
              (source.attempt + 1) (some source.id) env.now fresh (omega arith) fits room in
          (
            p,
            transact_commits env (retry_body env i) db v.begins v.commits
                (retried-body p over new fits fresh e),
          )

  module _ (env : Env) (v : IsServing env) (i : ℕ) (source : Task)
      (found : find_where (same_id i) db.tasks ≡ some source) where
    -- In a well-formed store whose database answers, retrying a task that is at its end and has a
    -- retry already answers with that retry and changes nothing.
    pub retry_task-existing :
        (child : Task)
        → is_retryable source.status ≡ true
        → find_where (retries i) db.tasks ≡ some child
        → retry_task env i db ≡ (ok (existing child), db)
    unfolding retry_task retry_body retry_or_find ◌>>=◌ require transact begin commit
    retry_task-existing child over known = ground (
      arith,
      v.begins,
      v.commits,
      load_where-IsWellFormed db (same_id i) w,
      load_where-IsWellFormed db (retries i) w,
      found,
      known,
    )

    refused_by_status :
        is_retryable source.status ≡ false → retry_task env i db ≡ (err task_not_retryable, db)
    unfolding retry_task retry_body ◌>>=◌ require transact begin commit
    refused_by_status going =
        ground (arith, v.begins, v.commits, load_where-IsWellFormed db (same_id i) w, found)

    -- In a well-formed store whose database answers, retrying a task that is queued or running is
    -- refused as not retryable and changes nothing.
    pub retry_task_refused :
        (source.status ≡ queued) ⊎ (source.status ≡ running)
        → retry_task env i db ≡ (err task_not_retryable, db)
    unfolding is_retryable
    retry_task_refused (inl waits) = refused_by_status (rw waits refl)
    retry_task_refused (inr runs) = refused_by_status (rw runs refl)
