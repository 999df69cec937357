-- ===== src/Examples/Created.antt =====
-- The theorems on the tasks that are made, at concrete inputs.
use ngy_coding_agent.Base.{◌≡◌, refl, ok, err, arith, some, none, [], ◌∷◌, ℕ, List, suc, inr}
use ngy_coding_agent.Domain.Task.{NewTask, try_new, trim, trim_start, is_retryable}
use ngy_coding_agent.Domain.Event.{TaskEventPayload}
use ngy_coding_agent.Store.Schema.{task_not_retryable}
use ngy_coding_agent.Store.Tasks.Events.{set_last_event}
use ngy_coding_agent.Store.Tasks.{queued_row, create_task, retry_task, created, existing}
use ngy_coding_agent.Store.Answers.{IsServing}
use ngy_coding_agent.Store.Answers.Created.{
  with_task, create_task-created, retry_task-created, retry_task-existing, retry_task_refused,
}
use ngy_coding_agent.Examples.Data.{
  db, db-IsWellFormed, db_sequence, cancelled_db, cancelled_db-IsWellFormed, cancelled_sequence,
  retried_db, retried_db-IsWellFormed, cancelled_8, task_7, task_9, found_7, found_cancelled,
  found_retried, found_child, not_retried, fresh_9, fresh_retry, unknown_109, env_at, task_input,
}

abbrev fix : List ℕ
fix = b'f' ∷ b'i' ∷ b'x' ∷ []

abbrev fix_input : NewTask
fix_input = record { client_request_id = 109; repository_id = 3; prompt = fix }

env-IsServing : IsServing (env_at 5 9)
env-IsServing = record { begins = refl; commits = refl; clock = omega arith }

retry_env-IsServing : IsServing (env_at 6 9)
retry_env-IsServing = record { begins = refl; commits = refl; clock = omega arith }

accepted : try_new 109 3 (task_input 109).prompt ≡ ok fix_input
unfolding try_new trim trim_start
accepted = refl

create_task-created_example :
    (p : TaskEventPayload) × (create_task (env_at 5 9) (task_input 109) db ≡ (
      ok (
          created
            (set_last_event (suc db.sequence) (queued_row 9 109 3 fix 1 none 5))
            (suc db.sequence)),
      with_task db (queued_row 9 109 3 fix 1 none 5) p,
    ))
create_task-created_example =
    create_task-created db db-IsWellFormed (env_at 5 9) env-IsServing (omega (arith, db_sequence))
      (task_input 109) fix_input accepted unknown_109 fresh_9

retry_task-created_example :
    (p : TaskEventPayload) × (retry_task (env_at 6 9) 8 cancelled_db ≡ (
      ok (
          created
            (set_last_event (suc cancelled_db.sequence) (queued_row 9 109 3 fix 2 (some 8) 6))
            (suc cancelled_db.sequence)),
      with_task cancelled_db (queued_row 9 109 3 fix 2 (some 8) 6) p,
    ))
retry_task-created_example =
    retry_task-created cancelled_db cancelled_db-IsWellFormed (env_at 6 9) retry_env-IsServing
      (omega (arith, cancelled_sequence)) 8 cancelled_8 found_cancelled
      (unfold is_retryable in refl) not_retried (omega arith) fresh_retry

retry_task-existing_example :
    retry_task (env_at 6 9) 8 retried_db ≡ (ok (existing task_9), retried_db)
retry_task-existing_example =
    retry_task-existing retried_db retried_db-IsWellFormed (env_at 6 9) retry_env-IsServing 8
      cancelled_8 found_retried task_9 (unfold is_retryable in refl) found_child

retry_task_refused_example : retry_task (env_at 6 9) 7 db ≡ (err task_not_retryable, db)
retry_task_refused_example =
    retry_task_refused db db-IsWellFormed (env_at 6 9) retry_env-IsServing 7 task_7 found_7
      (inr refl)
