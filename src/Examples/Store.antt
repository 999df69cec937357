-- ===== src/Examples/Store.antt =====
-- The theorems on the store at concrete inputs.
use ngy_coding_agent.Base.{
  All, false, ◌⊎◌, ◌≡◌, true, refl, ok, err, arith, some, none, [], ◌∷◌, List, suc, take, true,
}
use Prim.Native.Nat.{min}
use ngy_coding_agent.Domain.Task.{NewTask, queued, can_transition_to, try_new, trim, trim_start}
use ngy_coding_agent.Domain.Event.{TaskEvent, TaskEventPayload}
use ngy_coding_agent.Store.Schema.{find_where, same_id, same_request, idempotency_conflict}
use ngy_coding_agent.Store.History.{replay}
use ngy_coding_agent.Store.Replay.{replay-standing, standing}
use ngy_coding_agent.Store.Tasks.Events.{set_last_event, max_rowid}
use ngy_coding_agent.Store.Tasks.{
  next, to_running, apply_transition, transition_with_event, applied, conflict, create_task,
  existing, append_running_event,
}
use ngy_coding_agent.Store.Tasks.Recovery.{recover_incomplete, is_incomplete}
use ngy_coding_agent.Store.Projection.{event_page, project_task_detail}
use ngy_coding_agent.Store.Answers.{
  IsServing, transitioned, transition_with_event-applied, transition_with_event-conflict,
}
use ngy_coding_agent.Store.Tasks.{is_panel, appended, not_running}
use ngy_coding_agent.Store.Answers.Running.{
  with_event, append_running_event-appended, append_running_event-not_running,
}
use ngy_coding_agent.Store.Answers.Known.{create_task-existing, Made}
use ngy_coding_agent.Store.Pages.{ids, event_ids, eligible, event_page_lem, Ascending}
use ngy_coding_agent.Store.Detail.{
  latest, plan_of, diff_of, tests_of, timeline_of, OnceEach, project_task_detail_lem,
}
use ngy_coding_agent.Store.Invariant.Recovery.{recover_incomplete-finishes}
use ngy_coding_agent.Examples.Data.{
  restart, recovery, recovered, db, db-IsWellFormed, db_sequence, db_tasks, found_7, found_8,
  task_7, task_8, env_at, task_input, free_read, free_read-IsAnswered,
}

serving : IsServing (env_at 5 9)
serving = record { begins = refl; commits = refl; clock = omega arith }

replay-standing_example : replay 7 db.task_events ≡ standing (find_where (same_id 7) db.tasks)
replay-standing_example = replay-standing db db-IsWellFormed 7

legal : can_transition_to queued (next to_running) ≡ true
unfolding can_transition_to next
legal = refl

transition_with_event-applied_example :
    (p : TaskEventPayload) × (transition_with_event (env_at 5 9) 8 queued to_running db ≡ (
      ok (
          applied
            (set_last_event (suc db.sequence) (apply_transition to_running 5 task_8))
            (suc db.sequence)),
      transitioned db (env_at 5 9) 8 to_running p,
    ))
transition_with_event-applied_example =
    transition_with_event-applied db db-IsWellFormed (env_at 5 9) serving 8 queued to_running legal
      task_8 found_8 refl (omega (arith, db_sequence))

transition_with_event-conflict_example :
    transition_with_event (env_at 5 9) 7 queued to_running db ≡ (ok (conflict task_7), db)
transition_with_event-conflict_example =
    transition_with_event-conflict db db-IsWellFormed (env_at 5 9) serving 7 queued to_running legal
      task_7 found_7 (ground arith)

abbrev plan : TaskEventPayload
plan = TaskEventPayload.plan_updated (record { revision = 1; items = [] })

abbrev trimmed_input : NewTask
trimmed_input = record {
  client_request_id = 107;
  repository_id = 3;
  prompt = b'f' ∷ b'i' ∷ b'x' ∷ [];
}

accepted : try_new 107 3 (task_input 107).prompt ≡ ok trimmed_input
unfolding try_new trim trim_start
accepted = refl

known_request : find_where (same_request 107) db.tasks ≡ some task_7
unfolding find_where
known_request = rw db_tasks refl

create_task-existing_example :
    (Made trimmed_input task_7
      × (create_task (env_at 5 9) (task_input 107) db ≡ (ok (existing task_7), db)))
    ⊎ (¬ Made trimmed_input task_7
        × (create_task (env_at 5 9) (task_input 107) db ≡ (err idempotency_conflict, db)))
create_task-existing_example =
    create_task-existing db db-IsWellFormed (env_at 5 9) serving (task_input 107) trimmed_input
      task_7 accepted known_request

event_page_lem_example :
    (events : List TaskEvent) × (event_page free_read (some 7) 1 10 db
      ≡ ok (record { events = events; high_watermark = db.sequence }))
    × (event_ids events ≡ ids (take (min 10 max_rowid) (eligible db (some 7) 1)))
    × Ascending 1 (event_ids events)
event_page_lem_example =
    event_page_lem db db-IsWellFormed (some 7) 1 10 free_read free_read-IsAnswered

abbrev panel_events : List TaskEvent
panel_events =
    record { id = 4; schema_version = 1; task_id = 7; payload = plan; created_at = 5 }
    ∷ record {
      id = 5;
      schema_version = 1;
      task_id = 7;
      payload = TaskEventPayload.task_completed task_7;
      created_at = 6;
    }
    ∷ []

project_task_detail_lem_example :
    ((project_task_detail task_7 panel_events 5).plan ≡ latest plan_of none panel_events)
    × ((project_task_detail task_7 panel_events 5).diff ≡ latest diff_of none panel_events)
    × ((project_task_detail task_7 panel_events 5).tests ≡ latest tests_of none panel_events)
    × ((project_task_detail task_7 panel_events 5).timeline ≡ timeline_of panel_events)
    × OnceEach [] (project_task_detail task_7 panel_events 5).activity
project_task_detail_lem_example = project_task_detail_lem task_7 panel_events 5

recover_incomplete-finishes_example :
    All (λ t. is_incomplete t.status ≡ false) (recover_incomplete (env_at 6 9) 6 restart db).1.tasks
recover_incomplete-finishes_example =
    recover_incomplete-finishes db db-IsWellFormed (env_at 6 9) 6 restart recovery recovered

panel : is_panel plan ≡ true
unfolding is_panel
panel = refl

append_running_event-appended_example :
    append_running_event (env_at 5 9) 7 plan db
    ≡ (ok (appended (suc db.sequence)), with_event db (env_at 5 9) 7 plan)
append_running_event-appended_example =
    append_running_event-appended db db-IsWellFormed (env_at 5 9) serving 7 plan panel task_7
      found_7 refl (omega (arith, db_sequence))

append_running_event-not_running_example :
    append_running_event (env_at 5 9) 8 plan db ≡ (ok (not_running task_8), db)
append_running_event-not_running_example =
    append_running_event-not_running db db-IsWellFormed (env_at 5 9) serving 8 plan panel task_8
      found_8 (ground arith)
