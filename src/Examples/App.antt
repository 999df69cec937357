-- ===== src/Examples/App.antt =====
-- The theorems on the writer, the service and the dispatcher at concrete inputs.
use ngy_coding_agent.Base.{◌+◌, ◌≡◌, refl, ◌++◌, ok, err, arith, some, [], ◌∷◌}
use Prim.Native.Nat.{max}
use ngy_coding_agent.Store.History.{replay}
use ngy_coding_agent.Store.Replay.{standing}
use ngy_coding_agent.Store.Schema.{find_where, same_id, empty}
use ngy_coding_agent.Store.Invariant.{IsWellFormed, empty-IsWellFormed}
use ngy_coding_agent.Store.Pages.{ids, event_ids}
use ngy_coding_agent.App.Writer.{
  StoreWriterOperation, run_writer, execute, expect_of, backend_execute, busy,
}
use ngy_coding_agent.App.Writer.Safety.{
  run_writer-standing, run_writer-IsWellFormed, execute-Attempted, Attempted, execute_rollback,
  expect_of-backend_execute,
}
use ngy_coding_agent.App.Clock.{civil_from_days}
use ngy_coding_agent.App.Clock.Calendar.{IsCivil, civil_from_days-IsCivil}
use ngy_coding_agent.App.Service.{
  ServiceStateController, new, set_each, ready, store_degraded, quiescing, quiescing_absorbs,
  IsPublished, new-IsPublished, set_each-IsPublished,
}
use ngy_coding_agent.App.Dispatcher.Waiters.{OnRound, run_round-IsWaiting}
use ngy_coding_agent.App.Dispatcher.{run_round, command, flush, Dispatcher, publish_available}
use ngy_coding_agent.App.Dispatcher.Ids.{above}
use ngy_coding_agent.App.Dispatcher.Publish.{publish_available_lem}
use ngy_coding_agent.Examples.Data.{
  commands, db, db-IsWellFormed, db_sequence, attempt_at, env_at, task_input, free_read,
  free_read-IsAnswered,
}

run_writer-IsWellFormed_example : IsWellFormed (run_writer commands empty)
run_writer-IsWellFormed_example = run_writer-IsWellFormed commands empty empty-IsWellFormed

abbrev new_task : StoreWriterOperation
new_task = StoreWriterOperation.create_task (task_input 109)

execute-Attempted_example :
    Attempted (attempt_at 5 9) 50 new_task db 5 (execute (attempt_at 5 9) 5 50 new_task db)
execute-Attempted_example = execute-Attempted (attempt_at 5 9) 50 new_task db 5

-- A write that starts too late.
late : (execute (attempt_at 5 9) 60 50 new_task db).0 ≡ err busy
unfolding execute
late = refl

execute_rollback_example : (execute (attempt_at 5 9) 60 50 new_task db).1 ≡ db
execute_rollback_example = execute_rollback (attempt_at 5 9) 50 new_task db 60 busy late

expect_of-backend_execute_example :
    expect_of new_task (backend_execute (env_at 5 9) new_task db).0
    ≡ (backend_execute (env_at 5 9) new_task db).0
expect_of-backend_execute_example = expect_of-backend_execute (env_at 5 9) new_task db

abbrev closing : ServiceStateController
closing = record {
  current = record { state = quiescing; generation = 1 };
  sent =
      record { state = quiescing; generation = 1 } ∷ record { state = ready; generation = 0 } ∷ [];
}

quiescing_absorbs_example : set_each (ready ∷ store_degraded ∷ []) closing ≡ closing
quiescing_absorbs_example = quiescing_absorbs (ready ∷ store_degraded ∷ []) closing refl

set_each-IsPublished_example :
    IsPublished (set_each (store_degraded ∷ ready ∷ quiescing ∷ []) (new ready))
set_each-IsPublished_example =
    set_each-IsPublished (store_degraded ∷ ready ∷ quiescing ∷ []) (new ready)
      (new-IsPublished ready)

-- A dispatcher that has seen the first event.
abbrev dispatcher : Dispatcher
dispatcher = record {
  cursor = 1;
  waiters = record { target = 3; response = 1 } ∷ [];
  events = [];
  responses = [];
}

publish_available_lem_example :
    (after : Dispatcher) × (publish_available 4 (λ n. free_read) db dispatcher
      ≡ some (ok tt, after))
    × (event_ids after.events
        ≡ event_ids dispatcher.events ++ above dispatcher.cursor (ids db.task_events))
    × (after.cursor ≡ max dispatcher.cursor db.sequence)
publish_available_lem_example =
    publish_available_lem db db-IsWellFormed 4 (λ n. free_read) dispatcher
      (λ n. free_read-IsAnswered) (omega arith) (omega (arith, db_sequence))

run_writer-standing_example :
    replay 7 (run_writer commands empty).task_events
    ≡ standing (find_where (same_id 7) (run_writer commands empty).tasks)
run_writer-standing_example = run_writer-standing commands 7

run_round-IsWaiting_example :
    OnRound (run_round 4 (λ n. free_read) db (command (flush 9 2)) dispatcher)
run_round-IsWaiting_example =
    run_round-IsWaiting 4 (λ n. free_read) db (command (flush 9 2)) dispatcher (omega arith, tt)

-- 2024-02-29
civil_from_days-IsCivil_example : IsCivil (19_782 + 719_468) (civil_from_days 19_782)
civil_from_days-IsCivil_example = civil_from_days-IsCivil 19_782
