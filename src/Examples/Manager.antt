-- ===== src/Examples/Manager.antt =====
-- The theorems on the task manager at concrete inputs.
use ngy_coding_agent.Store.Invariant.{IsWellFormed}
use ngy_coding_agent.Base.{
  ◌≡◌, ◌≢◌, refl, ok, err, arith, some, none, [], ◌∷◌, true, false, List, suc, length, ◌+◌, ◌<◌,
  ◌⊎◌,
}
use ngy_coding_agent.Domain.Task.{running, queued}
use ngy_coding_agent.Domain.Repository.{Repository}
use ngy_coding_agent.Store.Schema.{find_where, same_id}
use ngy_coding_agent.Store.Tasks.Events.{max_rowid}
use ngy_coding_agent.App.Writer.{StoreWriterError, run_writer}
use ngy_coding_agent.App.Writer.Handle.{
  Call, submit, expect_append, expect_transition, append_running_event, transition_with_event,
}
use ngy_coding_agent.App.Service.{
  ServiceState, ready, new, new-IsPublished, same_state, set, u64_limit,
}
use ngy_coding_agent.App.Manager.{
  TaskManager, RunnerEvent, RunnerEventError, RunnerOutcome, PendingDurableResult, spawn, is_frozen,
  is_ready, claims_allowed, contains_key, freeze_and_cancel, into_payload, enter_degraded,
  set_service, panics, unless_panicked, start_recovery,
}
use ngy_coding_agent.App.Manager.Claim.{ClaimEnv, ScanEnv, claim_one, repository_id_is}
use ngy_coding_agent.App.Manager.Requests.{
  append_runner_event, finish_runner, finalize_degraded, quiesce, outcome_transition,
}
use ngy_coding_agent.App.Manager.Cancel.{CancelEnv}
use ngy_coding_agent.App.Manager.Actor.{
  TaskManagerMessage, Step, message, tick, commands, freeze, begin_quiescing, run,
}
use ngy_coding_agent.App.Manager.Sound.{IsSound, enter_degraded-IsSound}
use ngy_coding_agent.App.Manager.Sound.Runs.{spawn-IsSound, run-spawn-IsSound}
use ngy_coding_agent.App.Manager.Frozen.{Stays, written_all, run-Stays}
use ngy_coding_agent.App.Manager.Shutdown.{HasQuiesced, quiesce-HasQuiesced}
use ngy_coding_agent.App.Manager.Degraded.{
  IsDegraded, append_runner_event-degrades, finish_runner-degrades,
}
use ngy_coding_agent.App.Manager.Resume.{finalize_degraded-resumes}
use ngy_coding_agent.App.Manager.Progress.{IsClear, IsRunning, found_by, claim_one_lem}
use ngy_coding_agent.Examples.Data.{
  db, db-IsWellFormed, db_sequence, attempt_at, task_8, found_8, recovery, cancel as cancel_8,
}

-- A call of the writer at the time 9, and one of a writer that has ended.
abbrev call : Call
call = record {
  others = [];
  is_closed = false;
  start = 9;
  deadline = 1009;
  attempts = attempt_at 9 0;
}

abbrev closed_call : Call
closed_call = record call { is_closed = true }

abbrev claim_env : ClaimEnv
claim_env = record {
  permit_acquired = false;
  handle_registered = false;
  sender_upgraded = false;
  running_committed = false;
  sender_open = true;
  call = call;
}

abbrev scan_env : ScanEnv
scan_env = record { refused = none; claims = λ n. claim_env }

abbrev cancel_env : CancelEnv
cancel_env = record { refused = none; call = call; others = []; refused_again = none }

abbrev manager : TaskManager
manager = spawn db (new ready) 2

ready_not_degraded : ready ≢ ServiceState.store_degraded
ready_not_degraded e = ground arith

abbrev steps : List Step
steps =
    tick scan_env
    ∷ message (TaskManagerMessage.runner_finished closed_call 8 RunnerOutcome.succeeded) scan_env
    ∷ commands (cancel_8 ∷ [])
    ∷ message (TaskManagerMessage.finalize_degraded false recovery) scan_env
    ∷ freeze
    ∷ message (TaskManagerMessage.cancel cancel_env 7) scan_env
    ∷ begin_quiescing
    ∷ []

service_starts : (new ready).current.state ≢ ServiceState.store_degraded
unfolding new
service_starts = ready_not_degraded

run-spawn-IsSound_example : IsSound 2 0 (run steps (spawn db (new ready) 2))
run-spawn-IsSound_example =
    run-spawn-IsSound steps db (new ready) 2 db-IsWellFormed (new-IsPublished ready) service_starts

abbrev frozen_manager : TaskManager
frozen_manager = freeze_and_cancel (spawn db (new ready) 2)

frozen_manager-frozen : is_frozen frozen_manager ≡ true
unfolding is_frozen freeze_and_cancel spawn
frozen_manager-frozen = refl

frozen_manager_alive : frozen_manager.panicked ≡ false
unfolding freeze_and_cancel spawn
frozen_manager_alive = refl

run-Stays_example :
    Stays frozen_manager (run steps frozen_manager)
    × ((run steps frozen_manager).db ≡ written_all steps frozen_manager.db)
run-Stays_example = run-Stays steps frozen_manager frozen_manager-frozen frozen_manager_alive

manager_db-IsWellFormed : IsWellFormed manager.db
unfolding spawn
manager_db-IsWellFormed = db-IsWellFormed

manager_unfrozen : is_frozen manager ≡ false
unfolding is_frozen spawn
manager_unfrozen = refl

manager_alive : manager.panicked ≡ false
unfolding spawn
manager_alive = refl

manager_generation : manager.service.current.generation ≡ 0
unfolding spawn new
manager_generation = refl

quiesce-HasQuiesced_example : HasQuiesced call (ok 9) manager (quiesce call (ok 9) manager)
quiesce-HasQuiesced_example =
    quiesce-HasQuiesced manager call (ok 9) manager_db-IsWellFormed manager_unfrozen manager_alive
      (omega (arith, manager_generation))

-- The runner of the task 7 reports.
abbrev reporting : TaskManager
reporting = record manager {
  available = 1;
  active = record { task_id = 7; is_cancelled = false; has_receiver = true } ∷ [];
}

abbrev report : RunnerEvent
report = RunnerEvent.plan_updated (record { revision = 1; items = [] })

reporting_active : contains_key 7 reporting.active ≡ true
unfolding contains_key
reporting_active = refl

reporting_allowed : claims_allowed reporting ≡ true
unfolding claims_allowed is_frozen is_ready same_state spawn new
reporting_allowed = refl

reporting_unfrozen : is_frozen reporting ≡ false
unfolding is_frozen spawn
reporting_unfrozen = refl

reporting_healthy : reporting.degraded ≡ false
unfolding spawn
reporting_healthy = refl

append_closed :
    (append_running_event closed_call 7 (into_payload report) reporting.db).0
    ≡ err StoreWriterError.closed
unfolding append_running_event submit expect_append
append_closed = refl

append_runner_event-degrades_example :
    (m' : TaskManager) × (append_runner_event closed_call 7 report reporting
      ≡ (err RunnerEventError.store_degraded, m'))
    × IsDegraded
        (PendingDurableResult.runner_event 7 report ∷ reporting.pending)
        (suc reporting.coordinators)
        m'
    × (m'.db ≡ run_writer closed_call.others reporting.db)
append_runner_event-degrades_example =
    append_runner_event-degrades reporting closed_call 7 report StoreWriterError.closed
      reporting_active reporting_allowed manager_alive (omega (arith, manager_generation))
      append_closed

finish_closed :
    (transition_with_event closed_call 7 running
      (outcome_transition RunnerOutcome.succeeded)
      reporting.db).0
    ≡ err StoreWriterError.closed
unfolding transition_with_event submit expect_transition
finish_closed = refl

finish_runner-degrades_example :
    IsDegraded
      (PendingDurableResult.runner_terminal 7 RunnerOutcome.succeeded ∷ reporting.pending)
      (suc reporting.coordinators)
      (finish_runner closed_call 7 RunnerOutcome.succeeded reporting)
    × ((finish_runner closed_call 7 RunnerOutcome.succeeded reporting).db
        ≡ run_writer closed_call.others reporting.db)
finish_runner-degrades_example =
    finish_runner-degrades reporting closed_call 7 RunnerOutcome.succeeded StoreWriterError.closed
      reporting_active reporting_unfrozen reporting_healthy manager_alive
      (omega (arith, manager_generation)) finish_closed

-- A manager that could not write an event.
abbrev degraded_manager : TaskManager
degraded_manager = enter_degraded (PendingDurableResult.runner_event 7 report) manager

degraded_manager-IsSound : IsSound 2 0 degraded_manager
degraded_manager-IsSound =
    enter_degraded-IsSound (PendingDurableResult.runner_event 7 report) manager
      (spawn-IsSound db (new ready) 2 db-IsWellFormed (new-IsPublished ready) service_starts)

degraded_facts :
    (degraded_manager.panicked ≡ false)
    × (degraded_manager.degraded ≡ true)
    × (is_frozen degraded_manager ≡ false)
    × (degraded_manager.service.current.state ≡ ServiceState.store_degraded)
    × (degraded_manager.service.current.generation ≡ 1)
unfolding enter_degraded unless_panicked start_recovery spawn set_service set same_state panics new
    is_frozen
degraded_facts = (refl, refl, refl, refl, refl)

not_quiescing : degraded_manager.service.current.state ≢ ServiceState.quiescing
not_quiescing e = ground (arith, degraded_facts.3)

room : degraded_manager.service.current.generation + 1 < u64_limit
room = omega (arith, degraded_facts.4)

finalize_degraded-resumes_example :
    (m' : TaskManager) × (finalize_degraded false recovery degraded_manager ≡ (
      ok (record {
        recovery = recovery;
        discarded_pending_count = length degraded_manager.pending;
        ready_generation = degraded_manager.service.current.generation + 1;
      }),
      m',
    ))
    × (claims_allowed m' ≡ true)
    × (m'.scan_requested ≡ true)
    × (m'.pending ≡ [])
finalize_degraded-resumes_example =
    finalize_degraded-resumes 2 degraded_manager recovery degraded_manager-IsSound degraded_facts.0
      degraded_facts.1 degraded_facts.2 not_quiescing room

abbrev repository : Repository
repository = record {
  id = 3;
  selected_path = b'/' ∷ b'r' ∷ [];
  display_name = "r";
  git_root = b'/' ∷ b'r' ∷ [];
  cargo_workspace_root = b'/' ∷ b'r' ∷ [];
  created_at = 1;
  last_opened_at = 1;
}

claim_env-IsClear : IsClear claim_env
claim_env-IsClear = record {
  permit_acquired = refl;
  handle_registered = refl;
  sender_upgraded = refl;
  running_committed = refl;
  sender_open = refl;
  call = record {
    unclosed = refl;
    early = refl;
    serving = record { begins = refl; commits = refl; clock = omega arith };
  };
}

manager_facts :
    (manager.available ≡ 2)
    × (contains_key 8 manager.active ≡ false)
    × (find_where (repository_id_is 3) (repository ∷ []) ≡ some repository)
    × (manager.db ≡ db)
unfolding spawn contains_key find_where
manager_facts = (refl, refl, refl, refl)

manager_room : (found_by claim_env manager).sequence < max_rowid
unfolding spawn run_writer
manager_room = omega (arith, db_sequence)

manager_found : find_where (same_id 8) (found_by claim_env manager).tasks ≡ some task_8
unfolding spawn run_writer
manager_found = found_8

claim_one_lem_example :
    ((task_8.status ≡ queued)
      × IsRunning claim_env repository task_8 manager 1 task_8
          (claim_one claim_env (repository ∷ []) task_8 manager))
    ⊎ ((task_8.status ≢ queued)
        × (claim_one claim_env (repository ∷ []) task_8 manager
            ≡ (true, record manager { db = found_by claim_env manager; done = 8 ∷ manager.done })))
claim_one_lem_example =
    claim_one_lem claim_env claim_env-IsClear repository (repository ∷ []) task_8 manager 1
      manager_db-IsWellFormed manager_unfrozen manager_facts.0 manager_facts.1 manager_facts.2
      manager_room task_8 manager_found
