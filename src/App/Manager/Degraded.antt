-- ===== src/App/Manager/Degraded.antt =====
-- How the actor of crates/coding-agent-app/src/task_manager.rs becomes degraded when the writer fails.
use ngy_coding_agent.App.Manager.{remove_key, start_recovery, unless_panicked}
use ngy_coding_agent.App.Manager.Alive.{unless_alive, unless_both, set_service_alive}
use ngy_coding_agent.App.Service.{ServiceState, u64_limit}
use ngy_coding_agent.Base.{
  ◌+◌, ◌<◌, if_true, if_false, if_both, ◌==◌, ℕ, suc, ◌≡◌, refl, sym, subst, ◌∙◌, inl, inr, true,
  false, List, [], ◌∷◌, All, arith, Bool-cases, err,
}
use ngy_coding_agent.Domain.Task.{running}
use ngy_coding_agent.App.Writer.{StoreWriterError, run_writer}
use ngy_coding_agent.App.Writer.Handle
use ngy_coding_agent.App.Writer.Handle.{Call}
use ngy_coding_agent.App.Writer.Answers.{append-rollback, transition-rollback}
use ngy_coding_agent.App.Manager.{
  TaskManager, ActiveRunner, RunnerEvent, RunnerEventError, RunnerOutcome, PendingDurableResult,
  into_payload, is_frozen, is_ready, claims_allowed, contains_key, cancel_all, enter_degraded,
  set_service, remove_active,
}
use ngy_coding_agent.App.Manager.Requests.{
  degraded_answer, append_runner_event, append_active, append_settled, finish_runner, finish_active,
  finish_settled, outcome_transition, request_scan,
}

pub cancel_all-All : (l : List ActiveRunner) → All (λ r. r.is_cancelled ≡ true) (cancel_all l)
unfolding cancel_all
cancel_all-All [] = tt
cancel_all-All (r ∷ rs) = (refl, cancel_all-All rs)

-- The actor lives and is degraded: it claims nothing, it has cancelled every runner, it keeps the result
-- that could not be written, and a recovery has been started.
pub record IsDegraded (pending : List PendingDurableResult) (coordinators : ℕ) (m : TaskManager)
    : Type 0 where
  pub alive : m.panicked ≡ false
  pub degraded : m.degraded ≡ true
  pub no_claims : claims_allowed m ≡ false
  pub kept : m.pending ≡ pending
  pub cancelled : All (λ r. r.is_cancelled ≡ true) m.active
  pub recovering : m.coordinators ≡ coordinators

no_claims : (m : TaskManager) → m.degraded ≡ true → claims_allowed m ≡ false
unfolding claims_allowed
no_claims m h = ground arith

-- The state in which the service has been set, and nothing more.
entered : PendingDurableResult → TaskManager → TaskManager
entered pending m =
    set_service ServiceState.store_degraded
      (record m { pending = pending ∷ m.pending; degraded = true; scan_requested = false })

entered_alive :
    (pending : PendingDurableResult) (m : TaskManager)
    → m.panicked ≡ false
    → m.service.current.generation + 1 < u64_limit
    → (entered pending m).panicked ≡ false
unfolding entered
entered_alive pending m alive room =
    set_service_alive ServiceState.store_degraded
      (record m { pending = pending ∷ m.pending; degraded = true; scan_requested = false }) alive
      room

pub enter-IsDegraded :
    (pending : PendingDurableResult) (m : TaskManager)
    → m.degraded ≡ false
    → m.panicked ≡ false
    → m.service.current.generation + 1 < u64_limit
    → IsDegraded (pending ∷ m.pending) (suc m.coordinators) (enter_degraded pending m)
unfolding enter_degraded set_service start_recovery entered
enter-IsDegraded pending m h alive room =
    let set = entered_alive pending m alive room in
    rw (h, unless_alive start_recovery (entered pending m) set)
      record {
        alive = set;
        degraded = refl;
        no_claims = no_claims _ refl;
        kept = refl;
        cancelled = cancel_all-All m.active;
        recovering = refl;
      }

enter-db : (pending : PendingDurableResult) (m : TaskManager) → (enter_degraded pending m).db ≡ m.db
unfolding enter_degraded set_service start_recovery
enter-db pending m = elim (Bool-cases m.degraded) [
  | inl already ↦ if_true {A = TaskManager} (λ r. r.db ≡ m.db) m.degraded _ already refl
  | inr first ↦
      if_false {A = TaskManager} (λ r. r.db ≡ m.db) m.degraded _ first
        (unless_both (λ r. r.db ≡ m.db) start_recovery _ refl refl)
]

allowed_parts :
    (m : TaskManager)
    → claims_allowed m ≡ true
    → (is_frozen m ≡ false) × (m.degraded ≡ false) × (is_ready m ≡ true)
unfolding claims_allowed
allowed_parts m h = (ground arith, ground arith, ground arith)

append_reaches :
    (m : TaskManager) (call : Call) (id : ℕ) (event : RunnerEvent)
    → contains_key id m.active ≡ true
    → is_frozen m ≡ false
    → m.degraded ≡ false
    → is_ready m ≡ true
    → append_runner_event call id event m ≡ append_active call id event m
unfolding append_runner_event
append_reaches m call id event active unfrozen healthy ready = ground arith

append_fails :
    (m : TaskManager) (call : Call) (id : ℕ) (event : RunnerEvent) {e : StoreWriterError}
    → (Handle.append_running_event call id (into_payload event) m.db).0 ≡ err e
    → append_active call id event m
      ≡ degraded_answer (
          enter_degraded
            (PendingDurableResult.runner_event id event)
            (record m { db = (Handle.append_running_event call id (into_payload event) m.db).1 }))
unfolding append_active append_settled
append_fails m call id event h = rw h refl

answer_alive :
    (m : TaskManager)
    → m.panicked ≡ false
    → degraded_answer m ≡ (err RunnerEventError.store_degraded, m)
unfolding degraded_answer
answer_alive m h = rw h refl

-- When the writer fails to record an event of an active runner, a manager that may claim and has
-- not panicked, with a service that has a generation left, answers that the store is degraded,
-- lives and becomes degraded: it keeps the event as pending, cancels every runner, claims nothing
-- and starts one recovery, and the store is changed only by the commands of others.
pub append_runner_event-degrades :
    (m : TaskManager) (call : Call) (id : ℕ) (event : RunnerEvent) (e : StoreWriterError)
    → contains_key id m.active ≡ true
    → claims_allowed m ≡ true
    → m.panicked ≡ false
    → m.service.current.generation + 1 < u64_limit
    → (Handle.append_running_event call id (into_payload event) m.db).0 ≡ err e
    → (m' : TaskManager) × (append_runner_event call id event m
        ≡ (err RunnerEventError.store_degraded, m'))
      × IsDegraded (PendingDurableResult.runner_event id event ∷ m.pending) (suc m.coordinators) m'
      × (m'.db ≡ run_writer call.others m.db)
append_runner_event-degrades m call id event e active allowed alive room h =
    let (unfrozen, healthy, ready) = allowed_parts m allowed in
    let result = Handle.append_running_event call id (into_payload event) m.db in
    let pending = PendingDurableResult.runner_event id event in
    let written : TaskManager = record m { db = result.1 } in
    let degraded = enter-IsDegraded pending written healthy alive room in
    (
      enter_degraded pending written,
      append_reaches m call id event active unfrozen healthy ready
          ∙ append_fails m call id event h
          ∙ answer_alive (enter_degraded pending written) degraded.alive,
      degraded,
      enter-db pending written ∙ append-rollback call id (into_payload event) m.db h,
    )

finish_reaches :
    (m : TaskManager) (call : Call) (id : ℕ) (outcome : RunnerOutcome)
    → contains_key id m.active ≡ true
    → is_frozen m ≡ false
    → m.degraded ≡ false
    → finish_runner call id outcome m ≡ finish_active call id outcome m
unfolding finish_runner
finish_reaches m call id outcome active unfrozen healthy = ground arith

finish_fails :
    (m : TaskManager) (call : Call) (id : ℕ) (outcome : RunnerOutcome) {e : StoreWriterError}
    → (Handle.transition_with_event call id running (outcome_transition outcome) m.db).0 ≡ err e
    → finish_active call id outcome m
      ≡ unless_panicked
          (λ m'. request_scan (remove_active id m'))
          (enter_degraded (PendingDurableResult.runner_terminal id outcome) (record m {
            db = (Handle.transition_with_event call id running (outcome_transition outcome) m.db).1;
          }))
unfolding finish_active finish_settled
finish_fails m call id outcome h = rw h refl

cancelled_remove :
    (id : ℕ) (l : List ActiveRunner)
    → All (λ r. r.is_cancelled ≡ true) l
    → All (λ r. r.is_cancelled ≡ true) (remove_key id l)
unfolding remove_key
cancelled_remove id [] h = tt
cancelled_remove id (r ∷ rs) h =
    if_both (All (λ r. r.is_cancelled ≡ true)) (r.task_id == id) h.1
      (h.0, cancelled_remove id rs h.1)

-- Dropping the entry of the runner that has ended, without a scan.
remove-IsDegraded :
    (id : ℕ) (pending : List PendingDurableResult) (coordinators : ℕ) (m : TaskManager)
    → IsDegraded pending coordinators m
    → IsDegraded pending coordinators (remove_active id m)
unfolding remove_active
remove-IsDegraded id pending coordinators m d =
    if_both (IsDegraded pending coordinators) (contains_key id m.active)
      (record {
        alive = d.alive;
        degraded = d.degraded;
        no_claims = no_claims _ d.degraded;
        kept = d.kept;
        cancelled = cancelled_remove id m.active d.cancelled;
        recovering = d.recovering;
      })
      d

remove-db : (id : ℕ) (m : TaskManager) → (remove_active id m).db ≡ m.db
unfolding remove_active
remove-db id m = if_both {A = TaskManager} (λ r. r.db ≡ m.db) (contains_key id m.active) refl refl

no_scan : (m : TaskManager) → claims_allowed m ≡ false → request_scan m ≡ m
unfolding request_scan
no_scan m h = rw h refl

-- When the writer fails to record the result of an active runner, a manager that is neither frozen
-- nor degraded and has not panicked, with a service that has a generation left, lives and becomes
-- degraded: it keeps the result as pending, cancels every runner, claims nothing and starts one
-- recovery, and the store is changed only by the commands of others.
pub finish_runner-degrades :
    (m : TaskManager) (call : Call) (id : ℕ) (outcome : RunnerOutcome) (e : StoreWriterError)
    → contains_key id m.active ≡ true
    → is_frozen m ≡ false
    → m.degraded ≡ false
    → m.panicked ≡ false
    → m.service.current.generation + 1 < u64_limit
    → (Handle.transition_with_event call id running (outcome_transition outcome) m.db).0 ≡ err e
    → IsDegraded
        (PendingDurableResult.runner_terminal id outcome ∷ m.pending)
        (suc m.coordinators)
        (finish_runner call id outcome m)
      × ((finish_runner call id outcome m).db ≡ run_writer call.others m.db)
finish_runner-degrades m call id outcome e active unfrozen healthy alive room h =
    let tr = outcome_transition outcome in
    let result = Handle.transition_with_event call id running tr m.db in
    let pending : PendingDurableResult = PendingDurableResult.runner_terminal id outcome in
    let written : TaskManager = record m { db = result.1 } in
    let bad = enter_degraded pending written in
    let degraded = enter-IsDegraded pending written healthy alive room in
    let removed = remove-IsDegraded id (pending ∷ m.pending) (suc m.coordinators) bad degraded in
    let same =
      finish_reaches m call id outcome active unfrozen healthy
      ∙ finish_fails m call id outcome h
      ∙ unless_alive (λ m'. request_scan (remove_active id m')) bad degraded.alive
      ∙ no_scan (remove_active id bad) removed.no_claims in
    subst
      (λ r.
        IsDegraded (pending ∷ m.pending) (suc m.coordinators) r
        × (r.db ≡ run_writer call.others m.db))
      (sym same)
      (
        removed,
        remove-db id bad ∙ enter-db pending written ∙ transition-rollback call id running tr m.db h,
      )
