-- ===== src/App/Writer/Answers.antt =====
-- What the calls of the writer in crates/coding-agent-app/src/store_writer.rs leave and answer.
use ngy_coding_agent.Store.Invariant.{IsWellFormed}
use ngy_coding_agent.App.Writer.Safety.{
  execute-Attempted, execute_rollback, execute-IsWellFormed, run_writer-IsWellFormed,
}
use ngy_coding_agent.Store.Tx.{Env}
use ngy_coding_agent.Store.Answers.{IsServing}
use ngy_coding_agent.App.Writer.{execute_from, retry_or_stop}
use ngy_coding_agent.Base.{
  leb, All, ◌≢◌, refl, ◌≡◌, sym, ap, ◌∙◌, subst, ◌⊎◌, ℕ, Result, ok, err, Bool-cases, inl, inr, ◌≡◌,
  arith,
}
use ngy_coding_agent.Domain.Task.{TaskFailure, TaskStatus}
use ngy_coding_agent.Domain.Event.{TaskEventPayload}
use ngy_coding_agent.Store.Schema.{Db}
use ngy_coding_agent.Store.Tasks.{TransitionOutcome, AppendEventOutcome, TaskTransition}
use ngy_coding_agent.Store.Tasks.Recovery.{RecoveryOutcome}
use ngy_coding_agent.Store.Tasks
use ngy_coding_agent.Store.Tasks.Recovery.{is_incomplete}
use ngy_coding_agent.Store.Invariant.Recovery
use ngy_coding_agent.Store.Schema.{StoreError}
use ngy_coding_agent.App.Writer.{
  finished, classify_store_error, backend_execute, busy, StoreWriterOperation,
  StoreWriterOperationOutcome, StoreWriterError, WriteResult, Attempt, execute, run_writer, false,
}
use ngy_coding_agent.App.Writer.Handle.{
  Call, submit, expect_transition, expect_append, expect_recovery, transition_with_event,
  append_running_event, recover_incomplete,
}

pub submit-IsWellFormed :
    (call : Call) (operation : StoreWriterOperation) (db : Db)
    → IsWellFormed db
    → IsWellFormed (submit call operation db).1
unfolding submit
submit-IsWellFormed call operation db w =
    let before = run_writer-IsWellFormed call.others db w in
    elim (Bool-cases call.is_closed) [
      | inl over ↦ rw over before
      | inr open' ↦
          rw open' (execute-IsWellFormed call.attempts call.deadline operation _ call.start before)
    ]

-- A call that the writer answers with an error has changed nothing itself.
pub submit_rollback :
    (call : Call) (operation : StoreWriterOperation) (db : Db) (e : StoreWriterError)
    → (submit call operation db).0 ≡ err e
    → (submit call operation db).1 ≡ run_writer call.others db
unfolding submit
submit_rollback call operation db e = elim (Bool-cases call.is_closed) [
  | inl over ↦ rw over λ h. refl
  | inr open' ↦ rw open' (
      execute_rollback call.attempts call.deadline operation (run_writer call.others db) call.start
        e)
]

-- The answer to a call is an error, or what the store has answered to its operation.
pub submit-cases :
    (call : Call) (operation : StoreWriterOperation) (db : Db)
    → ((e : StoreWriterError) × ((submit call operation db).0 ≡ err e))
      ⊎ ((k : ℕ) × (submit call operation db
            ≡ backend_execute (call.attempts k).env operation (run_writer call.others db)))
unfolding submit
submit-cases call operation db = elim (Bool-cases call.is_closed) [
  | inl over ↦ rw over (inl (StoreWriterError.closed, refl))
  | inr open' ↦
      rw open'
        (elim (execute-Attempted call.attempts call.deadline operation (run_writer call.others db)
          call.start) [
            | inl (late, e) ↦ rw e (inl (busy, refl))
            | inr (early, k, few, e) ↦ inr (k, e)
          ])
]

refused_append :
    (r : Result StoreError AppendEventOutcome × Db) {e : StoreWriterError}
    → expect_append (finished StoreWriterOperationOutcome.append_running_event r).0 ≡ err e
    → (x : StoreWriterError) × ((finished StoreWriterOperationOutcome.append_running_event r).0
        ≡ err x)
unfolding expect_append
refused_append (ok a, db) h = ground arith
refused_append (err x, db) h = (classify_store_error x, refl)

refused_transition :
    (r : Result StoreError TransitionOutcome × Db) {e : StoreWriterError}
    → expect_transition (finished StoreWriterOperationOutcome.transition_with_event r).0 ≡ err e
    → (x : StoreWriterError) × ((finished StoreWriterOperationOutcome.transition_with_event r).0
        ≡ err x)
unfolding expect_transition
refused_transition (ok a, db) h = ground arith
refused_transition (err x, db) h = (classify_store_error x, refl)

-- Whatever the writer refuses of a panel event or a transition, it has changed nothing for it.
unanswered_append :
    (call : Call) (id : ℕ) (payload : TaskEventPayload) (db : Db) {e : StoreWriterError}
    → (append_running_event call id payload db).0 ≡ err e
    → (x : StoreWriterError) × ((submit call
          (StoreWriterOperation.append_running_event id payload)
          db).0
        ≡ err x)
unfolding append_running_event backend_execute
unanswered_append call id payload db {e} h =
    elim (submit-cases call (StoreWriterOperation.append_running_event id payload) db) [
      | inl failed ↦ failed
      | inr (k, same) ↦
          let tasks =
            Tasks.append_running_event (call.attempts k).env id payload
              (run_writer call.others db) in
          let (x, f) = refused_append tasks (subst (λ r. expect_append r.0 ≡ err e) same h) in
          (x, ap (λ r. r.0) same ∙ f)
    ]

pub append-rollback :
    (call : Call) (id : ℕ) (payload : TaskEventPayload) (db : Db) {e : StoreWriterError}
    → (append_running_event call id payload db).0 ≡ err e
    → (append_running_event call id payload db).1 ≡ run_writer call.others db
unfolding append_running_event
append-rollback call id payload db h =
    let (x, f) = unanswered_append call id payload db h in submit_rollback call _ db x f

unanswered_transition :
    (call : Call) (id : ℕ) (expected : TaskStatus) (tr : TaskTransition) (db : Db)
    {e : StoreWriterError}
    → (transition_with_event call id expected tr db).0 ≡ err e
    → (x : StoreWriterError) × ((submit call
          (StoreWriterOperation.transition_with_event id expected tr)
          db).0
        ≡ err x)
unfolding transition_with_event backend_execute
unanswered_transition call id expected tr db {e} h =
    elim (submit-cases call (StoreWriterOperation.transition_with_event id expected tr) db) [
      | inl failed ↦ failed
      | inr (k, same) ↦
          let tasks =
            Tasks.transition_with_event (call.attempts k).env id expected tr
              (run_writer call.others db) in
          let (x, f) =
            refused_transition tasks (subst (λ r. expect_transition r.0 ≡ err e) same h) in
          (x, ap (λ r. r.0) same ∙ f)
    ]

pub transition-rollback :
    (call : Call) (id : ℕ) (expected : TaskStatus) (tr : TaskTransition) (db : Db)
    {e : StoreWriterError}
    → (transition_with_event call id expected tr db).0 ≡ err e
    → (transition_with_event call id expected tr db).1 ≡ run_writer call.others db
unfolding transition_with_event
transition-rollback call id expected tr db h =
    let (x, f) = unanswered_transition call id expected tr db h in submit_rollback call _ db x f

refused_recovery :
    (r : Result StoreError RecoveryOutcome × Db) {o : RecoveryOutcome}
    → expect_recovery (finished StoreWriterOperationOutcome.recover_incomplete r).0 ≡ ok o
    → r.0 ≡ ok o
unfolding expect_recovery
refused_recovery (ok a, db) h = ground arith
refused_recovery (err x, db) h = ground arith

recovery_of :
    (r : WriteResult) {e : StoreWriterError} {o : RecoveryOutcome}
    → r ≡ err e
    → expect_recovery r ≢ ok o
unfolding expect_recovery
recovery_of r e h = ground arith

finished_store :
    (r : Result StoreError RecoveryOutcome × Db)
    → (finished StoreWriterOperationOutcome.recover_incomplete r).1 ≡ r.1
finished_store (ok a, db) = refl
finished_store (err x, db) = refl

-- A recovery that is answered with its outcome has left no task queued or running.
pub recover_incomplete-finishes :
    (call : Call) (now : ℕ) (failure : TaskFailure) (db : Db) (o : RecoveryOutcome)
    → IsWellFormed db
    → (recover_incomplete call now failure db).0 ≡ ok o
    → All (λ t. is_incomplete t.status ≡ false) (recover_incomplete call now failure db).1.tasks
unfolding recover_incomplete backend_execute
recover_incomplete-finishes call now failure db o w h =
    elim (submit-cases call (StoreWriterOperation.recover_incomplete now failure) db) [
      | inl (e, failed) ↦ absurd (recovery_of _ failed h)
      | inr (k, same) ↦
          let before = run_writer call.others db in
          let env = (call.attempts k).env in
          let result = Tasks.Recovery.recover_incomplete env now failure before in
          let done = refused_recovery result (subst (λ r. expect_recovery r.0 ≡ ok o) same h) in
          subst (λ d. All (λ t. is_incomplete t.status ≡ false) d.tasks)
            (sym (ap (λ r. r.1) same ∙ finished_store result))
            (Recovery.recover_incomplete-finishes before (run_writer-IsWellFormed call.others db w)
              env now failure o done)
    ]

-- A call that is served at its first attempt, after the commands that came before it.
pub record IsServed (call : Call) : Type 0 where
  pub unclosed : call.is_closed ≡ false
  pub early : leb call.deadline call.start ≡ false
  pub serving : IsServing (call.attempts 0).env

first_attempt :
    (attempts : ℕ → Attempt) (start deadline : ℕ) (operation : StoreWriterOperation) (db after : Db)
    {o : StoreWriterOperationOutcome}
    → leb deadline start ≡ false
    → backend_execute (attempts 0).env operation db ≡ (ok o, after)
    → execute attempts start deadline operation db ≡ (ok o, after)
unfolding execute execute_from retry_or_stop
first_attempt attempts start deadline operation db after early h = rw (early, h) refl

submit_served :
    (call : Call) (operation : StoreWriterOperation) (db after : Db)
    {o : StoreWriterOperationOutcome}
    → IsServed call
    → backend_execute (call.attempts 0).env operation (run_writer call.others db) ≡ (ok o, after)
    → submit call operation db ≡ (ok o, after)
unfolding submit
submit_served call operation db after v h = rw v.unclosed (
    first_attempt call.attempts call.start call.deadline operation (run_writer call.others db) after
      v.early h)

served_backend :
    (env : Env) (id : ℕ) (expected : TaskStatus) (tr : TaskTransition) (db after : Db)
    {o : TransitionOutcome}
    → Tasks.transition_with_event env id expected tr db ≡ (ok o, after)
    → backend_execute env (StoreWriterOperation.transition_with_event id expected tr) db
      ≡ (ok (StoreWriterOperationOutcome.transition_with_event o), after)
unfolding backend_execute
served_backend env id expected tr db after h = rw h refl

pub transition_served :
    (call : Call) (id : ℕ) (expected : TaskStatus) (tr : TaskTransition) (db after : Db)
    {o : TransitionOutcome}
    → IsServed call
    → Tasks.transition_with_event (call.attempts 0).env id expected tr (run_writer call.others db)
      ≡ (ok o, after)
    → transition_with_event call id expected tr db ≡ (ok o, after)
unfolding transition_with_event expect_transition
transition_served call id expected tr db after v h =
    rw
      (submit_served call (StoreWriterOperation.transition_with_event id expected tr) db after v
        (served_backend (call.attempts 0).env id expected tr (run_writer call.others db) after h))
      refl
