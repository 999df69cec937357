-- ===== src/App/Writer/Safety.antt =====
-- What crates/coding-agent-app/src/store_writer.rs leaves in the store.
use ngy_coding_agent.Domain.Task.{can_transition_to}
use ngy_coding_agent.Base.{
  ◌≤◌, ◌<◌, length, leb→le, ℕ, suc, ◌+◌, ◌≡◌, refl, sym, ap, ◌∙◌, subst, ◌⊎◌, inl, inr, List, [],
  ◌∷◌, Result, ok, err, leb, ◌||◌, Bool-cases, arith,
}
use ngy_coding_agent.Store.Schema.{find_where, same_id, Db, StoreError, empty}
use ngy_coding_agent.Store.Tx.{Env}
use ngy_coding_agent.Store.History.{replay}
use ngy_coding_agent.Store.Replay.{replay-standing, standing}
use ngy_coding_agent.Store.Ensures.{transact_rollback}
use ngy_coding_agent.Store.Tasks
use ngy_coding_agent.Store.Repositories
use ngy_coding_agent.Store.Invariant.{IsWellFormed, empty-IsWellFormed}
use ngy_coding_agent.Store.Invariant.Operations.{create_task-IsWellFormed, retry_task-IsWellFormed}
use ngy_coding_agent.Store.Invariant.Transitions.{transition_with_event-IsWellFormed}
use ngy_coding_agent.Store.Invariant.Panel.{append_running_event-IsWellFormed}
use ngy_coding_agent.Store.Invariant.Recovery.{recover_incomplete-IsWellFormed}
use ngy_coding_agent.Store.Invariant.Repositories.{register_repository-IsWellFormed}
use ngy_coding_agent.App.Writer.{
  StoreWriterOperation, StoreWriterOperationOutcome, StoreWriterError, busy, store, WriteResult,
  finished, backend_execute, retry_delays, Attempt, retry_or_stop, expect, expect_of, execute_from,
  execute, Command, run_command, run_writer, TaskStatus, TaskEventPayload, NewTask,
}

module _ {A : Type 0} (outcome : A → StoreWriterOperationOutcome) where
  finished-1 : (r : Result StoreError A × Db) → (finished outcome r).1 ≡ r.1
  finished-1 (ok a, db) = refl
  finished-1 (err e, db) = refl

  finished-IsWellFormed :
      (r : Result StoreError A × Db) → IsWellFormed r.1 → IsWellFormed (finished outcome r).1
  finished-IsWellFormed r w = subst IsWellFormed (sym (finished-1 r)) w

  -- What refuses an operation leaves the store as it was.
  abbrev RollsBack : Result StoreError A × Db → Db → Type 0
  RollsBack r db = (e : StoreError) → r.0 ≡ err e → r.1 ≡ db

  finished_rollback :
      (r : Result StoreError A × Db) (db : Db) {e : StoreWriterError}
      → RollsBack r db
      → (finished outcome r).0 ≡ err e
      → (finished outcome r).1 ≡ db
  finished_rollback (ok a, db') db h p = cc
  finished_rollback (err x, db') db h p = h x refl

-- Every operation of the store keeps the invariant.
pub backend_execute-IsWellFormed :
    (env : Env) (operation : StoreWriterOperation) (db : Db)
    → IsWellFormed db
    → IsWellFormed (backend_execute env operation db).1
unfolding backend_execute
backend_execute-IsWellFormed env (StoreWriterOperation.register_repository i) db w =
    finished-IsWellFormed _ _ (register_repository-IsWellFormed db w env i)
backend_execute-IsWellFormed env (StoreWriterOperation.create_task i) db w =
    finished-IsWellFormed _ _ (create_task-IsWellFormed db w env i)
backend_execute-IsWellFormed env (StoreWriterOperation.retry_task i) db w =
    finished-IsWellFormed _ _ (retry_task-IsWellFormed db w env i)
backend_execute-IsWellFormed env (StoreWriterOperation.transition_with_event i s t) db w =
    finished-IsWellFormed _ _ (transition_with_event-IsWellFormed db w i env s t)
backend_execute-IsWellFormed env (StoreWriterOperation.append_running_event i p) db w =
    finished-IsWellFormed _ _ (append_running_event-IsWellFormed db w env i p)
backend_execute-IsWellFormed env (StoreWriterOperation.recover_incomplete now f) db w =
    finished-IsWellFormed _ _ (recover_incomplete-IsWellFormed db w env now f)

create_checked_rollback :
    (env : Env) (input : Result StoreError NewTask) (db : Db) (e : StoreError)
    → (Tasks.create_checked env db input).0 ≡ err e
    → (Tasks.create_checked env db input).1 ≡ db
unfolding Tasks.create_checked
create_checked_rollback env (err x) db e h = refl
create_checked_rollback env (ok input) db e h = transact_rollback env _ db h

create_task_rollback :
    (env : Env) (input : NewTask) (db : Db) (e : StoreError)
    → (Tasks.create_task env input db).0 ≡ err e
    → (Tasks.create_task env input db).1 ≡ db
unfolding Tasks.create_task
create_task_rollback env input db e h = create_checked_rollback env _ db e h

transition_rollback :
    (env : Env) (i : ℕ) (s : TaskStatus) (t : Tasks.TaskTransition) (db : Db) (e : StoreError)
    → (Tasks.transition_with_event env i s t db).0 ≡ err e
    → (Tasks.transition_with_event env i s t db).1 ≡ db
unfolding Tasks.transition_with_event
transition_rollback env i s t db e = elim (Bool-cases (can_transition_to s (Tasks.next t))) [
  | inl legal ↦ rw legal λ h. transact_rollback env (Tasks.transition_body env i s t) db h
  | inr illegal ↦ rw illegal λ h. refl
]

append_rollback :
    (env : Env) (i : ℕ) (p : TaskEventPayload) (db : Db) (e : StoreError)
    → (Tasks.append_running_event env i p db).0 ≡ err e
    → (Tasks.append_running_event env i p db).1 ≡ db
unfolding Tasks.append_running_event
append_rollback env i p db e = elim (Bool-cases (Tasks.is_panel p)) [
  | inl panel ↦ rw panel λ h. transact_rollback env (Tasks.append_body env i p) db h
  | inr other ↦ rw other λ h. refl
]

-- An operation that fails, with whatever error, leaves the store as it was.
pub backend_execute_rollback :
    (env : Env) (operation : StoreWriterOperation) (db : Db) (e : StoreWriterError)
    → (backend_execute env operation db).0 ≡ err e
    → (backend_execute env operation db).1 ≡ db
unfolding backend_execute Repositories.register_repository Tasks.retry_task
    Tasks.Recovery.recover_incomplete
backend_execute_rollback env (StoreWriterOperation.register_repository i) db e h =
    finished_rollback _ _ db (λ x p. transact_rollback env _ db p) h
backend_execute_rollback env (StoreWriterOperation.create_task i) db e h =
    finished_rollback _ _ db (create_task_rollback env i db) h
backend_execute_rollback env (StoreWriterOperation.retry_task i) db e h =
    finished_rollback _ _ db (λ x p. transact_rollback env _ db p) h
backend_execute_rollback env (StoreWriterOperation.transition_with_event i s t) db e h =
    finished_rollback _ _ db (transition_rollback env i s t db) h
backend_execute_rollback env (StoreWriterOperation.append_running_event i p) db e h =
    finished_rollback _ _ db (append_rollback env i p db) h
backend_execute_rollback env (StoreWriterOperation.recover_incomplete now f) db e h =
    finished_rollback _ _ db (λ x p. transact_rollback env _ db p) h

-- After an attempt, the loop goes on when it was busy, or ends with its result.
retry_or_stop-cases :
    (attempt : Attempt) (delay deadline : ℕ) (again result : WriteResult × Db)
    → ((result.0 ≡ err busy) × (retry_or_stop attempt delay deadline again result ≡ again))
      ⊎ (retry_or_stop attempt delay deadline again result ≡ result)
unfolding retry_or_stop
retry_or_stop-cases attempt delay deadline again (ok o, db) = inr refl
retry_or_stop-cases attempt delay deadline again (err (store x), db) = inr refl
retry_or_stop-cases attempt delay deadline again (err StoreWriterError.closed, db) = inr refl
retry_or_stop-cases attempt delay deadline again (err busy, db) =
    elim (Bool-cases (
      leb deadline attempt.now
      || leb deadline (attempt.now + delay)
      || leb deadline attempt.woken)) [
        | inl stop ↦ inr (rw stop refl)
        | inr go ↦ inl (refl, rw go refl)
      ]

module _ (attempts : ℕ → Attempt) (deadline : ℕ) (operation : StoreWriterOperation) (db : Db) where
  -- The result is that of one attempt, number `n` to `last`, on the store as it was.
  abbrev Once : ℕ → ℕ → WriteResult × Db → Type 0
  Once n last r =
      (k : ℕ) × (n ≤ k) × (k ≤ last) × (r ≡ backend_execute (attempts k).env operation db)

  execute_from-Once :
      (delays : List ℕ) (n : ℕ)
      → Once n (n + length delays) (execute_from delays attempts n deadline operation db)
  unfolding execute_from
  execute_from-Once [] n = (n, omega arith, omega arith, refl)
  execute_from-Once (delay ∷ delays) n =
      let result = backend_execute (attempts n).env operation db in
      elim (retry_or_stop-cases (attempts n) delay deadline
        (execute_from delays attempts (suc n) deadline operation result.1) result) [
          | inl (failed, e) ↦
              let (k, from, to, one) = execute_from-Once delays (suc n) in
              (
                k,
                omega arith,
                omega arith,
                e
                    ∙ ap (execute_from delays attempts (suc n) deadline operation)
                        (backend_execute_rollback (attempts n).env operation db busy failed)
                    ∙ one,
              )
          | inr e ↦ (n, omega arith, omega arith, e)
        ]

  -- A write whose deadline has passed is not tried; another is one of at most six attempts, each on
  -- the store as it was.
  abbrev pub Attempted : ℕ → WriteResult × Db → Type 0
  Attempted start r =
      ((deadline ≤ start) × (r ≡ (err busy, db)))
      ⊎ ((start < deadline)
          × (k : ℕ) × (k ≤ 5)
          × (r ≡ backend_execute (attempts k).env operation db))

  -- A write that starts at its deadline or later is busy without an attempt. Before it, the result
  -- and the store are those of one single attempt of at most six, made on the store as it was
  -- before the write.
  pub execute-Attempted :
      (start : ℕ) → Attempted start (execute attempts start deadline operation db)
  unfolding execute
  execute-Attempted start = elim (Bool-cases (leb deadline start)) [
    | inl late ↦ inl (leb→le deadline start late, rw late refl)
    | inr early ↦
        let (k, from, to, one) = execute_from-Once retry_delays 0 in
        inr (ground arith, k, to, rw early one)
  ]

  pub execute-IsWellFormed :
      (start : ℕ) → IsWellFormed db → IsWellFormed (execute attempts start deadline operation db).1
  execute-IsWellFormed start w = elim (execute-Attempted start) [
    | inl (late, e) ↦ rw e w
    | inr (early, k, few, e) ↦ rw e (backend_execute-IsWellFormed _ operation db w)
  ]

  -- A write that fails, with whatever error and after however many attempts, leaves the store as
  -- it was.
  pub execute_rollback :
      (start : ℕ) (e : StoreWriterError)
      → (execute attempts start deadline operation db).0 ≡ err e
      → (execute attempts start deadline operation db).1 ≡ db
  execute_rollback start e = elim (execute-Attempted start) [
    | inl (late, p) ↦ rw p λ h. refl
    | inr (early, k, few, p) ↦ rw p λ h. backend_execute_rollback _ operation db e h
  ]

-- From any well-formed store, and so from the empty one, whatever commands the writer takes, with
-- whatever failures of the database, the store stays well-formed: every row can be read (a
-- repository, a task or an event), ids and request ids are unique, a task is retried at most once,
-- event ids rise strictly, and each task stands where its events lead.
pub run_writer-IsWellFormed :
    (commands : List Command) (db : Db) → IsWellFormed db → IsWellFormed (run_writer commands db)
unfolding run_writer run_command
run_writer-IsWellFormed [] db w = w
run_writer-IsWellFormed (c ∷ cs) db w =
    run_writer-IsWellFormed cs _
      (execute-IsWellFormed c.attempts c.deadline c.operation db c.start w)

expect_of-finished :
    {A : Type 0} (operation : StoreWriterOperation) (outcome : A → StoreWriterOperationOutcome)
    → ((a : A) → expect operation (outcome a) ≡ ok (outcome a))
    → (r : Result StoreError A × Db)
    → expect_of operation (finished outcome r).0 ≡ (finished outcome r).0
unfolding expect_of
expect_of-finished operation outcome h (ok a, db) = h a
expect_of-finished operation outcome h (err e, db) = refl

-- The outcome that the store returns for an operation is always one of that operation: the check
-- of the writer passes every result on as it is.
pub expect_of-backend_execute :
    (env : Env) (operation : StoreWriterOperation) (db : Db)
    → expect_of operation (backend_execute env operation db).0
      ≡ (backend_execute env operation db).0
unfolding expect backend_execute
expect_of-backend_execute env (StoreWriterOperation.register_repository i) db =
    expect_of-finished _ _ (λ a. refl) _
expect_of-backend_execute env (StoreWriterOperation.create_task i) db =
    expect_of-finished _ _ (λ a. refl) _
expect_of-backend_execute env (StoreWriterOperation.retry_task i) db =
    expect_of-finished _ _ (λ a. refl) _
expect_of-backend_execute env (StoreWriterOperation.transition_with_event i s t) db =
    expect_of-finished _ _ (λ a. refl) _
expect_of-backend_execute env (StoreWriterOperation.append_running_event i p) db =
    expect_of-finished _ _ (λ a. refl) _
expect_of-backend_execute env (StoreWriterOperation.recover_incomplete now f) db =
    expect_of-finished _ _ (λ a. refl) _

-- After any sequence of commands from the empty store, the event log alone determines where each
-- task stands: replaying the events of a task along the lifecycle gives the status that its row
-- has, and gives nothing for a task that has no row; so no event that was recorded is off the
-- lifecycle.
pub run_writer-standing :
    (commands : List Command) (i : ℕ)
    → replay i (run_writer commands empty).task_events
      ≡ standing (find_where (same_id i) (run_writer commands empty).tasks)
run_writer-standing commands i =
    replay-standing (run_writer commands empty)
      (run_writer-IsWellFormed commands empty empty-IsWellFormed) i
