-- ===== src/App/Writer/Handle.antt =====
-- The calls of `StoreWriterHandle` in crates/coding-agent-app/src/store_writer.rs: a command goes to
-- the writer, which first takes what others have sent, and the caller waits for the answer.
use ngy_coding_agent.Base.{ℕ, Bool, List, Result, ok, err, if◌then◌else◌}
use ngy_coding_agent.Domain.Task.{TaskFailure, TaskStatus}
use ngy_coding_agent.Domain.Event.{TaskEventPayload}
use ngy_coding_agent.Store.Schema.{Db, invariant_violation}
use ngy_coding_agent.Store.Tasks.{TransitionOutcome, AppendEventOutcome, TaskTransition}
use ngy_coding_agent.Store.Tasks.Recovery.{RecoveryOutcome}
use ngy_coding_agent.App.Writer.{
  StoreWriterOperation, StoreWriterOperationOutcome, StoreWriterError, store, WriteResult, Attempt,
  Command, execute, run_writer,
}

-- What a call meets: the commands that the writer takes before it, whether the writer has ended,
-- and the times and attempts of its own command.
pub record Call : Type 0 where
  pub others : List Command
  pub is_closed : Bool
  pub start : ℕ
  pub deadline : ℕ
  pub attempts : ℕ → Attempt

-- `send` and `receive`
unfoldable pub submit : Call → StoreWriterOperation → Db → WriteResult × Db
submit call operation db =
    let before = run_writer call.others db in
    if call.is_closed
    then (err StoreWriterError.closed, before)
    else execute call.attempts call.start call.deadline operation before

abbrev mismatched : StoreWriterError
mismatched = store (invariant_violation "store writer backend returned a mismatched outcome")

-- `expect_transition`
unfoldable pub expect_transition : WriteResult → Result StoreWriterError TransitionOutcome
expect_transition (ok (StoreWriterOperationOutcome.transition_with_event o)) = ok o
expect_transition (ok _) = err mismatched
expect_transition (err e) = err e

-- `expect_append`
unfoldable pub expect_append : WriteResult → Result StoreWriterError AppendEventOutcome
expect_append (ok (StoreWriterOperationOutcome.append_running_event o)) = ok o
expect_append (ok _) = err mismatched
expect_append (err e) = err e

-- `expect_recovery`
unfoldable pub expect_recovery : WriteResult → Result StoreWriterError RecoveryOutcome
expect_recovery (ok (StoreWriterOperationOutcome.recover_incomplete o)) = ok o
expect_recovery (ok _) = err mismatched
expect_recovery (err e) = err e

unfoldable pub transition_with_event :
    Call → ℕ → TaskStatus → TaskTransition → Db → Result StoreWriterError TransitionOutcome × Db
unfolding submit expect_transition
transition_with_event call task_id expected transition db =
    let result =
      submit call (StoreWriterOperation.transition_with_event task_id expected transition) db in
    (expect_transition result.0, result.1)

unfoldable pub append_running_event :
    Call → ℕ → TaskEventPayload → Db → Result StoreWriterError AppendEventOutcome × Db
unfolding submit expect_append
append_running_event call task_id payload db =
    let result = submit call (StoreWriterOperation.append_running_event task_id payload) db in
    (expect_append result.0, result.1)

unfoldable pub recover_incomplete :
    Call → ℕ → TaskFailure → Db → Result StoreWriterError RecoveryOutcome × Db
unfolding submit expect_recovery
recover_incomplete call now failure db =
    let result = submit call (StoreWriterOperation.recover_incomplete now failure) db in
    (expect_recovery result.0, result.1)
