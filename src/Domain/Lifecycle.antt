-- ===== src/Domain/Lifecycle.antt =====
-- The lifecycle of a task: `TaskStatus` of crates/coding-agent-domain/src/task.rs.
use ngy_coding_agent.Base.{ℕ, ◌<◌, ◌≡◌, true, false, List, [], ◌∷◌, arith, ◌≤◌, length, ◌+◌}
use ngy_coding_agent.Domain.Task.{TaskStatus, can_transition_to, is_retryable, queued, running}

-- How far a task has come.
abbrev pub rank : TaskStatus → ℕ
rank queued = 0
rank running = 1
rank _ = 2

can_transition_to-rank : (s t : TaskStatus) → can_transition_to s t ≡ true → rank s < rank t
unfolding can_transition_to
can_transition_to-rank s t h = ground arith

-- A run of a task through the statuses of a list, each transition allowed.
abbrev pub Run : TaskStatus → List TaskStatus → Type 0
Run s [] = Unit {0}
Run s (t ∷ ts) = (can_transition_to s t ≡ true) × Run t ts

-- No sequence of allowed transitions is longer than two, counted from a queued task, or one,
-- counted from a running task.
pub Run-bound : (s : TaskStatus) (ts : List TaskStatus) → Run s ts → rank s + length ts ≤ 2
Run-bound s [] r = ground arith
Run-bound s (t ∷ ts) r = omega (arith, can_transition_to-rank s t r.0, Run-bound t ts r.1)

-- No transition leaves a status that is retryable.
pub is_retryable-final : (s t : TaskStatus) → is_retryable s ≡ true → can_transition_to s t ≡ false
unfolding can_transition_to is_retryable
is_retryable-final s t h = ground arith
