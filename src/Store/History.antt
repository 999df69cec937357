-- ===== src/Store/History.antt =====
-- What the event log says of a task: the events in order, the status that they lead to, and the
-- last of them. (crates/coding-agent-store/src/tasks.rs and migrations/0001_initial.sql)
use ngy_coding_agent.Base.{
  ℕ, ◌<◌, ◌≤◌, ◌≡◌, refl, List, [], ◌∷◌, ◌++◌, ◌==◌, if◌then◌else◌, arith, All,
}
use Prim.Native.Nat.{max}
use ngy_coding_agent.Domain.Task.{
  TaskStatus, can_transition_to, queued, running, completed, failed, cancelled, interrupted,
}
use ngy_coding_agent.Domain.Event.{TaskEventKind}
use ngy_coding_agent.Store.Schema.{EventRow}
use ngy_coding_agent.Store.Tasks.Events.{max_id}

-- Ids rise strictly from above `lo`, and the last one is `hi`.
abbrev pub Rising : ℕ → ℕ → List EventRow → Type 0
Rising lo hi [] = lo ≡ hi
Rising lo hi (e ∷ es) = (lo < e.id) × Rising e.id hi es

-- Where the events of one task have led: nowhere, to a status, or off the lifecycle.
pub data History : Type 0 where
  absent : History
  at : TaskStatus → History
  illegal : History

abbrev move : TaskStatus → TaskStatus → History
move from to = if can_transition_to from to then at to else illegal

-- A panel event belongs to a running task.
abbrev panel : TaskStatus → History
panel running = at running
panel _ = illegal

abbrev pub advance_at : TaskStatus → TaskEventKind → History
advance_at s TaskEventKind.task_queued = illegal
advance_at s TaskEventKind.task_started = move s running
advance_at s TaskEventKind.task_completed = move s completed
advance_at s TaskEventKind.task_failed = move s failed
advance_at s TaskEventKind.task_cancelled = move s cancelled
advance_at s TaskEventKind.task_interrupted = move s interrupted
advance_at s _ = panel s

abbrev pub advance : History → TaskEventKind → History
advance absent TaskEventKind.task_queued = at queued
advance absent _ = illegal
advance (at s) k = advance_at s k
advance illegal k = illegal

unfoldable pub replay_from : ℕ → History → List EventRow → History
replay_from i h [] = h
replay_from i h (e ∷ es) = replay_from i (if e.task_id == i then advance h e.kind else h) es

-- The state that the log gives the task `i`.
abbrev pub replay : ℕ → List EventRow → History
replay i es = replay_from i absent es

unfoldable pub last_from : ℕ → ℕ → List EventRow → ℕ
last_from i n [] = n
last_from i n (e ∷ es) = last_from i (if e.task_id == i then e.id else n) es

-- The id of the last event of the task `i`, or 0.
abbrev pub last_of : ℕ → List EventRow → ℕ
last_of i es = last_from i 0 es

module _ (i : ℕ) (e : EventRow) where
  pub replay-snoc :
      (h : History) (es : List EventRow)
      → replay_from i h (es ++ e ∷ [])
        ≡ (if e.task_id == i then advance (replay_from i h es) e.kind else replay_from i h es)
  unfolding replay_from
  replay-snoc h [] = refl
  replay-snoc h (d ∷ es) = replay-snoc (if d.task_id == i then advance h d.kind else h) es

  pub last-snoc :
      (n : ℕ) (es : List EventRow)
      → last_from i n (es ++ e ∷ []) ≡ (if e.task_id == i then e.id else last_from i n es)
  unfolding last_from
  last-snoc n [] = refl
  last-snoc n (d ∷ es) = last-snoc (if d.task_id == i then d.id else n) es

pub Rising-snoc :
    (lo hi : ℕ) (es : List EventRow) (e : EventRow)
    → Rising lo hi es
    → hi < e.id
    → Rising lo e.id (es ++ e ∷ [])
Rising-snoc lo hi [] e r h = (omega arith, refl)
Rising-snoc lo hi (d ∷ es) e r h = (r.0, Rising-snoc d.id hi es e r.1 h)

pub Rising-bound : (lo hi : ℕ) (es : List EventRow) → Rising lo hi es → All (λ e. e.id ≤ hi) es
Rising-bound lo hi [] r = tt
Rising-bound lo hi (d ∷ es) r = (le d.id es r.1, Rising-bound d.id hi es r.1)
  where
    le : (m : ℕ) (fs : List EventRow) → Rising m hi fs → m ≤ hi
    le m [] r = omega arith
    le m (f ∷ fs) r = omega (arith, le f.id fs r.1)

pub Rising-le : (lo hi : ℕ) (es : List EventRow) → Rising lo hi es → lo ≤ hi
Rising-le lo hi [] r = omega arith
Rising-le lo hi (d ∷ es) r = omega (arith, Rising-le d.id hi es r.1)

max_from : (lo hi : ℕ) (es : List EventRow) → Rising lo hi es → max lo (max_id es) ≡ hi
unfolding max_id
max_from lo hi [] r = omega arith
max_from lo hi (d ∷ es) r = omega (arith, max_from d.id hi es r.1, Rising-le d.id hi es r.1)

-- `MAX(id)` is the last id.
pub max_id-Rising : (hi : ℕ) (es : List EventRow) → Rising 0 hi es → max_id es ≡ hi
max_id-Rising hi es r = omega (arith, max_from 0 hi es r)
