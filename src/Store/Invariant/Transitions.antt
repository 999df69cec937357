-- ===== src/Store/Invariant/Transitions.antt =====
-- `transition_with_event` of crates/coding-agent-store/src/tasks.rs keeps the invariant.
use ngy_coding_agent.Base.{
  ℕ, zero, suc, ◌≡◌, refl, ap, sym, ◌∙◌, subst, some, arith, Bool, true, false, ite, Bool-cases,
  inl, inr, String, ◌==◌, ==→eq,
}
use ngy_coding_agent.Domain.Task.{TaskStatus, TaskStatus-discrete, can_transition_to}
use ngy_coding_agent.Store.Schema.{
  Db, TaskRow, find_where, count_where, update_where, same_id, invariant_violation,
}
use ngy_coding_agent.Store.Tx.{Env, Tx, ◌>>=◌}
use ngy_coding_agent.Store.Ensures.{
  Ensures, Ensures-lift, Ensures-require, Ensures-ok, Ensures-err, transact-keeps,
}
use ngy_coding_agent.Store.Table.{
  count-eq_suc, update-eq, update_none, find-update, find-keyed, found-key,
}
use ngy_coding_agent.Store.Codec.Roundtrip.{IsReady}
use ngy_coding_agent.Store.History.{at, advance, replay}
use ngy_coding_agent.Store.Tasks.Events.{
  current_timestamp, update_tasks, ensure_exactly_one, lifecycle_kind,
}
use ngy_coding_agent.Store.Tasks.{
  TaskTransition, next, apply_transition, in_status, transition_conflict, transition_applied,
  transition_rows, transition_body, transition_with_event, failure,
}
use ngy_coding_agent.Store.Invariant.{IsWellFormed, IsCurrent}
use ngy_coding_agent.Store.Invariant.Record.{update-IsPending}
use ngy_coding_agent.Store.Invariant.Lifecycle.{Ensures-lifecycle_of}
use ngy_coding_agent.Store.Invariant.Operations.{Ensures-load, WellFormedAfter}

module _ {B : Type 0} (R : B → Db → Type 0) (db : Db) where
  pub Ensures-update :
      (p : TaskRow → Bool) (g : TaskRow → TaskRow) (f : ℕ → Tx B)
      → Ensures R (f (count_where p db.tasks) (record db { tasks = update_where p g db.tasks }))
      → Ensures R ((update_tasks p g >>= f) db)
  unfolding update_tasks
  Ensures-update p g f h = Ensures-ok R db (update_tasks p g) f refl h

  pub Ensures-one :
      (n : ℕ) (message : String) (f : Unit {0} → Tx B)
      → (n ≡ 1 → Ensures R (f tt db))
      → Ensures R ((ensure_exactly_one n message >>= f) db)
  unfolding ensure_exactly_one
  Ensures-one n message f h = elim (Bool-cases (n == 1)) [
    | inl e ↦
        Ensures-ok R db (ensure_exactly_one n message) f {a = tt} {db' = db} (ground arith)
          (h (==→eq n 1 e))
    | inr e ↦
        Ensures-err R db (ensure_exactly_one n message) f {x = invariant_violation message}
          (ground arith)
  ]

-- A row in status `s` whose update to `s'` is allowed.
pub apply_transition-IsReady :
    (tr : TaskTransition) (now : ℕ) (row : TaskRow)
    → IsReady row
    → can_transition_to row.status (next tr) ≡ true
    → IsReady (apply_transition tr now row)
unfolding apply_transition next failure can_transition_to
apply_transition-IsReady tr now row r h =
    ground (arith, r.attempt_positive, r.attempt_fits, r.state_fits)

pub apply_transition_status :
    (tr : TaskTransition) (now : ℕ) (row : TaskRow) → (apply_transition tr now row).status ≡ next tr
unfolding apply_transition next
apply_transition_status tr now row = ground arith

pub apply_transition_id :
    (tr : TaskTransition) (now : ℕ) (row : TaskRow) → (apply_transition tr now row).id ≡ row.id
unfolding apply_transition
apply_transition_id tr now row = ground arith

pub apply_transition_request :
    (tr : TaskTransition) (now : ℕ) (row : TaskRow)
    → (apply_transition tr now row).client_request_id ≡ row.client_request_id
unfolding apply_transition
apply_transition_request tr now row = ground arith

pub apply_transition_source :
    (tr : TaskTransition) (now : ℕ) (row : TaskRow)
    → (apply_transition tr now row).retry_of ≡ row.retry_of
unfolding apply_transition
apply_transition_source tr now row = ground arith

-- An event of the next status is the next step of the history.
pub advance-lifecycle_kind :
    (s t : TaskStatus) → can_transition_to s t ≡ true → advance (at s) (lifecycle_kind t) ≡ at t
unfolding can_transition_to lifecycle_kind
advance-lifecycle_kind s t h = ground arith

-- The test of `WHERE id = ? AND status = ?` beside the key.
abbrev pub has_status : TaskStatus → TaskRow → Bool
has_status s row = ite (TaskStatus-discrete row.status s) true false

pub eq-has_status : (s : TaskStatus) (row : TaskRow) → row.status ≡ s → has_status s row ≡ true
eq-has_status s row h = ground arith

pub has_status-eq : (s : TaskStatus) (row : TaskRow) → has_status s row ≡ true → row.status ≡ s
has_status-eq s row h = ground arith

module _ (db : Db) (w : IsWellFormed db) (i : ℕ) where
  conflict-keeps : (env : Env) → Ensures WellFormedAfter (transition_conflict env i db)
  unfolding transition_conflict
  conflict-keeps env =
      Ensures-load WellFormedAfter db _ _
        λ found _. Ensures-require WellFormedAfter db found _ _ λ current _. w

  module _ (s : TaskStatus) (tr : TaskTransition) (now : ℕ)
      (legal : can_transition_to s (next tr) ≡ true) where
    abbrev f : TaskRow → TaskRow
    f = apply_transition tr now

    abbrev changed : Db
    changed = record db { tasks = update_where (same_id i) f db.tasks }

    -- The row that the UPDATE has changed gets its event.
    changed-keeps :
        (row : TaskRow) (rows : ℕ)
        → find_where (same_id i) db.tasks ≡ some row
        → has_status s row ≡ true
        → Ensures WellFormedAfter (transition_applied i (next tr) now rows changed)
    unfolding transition_applied
    changed-keeps row rows e t =
        let (c, _) = find-keyed (λ t. t.id) (IsCurrent db.task_events) i db.tasks e w.current in
        let there : row.id ≡ i = found-key (λ t. t.id) i db.tasks e in
        let from : row.status ≡ s = has_status-eq s row t in
        let status = apply_transition_status tr now row in
        let past : replay i db.task_events ≡ at s =
          subst (λ j. replay j db.task_events ≡ at s) there (c.status ∙ ap at from) in
        Ensures-one WellFormedAfter changed rows _ _ λ _.
          Ensures-lifecycle_of changed i now
            (update-IsPending f (apply_transition_id tr now) (apply_transition_request tr now)
              (apply_transition_source tr now) db i w)
            (find-update (λ t. t.id) i f db.tasks (apply_transition_id tr now) e)
            (apply_transition-IsReady tr now row c.stored.ready
              (subst (λ s. can_transition_to s (next tr) ≡ true) (sym from) legal))
            (rw (past, status) (advance-lifecycle_kind s (next tr) legal)) (next tr) WellFormedAfter
            _ status λ p after. after

    rows-keep :
        (env : Env) (rows : ℕ)
        → count_where (in_status i s) db.tasks ≡ rows
        → Ensures WellFormedAfter (
            transition_rows env i
              (next tr)
              now
              rows
              (record db { tasks = update_where (in_status i s) f db.tasks }))
    unfolding transition_rows
    rows-keep env zero h = rw (update_none (in_status i s) f db.tasks h) (conflict-keeps env)
    rows-keep env (suc rows) h =
        let (row, e, t) = count-eq_suc (λ t. t.id) i (has_status s) db.tasks h w.ids in
        rw (update-eq (λ t. t.id) i (has_status s) f db.tasks e t w.ids)
          (changed-keeps row (suc rows) e t)

  transition_body-keeps :
      (env : Env) (s : TaskStatus) (tr : TaskTransition)
      → can_transition_to s (next tr) ≡ true
      → Ensures WellFormedAfter (transition_body env i s tr db)
  unfolding transition_body current_timestamp
  transition_body-keeps env s tr legal = Ensures-lift WellFormedAfter db _ _ λ now _.
      Ensures-update WellFormedAfter db (in_status i s) (apply_transition tr now) _
        (rows-keep s tr now legal env _ refl)

  -- A transition of any task, legal or not, applied, refused or rolled back, keeps a well-formed
  -- store well-formed.
  pub transition_with_event-IsWellFormed :
      (env : Env) (s : TaskStatus) (tr : TaskTransition)
      → IsWellFormed (transition_with_event env i s tr db).1
  unfolding transition_with_event
  transition_with_event-IsWellFormed env s tr = elim (Bool-cases (can_transition_to s (next tr))) [
    | inl legal ↦ rw legal (
        transact-keeps IsWellFormed env (transition_body env i s tr) db w
          (transition_body-keeps env s tr legal))
    | inr illegal ↦ rw illegal w
  ]
