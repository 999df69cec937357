-- ===== src/Store/Invariant/Recovery.antt =====
-- `recover_incomplete` of crates/coding-agent-store/src/tasks.rs keeps the invariant.
use ngy_coding_agent.Store.Invariant.Cleared.{
  Listed, recovered-Listed, none-Listed, incomplete_ids-Listed,
}
use ngy_coding_agent.Base.{
  All, ℕ, suc, ◌≡◌, refl, subst, List, [], ◌∷◌, some, arith, true, false, ok, Result, sym, err,
}
use ngy_coding_agent.Domain.Task.{TaskStatus, TaskFailure, interrupted, can_transition_to}
use ngy_coding_agent.Domain.Value.{event_cursor}
use ngy_coding_agent.Store.Schema.{StoreError, Db, TaskRow, find_where, update_where, same_id}
use ngy_coding_agent.Store.Tx.{Env, Tx, ◌>>=◌, pure, lift, transact}
use ngy_coding_agent.Store.Ensures.{
  Ensures, Ensures-bind, transact-keeps, transact-eq-ok, Ensures-ok,
}
use ngy_coding_agent.Store.Table.{count-eq_suc, update-eq, find-All, find-update, found-key}
use ngy_coding_agent.Store.Codec.Roundtrip.{IsReady}
use ngy_coding_agent.Store.History.{at, replay}
use ngy_coding_agent.Store.Tasks.Events.{
  lifecycle_kind, append_lifecycle_event, latest_event_cursor, set_last_event,
}
use ngy_coding_agent.Store.Tasks.Recovery.{
  is_incomplete, incomplete_row, incomplete_id, interrupt, recover_one, recover_each, recover_body,
  recover_incomplete, incomplete_ids, RecoveryOutcome,
}
use ngy_coding_agent.Store.Invariant.{IsWellFormed, IsCurrent}
use ngy_coding_agent.Store.Invariant.Record.{update-IsPending}
use ngy_coding_agent.Store.Invariant.Lifecycle.{Ensures-lifecycle_of}
use ngy_coding_agent.Store.Invariant.Operations.{WellFormedAfter}
use ngy_coding_agent.Store.Invariant.Transitions.{
  Ensures-update, Ensures-one, advance-lifecycle_kind,
}

interrupt-IsReady :
    (now : ℕ) (failure : TaskFailure) (row : TaskRow)
    → IsReady row
    → IsReady (interrupt now failure row)
unfolding interrupt
interrupt-IsReady now failure row r = record {
  attempt_positive = r.attempt_positive;
  attempt_fits = r.attempt_fits;
  state_fits = refl;
}

incomplete-transition :
    (s : TaskStatus) → is_incomplete s ≡ true → can_transition_to s interrupted ≡ true
unfolding is_incomplete can_transition_to
incomplete-transition s h = ground arith

-- Every task is at its end.
abbrev Finished : Db → Type 0
Finished db = IsWellFormed db × All (λ t. is_incomplete t.status ≡ false) db.tasks

module _ (now : ℕ) (failure : TaskFailure) where
  -- The store after one round.
  abbrev Recovered : ℕ → Db → Db → Type 0
  Recovered i db after =
      IsWellFormed after
      × (after.tasks
          ≡ update_where (same_id i) (set_last_event (suc db.sequence))
              (update_where (same_id i) (interrupt now failure) db.tasks))

  abbrev f : TaskRow → TaskRow
  f = interrupt now failure

  interrupted-keeps :
      {B : Type 0} (R : B → Db → Type 0) (k : ℕ → Tx B) (db : Db) (i : ℕ) (row : TaskRow)
      → IsWellFormed db
      → find_where (same_id i) db.tasks ≡ some row
      → is_incomplete row.status ≡ true
      → ((n : ℕ) (after : Db) → Recovered i db after → Ensures R (k n after))
      → Ensures R (
          (do (task, event) ← append_lifecycle_event i (lifecycle_kind interrupted) now; k event)
            (record db { tasks = update_where (same_id i) f db.tasks }))
  unfolding interrupt
  interrupted-keeps R k db i row w e t next =
      let (c, _) = find-All (IsCurrent db.task_events) (same_id i) db.tasks e w.current in
      let there : row.id ≡ i = found-key (λ t. t.id) i db.tasks e in
      let past : replay i db.task_events ≡ at row.status =
        subst (λ j. replay j db.task_events ≡ at row.status) there c.status in
      Ensures-lifecycle_of (record db { tasks = update_where (same_id i) f db.tasks }) i now
        (update-IsPending f (λ t. refl) (λ t. refl) (λ t. refl) db i w)
        (find-update (λ t. t.id) i f db.tasks (λ t. refl) e)
        (interrupt-IsReady now failure row c.stored.ready)
        (rw past
          (advance-lifecycle_kind row.status interrupted (incomplete-transition row.status t)))
        interrupted R _ refl λ p after. next (suc db.sequence) _ (after, refl)

  recover_one-Recovered :
      (db : Db) (i : ℕ)
      → IsWellFormed db
      → Ensures (λ _ after. Recovered i db after) (recover_one now failure i db)
  unfolding recover_one lifecycle_kind
  recover_one-Recovered db i w =
      Ensures-update (λ _ after. Recovered i db after) db (incomplete_id i) f _
        (Ensures-one (λ _ after. Recovered i db after) _ _ _ _
          λ one.
            let (row, e, t) = count-eq_suc (λ t. t.id) i incomplete_row db.tasks one w.ids in
            rw (update-eq (λ t. t.id) i incomplete_row f db.tasks e t w.ids) (
              interrupted-keeps (λ _ after. Recovered i db after) pure db i row w e t
                λ n after k. k))

  -- When every unfinished task is on the list, the rounds of the list finish them all.
  recover_each-Finished :
      (ids : List ℕ) (db : Db)
      → IsWellFormed db
      → Listed ids db.tasks
      → Ensures (λ _ after. Finished after) (recover_each now failure ids db)
  unfolding recover_each
  recover_each-Finished [] db w l = (w, none-Listed db.tasks l)
  recover_each-Finished (i ∷ ids) db w l =
      Ensures-bind (λ _ after. Finished after) db (recover_one now failure i) _
        λ event db' e.
          let (w', same) : Recovered i db db' =
            subst (Ensures (λ _ after. Recovered i db after)) e (recover_one-Recovered db i w) in
          let l' : Listed ids db'.tasks =
            subst (Listed ids) (sym same)
              (recovered-Listed now (suc db.sequence) i failure ids db.tasks l) in
          Ensures-bind (λ _ after. Finished after) db' (recover_each now failure ids) _
            λ rest db'' e'.
              subst (Ensures (λ _ after. Finished after)) e' (recover_each-Finished ids db' w' l')

  cursor-Finished :
      (db : Db) → Finished db → Ensures (λ _ after. Finished after) (latest_event_cursor db)
  unfolding latest_event_cursor event_cursor lift
  cursor-Finished db w = w

  recover_body-Finished :
      (db : Db)
      → IsWellFormed db
      → Ensures (λ _ after. Finished after) (recover_body now failure db)
  unfolding recover_body
  recover_body-Finished db w =
      Ensures-ok (λ _ after. Finished after) db _ _ refl
        (Ensures-bind (λ _ after. Finished after) db (recover_each now failure (incomplete_ids db))
          _
          λ events db2 e2.
            let w2 : Finished db2 =
              subst (Ensures (λ _ after. Finished after)) e2
                (recover_each-Finished (incomplete_ids db) db w (incomplete_ids-Listed db)) in
            Ensures-bind (λ _ after. Finished after) db2 latest_event_cursor _
              λ high db3 e3.
                subst (Ensures (λ _ after. Finished after)) e3 (cursor-Finished db2 w2))

  Finished-IsWellFormed :
      {A : Type 0} (r : Result StoreError (A × Db))
      → Ensures (λ _ after. Finished after) r
      → Ensures WellFormedAfter r
  Finished-IsWellFormed (ok (a, db)) h = h.0
  Finished-IsWellFormed (err e) h = tt

-- Recovery, which interrupts each task that is queued or running, keeps a well-formed store well-
-- formed.
pub recover_incomplete-IsWellFormed :
    (db : Db) (w : IsWellFormed db) (env : Env) (now : ℕ) (failure : TaskFailure)
    → IsWellFormed (recover_incomplete env now failure db).1
unfolding recover_incomplete
recover_incomplete-IsWellFormed db w env now failure =
    transact-keeps IsWellFormed env (recover_body now failure) db w
      (Finished-IsWellFormed now failure _ (recover_body-Finished now failure db w))

-- Once a recovery of a well-formed store has returned its outcome, no task in the store is queued
-- or running.
pub recover_incomplete-finishes :
    (db : Db) (w : IsWellFormed db) (env : Env) (now : ℕ) (failure : TaskFailure)
    (outcome : RecoveryOutcome)
    → (recover_incomplete env now failure db).0 ≡ ok outcome
    → All (λ t. is_incomplete t.status ≡ false) (recover_incomplete env now failure db).1.tasks
unfolding recover_incomplete
recover_incomplete-finishes db w env now failure outcome h =
    let finished : Finished (transact env (recover_body now failure) db).1 =
      subst (Ensures (λ _ after. Finished after))
        (transact-eq-ok env (recover_body now failure) db h)
        (recover_body-Finished now failure db w) in
    finished.1
