-- ===== src/App/Manager/Progress.antt =====
-- A claim of crates/coding-agent-app/src/task_manager.rs, and the commands that others get to the
-- writer before it.
use ngy_coding_agent.Base.{
  ℕ, suc, ◌<◌, ◌≡◌, refl, ◌∙◌, true, false, some, List, ◌∷◌, Result, ok, if_false, ap, ◌⊎◌, inl,
  inr, ◌≢◌, ◌==◌, arith,
}
use ngy_coding_agent.Domain.Task.{Task, TaskStatus-discrete, queued, can_transition_to}
use ngy_coding_agent.Domain.Event.{TaskEventPayload}
use ngy_coding_agent.Domain.Repository.{Repository}
use ngy_coding_agent.Store.Schema.{Db, find_where, same_id}
use ngy_coding_agent.Store.Invariant.{IsWellFormed}
use ngy_coding_agent.Store.Answers.{
  transition_with_event-applied, transition_with_event-conflict, transitioned,
}
use ngy_coding_agent.Store.Tasks.{
  next, to_running, apply_transition, applied, conflict, TransitionOutcome,
}
use ngy_coding_agent.Store.Tasks.Events.{set_last_event, max_rowid}
use ngy_coding_agent.App.Writer.{StoreWriterError, run_writer}
use ngy_coding_agent.App.Writer.Safety.{run_writer-IsWellFormed}
use ngy_coding_agent.App.Writer.Handle
use ngy_coding_agent.App.Writer.Answers.{IsServed, transition_served}
use ngy_coding_agent.App.Manager.{TaskManager, is_frozen, contains_key, remove_key, remove_active}
use ngy_coding_agent.App.Manager.Claim.{
  ClaimEnv, Round, claim_one, claim_permitted, claim_held, claim_of, claim_checked,
  claim_registered, settle_claim, committed, try_acquire, take_permit, insert_active, spawn_runner,
  repository_id_is,
}

-- No task freezes the manager, its sender is there, and the writer serves the claim at once.
pub record IsClear (env : ClaimEnv) : Type 0 where
  pub permit_acquired : env.permit_acquired ≡ false
  pub handle_registered : env.handle_registered ≡ false
  pub sender_upgraded : env.sender_upgraded ≡ false
  pub running_committed : env.running_committed ≡ false
  pub sender_open : env.sender_open ≡ true
  pub call : IsServed env.call

-- The store that the writer finds: the commands of others have come first.
abbrev pub found_by : ClaimEnv → TaskManager → Db
found_by e m = run_writer e.call.others m.db

-- The loop goes on, and the task that stood in `row` is running in the store with one more event,
-- holds one permit as the newest active entry, and has a runner that gets it as it was stored.
abbrev pub IsRunning : ClaimEnv → Repository → Task → TaskManager → ℕ → Task → Round → Type 0
IsRunning env repository task m n row round =
    (p : TaskEventPayload) × (round ≡ (
      true,
      record m {
        db = transitioned (found_by env m) (env.call.attempts 0).env task.id to_running p;
        available = n;
        active = record { task_id = task.id; is_cancelled = false; has_receiver = true } ∷ m.active;
        runners =
            record {
              task =
                  set_last_event (suc (found_by env m).sequence)
                    (apply_transition to_running (env.call.attempts 0).env.now row);
              repository = repository;
            }
            ∷ m.runners;
      },
    ))

committed_alive :
    (task : Task) (repository : Repository) (id : ℕ) (m : TaskManager)
    → is_frozen m ≡ false
    → committed task repository id m ≡ (true, spawn_runner task repository m)
unfolding committed
committed_alive task repository id m h = rw h refl

module _ (env : ClaimEnv) (v : IsClear env) (repository : Repository) where
  settled_runs :
      (id : ℕ) (m : TaskManager) (task : Task) (event : ℕ) (after : Db)
      (claim : Result StoreWriterError TransitionOutcome × Db)
      → is_frozen m ≡ false
      → claim ≡ (ok (applied task event), after)
      → settle_claim env id repository claim.0 (record m { db = claim.1 })
        ≡ (true, spawn_runner task repository (record m { db = after }))
  unfolding settle_claim is_frozen
  settled_runs id m task event after claim h e =
      rw (e, v.running_committed) (committed_alive task repository id (record m { db = after }) h)

  registered_runs :
      (id : ℕ) (m : TaskManager) (task : Task) (event : ℕ) (after : Db)
      → is_frozen m ≡ false
      → Handle.transition_with_event env.call id queued to_running m.db
        ≡ (ok (applied task event), after)
      → claim_registered env id repository m
        ≡ (true, spawn_runner task repository (record m { db = after }))
  unfolding claim_registered
  registered_runs id m task event after h e =
      settled_runs id m task event after
        (Handle.transition_with_event env.call id queued to_running m.db) h e

  checked_runs :
      (id : ℕ) (m : TaskManager)
      → is_frozen m ≡ false
      → claim_checked env id repository m ≡ claim_registered env id repository m
  unfolding claim_checked
  checked_runs id m h = rw (v.handle_registered, v.sender_upgraded, v.sender_open, h) refl

  held_runs :
      (task : Task) (m : TaskManager)
      → is_frozen m ≡ false
      → claim_held env task (some repository) m
        ≡ claim_checked env task.id repository (insert_active task.id m)
  unfolding claim_held claim_of
  held_runs task m h = rw h refl

  one_runs :
      (repositories : List Repository) (task : Task) (m : TaskManager) (n : ℕ)
      → m.available ≡ suc n
      → contains_key task.id m.active ≡ false
      → find_where (repository_id_is task.repository_id) repositories ≡ some repository
      → claim_one env repositories task m
        ≡ claim_held env task (some repository) (record m { available = n })
  unfolding claim_one claim_permitted try_acquire take_permit
  one_runs repositories task m n free absent known =
      if_false (λ r. r ≡ claim_held env task (some repository) (record m { available = n }))
        (contains_key task.id m.active) _ absent (rw (free, known, v.permit_acquired) refl)

  settled_lost :
      (id : ℕ) (m : TaskManager) (current : Task) (after : Db)
      (claim : Result StoreWriterError TransitionOutcome × Db)
      → claim ≡ (ok (conflict current), after)
      → settle_claim env id repository claim.0 (record m { db = claim.1 })
        ≡ (true, remove_active id (record m { db = after }))
  unfolding settle_claim
  settled_lost id m current after claim e = rw e refl

  registered_lost :
      (id : ℕ) (m : TaskManager) (current : Task) (after : Db)
      → Handle.transition_with_event env.call id queued to_running m.db
        ≡ (ok (conflict current), after)
      → claim_registered env id repository m ≡ (true, remove_active id (record m { db = after }))
  unfolding claim_registered
  registered_lost id m current after e =
      settled_lost id m current after
        (Handle.transition_with_event env.call id queued to_running m.db) e

  same_id_again : (n : ℕ) → (n == n) ≡ true
  same_id_again n = ground arith

  -- The entry that was made for the claim goes, and its permit comes back.
  removed_again :
      (id : ℕ) (m : TaskManager)
      → remove_active id (insert_active id m)
        ≡ record m { available = suc m.available; done = id ∷ m.done }
  unfolding remove_active insert_active contains_key remove_key
  removed_again id m = rw (same_id_again id) refl

  claim_one-runs :
      (repositories : List Repository) (task : Task) (m : TaskManager) (n : ℕ)
      → IsWellFormed m.db
      → is_frozen m ≡ false
      → m.available ≡ suc n
      → contains_key task.id m.active ≡ false
      → find_where (repository_id_is task.repository_id) repositories ≡ some repository
      → (found_by env m).sequence < max_rowid
      → (row : Task) → find_where (same_id task.id) (found_by env m).tasks ≡ some row
      → row.status ≡ queued
      → IsRunning env repository task m n row (claim_one env repositories task m)
  unfolding spawn_runner insert_active is_frozen can_transition_to next
  claim_one-runs repositories task m n w unfrozen free absent known room row found status =
      let first = (env.call.attempts 0).env in
      let (p, e) =
        transition_with_event-applied (found_by env m)
          (run_writer-IsWellFormed env.call.others m.db w) first v.call.serving task.id queued
          to_running refl row found status room in
      let entered = insert_active task.id (record m { available = n }) in
      (
        p,
        one_runs repositories task m n free absent known
            ∙ held_runs task (record m { available = n }) unfrozen
            ∙ checked_runs task.id entered unfrozen
            ∙ registered_runs task.id entered _ _ _ unfrozen
                (transition_served env.call task.id queued to_running m.db _ v.call e),
      )

  -- The claim of a task that is queued no more when the writer comes to it.
  claim_one-lost :
      (repositories : List Repository) (task : Task) (m : TaskManager) (n : ℕ)
      → IsWellFormed m.db
      → is_frozen m ≡ false
      → m.available ≡ suc n
      → contains_key task.id m.active ≡ false
      → find_where (repository_id_is task.repository_id) repositories ≡ some repository
      → (row : Task) → find_where (same_id task.id) (found_by env m).tasks ≡ some row
      → row.status ≢ queued
      → claim_one env repositories task m
        ≡ (true, record m { db = found_by env m; done = task.id ∷ m.done })
  unfolding is_frozen can_transition_to next insert_active
  claim_one-lost repositories task m n w unfrozen free absent known row found status =
      let e =
        transition_with_event-conflict (found_by env m)
          (run_writer-IsWellFormed env.call.others m.db w) (env.call.attempts 0).env v.call.serving
          task.id queued to_running refl row found status in
      let held : TaskManager = record m { available = n } in
      let entered = insert_active task.id held in
      one_runs repositories task m n free absent known
      ∙ held_runs task held unfrozen
      ∙ checked_runs task.id entered unfrozen
      ∙ registered_lost task.id entered row (found_by env m)
          (transition_served env.call task.id queued to_running m.db _ v.call e)
      ∙ ap (λ r. (true, r)) (removed_again task.id (record held { db = found_by env m }))
      ∙ rw free refl

  -- On a well-formed store, when the manager is not frozen and nobody freezes it, its sender is
  -- there, a permit is free, the task is not active, its repository is known, and the writer
  -- serves the call at its first attempt, then what the claim of a task does goes by where the
  -- task stands after the commands that others got to the writer before it, the task being there
  -- and event ids being left. If the task is queued then, the loop goes on and the task is running
  -- in the store with one more event, holds one permit as the newest active entry, and has a
  -- runner that gets the task as it was stored. If not, the loop goes on, no runner is started,
  -- the store is as the others left it, and the entry and its permit are given back.
  pub claim_one_lem :
      (repositories : List Repository) (task : Task) (m : TaskManager) (n : ℕ)
      → IsWellFormed m.db
      → is_frozen m ≡ false
      → m.available ≡ suc n
      → contains_key task.id m.active ≡ false
      → find_where (repository_id_is task.repository_id) repositories ≡ some repository
      → (found_by env m).sequence < max_rowid
      → (row : Task) → find_where (same_id task.id) (found_by env m).tasks ≡ some row
      → ((row.status ≡ queued)
          × IsRunning env repository task m n row (claim_one env repositories task m))
        ⊎ ((row.status ≢ queued)
            × (claim_one env repositories task m
                ≡ (true, record m { db = found_by env m; done = task.id ∷ m.done })))
  claim_one_lem repositories task m n w unfrozen free absent known room row found =
      elim (TaskStatus-discrete row.status queued) [
        | yes status ↦ inl (
          status,
          claim_one-runs repositories task m n w unfrozen free absent known room row found status,
        )
        | no status ↦ inr (
          status,
          claim_one-lost repositories task m n w unfrozen free absent known row found status,
        )
      ]
