-- ===== src/App/Manager/Claim.antt =====
-- `claim_queued` and `spawn_runner` of crates/coding-agent-app/src/task_manager.rs.
use ngy_coding_agent.Base.{
  ℕ, zero, suc, Bool, true, false, not, Option, none, some, List, [], ◌∷◌, Result, ok, err, ◌==◌,
  if◌then◌else◌, sort_by, ite,
}
use ngy_coding_agent.Domain.Task.{Task, TaskStatus-discrete, queued}
use ngy_coding_agent.Domain.Repository.{Repository}
use ngy_coding_agent.Store.Schema.{StoreError, DatabaseError, find_where, select_where}
use ngy_coding_agent.Store.Projection.{BootstrapSnapshot, bootstrap_snapshot, read}
use ngy_coding_agent.Store.Tasks.{TransitionOutcome, applied, conflict, to_running}
use ngy_coding_agent.Store.Tasks.Recovery.{oldest_first}
use ngy_coding_agent.App.Writer.{StoreWriterError}
use ngy_coding_agent.App.Writer.Handle
use ngy_coding_agent.App.Writer.Handle.{Call}
use ngy_coding_agent.App.Manager.{
  TaskManager, TaskManagerError, is_frozen, freeze_and_cancel, contains_key, remove_active,
}

-- What the claim of one task meets: whether another task freezes the manager before each of the
-- four tests of it, whether a sender of messages is still there, and the call of the writer.
pub record ClaimEnv : Type 0 where
  pub permit_acquired : Bool
  pub handle_registered : Bool
  pub sender_upgraded : Bool
  pub running_committed : Bool
  pub sender_open : Bool
  pub call : Call

abbrev pub observe : Bool → TaskManager → TaskManager
observe true m = freeze_and_cancel m
observe false m = m

-- `try_acquire_owned`
unfoldable pub take_permit : ℕ → TaskManager → Option TaskManager
take_permit zero m = none
take_permit (suc n) m = some (record m { available = n })

unfoldable pub try_acquire : TaskManager → Option TaskManager
unfolding take_permit
try_acquire m = take_permit m.available m

-- `drop(permit)`
unfoldable pub drop_permit : TaskManager → TaskManager
drop_permit m = record m { available = suc m.available }

-- The permit in hand goes into the entry.
unfoldable pub insert_active : ℕ → TaskManager → TaskManager
insert_active id m = record m {
  active = record { task_id = id; is_cancelled = false; has_receiver = true } ∷ m.active;
}

unfoldable pub spawn_runner : Task → Repository → TaskManager → TaskManager
spawn_runner task repository m = record m {
  runners = record { task = task; repository = repository } ∷ m.runners;
}

-- Whether the loop goes on, with the state.
abbrev pub Round : Type 0
Round = Bool × TaskManager

unfoldable pub committed : Task → Repository → ℕ → TaskManager → Round
unfolding spawn_runner is_frozen remove_active
committed task repository id m =
    if is_frozen m then (false, remove_active id m) else (true, spawn_runner task repository m)

unfoldable pub settle_claim :
    ClaimEnv → ℕ → Repository → Result StoreWriterError TransitionOutcome → TaskManager → Round
unfolding committed freeze_and_cancel
settle_claim env id repository (ok (applied task event)) m =
    committed task repository id (observe env.running_committed m)
settle_claim env id repository (ok (conflict current)) m = (true, remove_active id m)
settle_claim env id repository (err e) m = (false, remove_active id m)

unfoldable pub claim_registered : ClaimEnv → ℕ → Repository → TaskManager → Round
unfolding settle_claim Handle.transition_with_event
claim_registered env id repository m =
    let claim = Handle.transition_with_event env.call id queued to_running m.db in
    settle_claim env id repository claim.0 (record m { db = claim.1 })

-- From the entry in `active` to the write.
unfoldable pub claim_checked : ClaimEnv → ℕ → Repository → TaskManager → Round
unfolding claim_registered
claim_checked env id repository m =
    let registered = observe env.handle_registered m in
    let upgraded = observe env.sender_upgraded registered in
    if is_frozen registered
    then (false, remove_active id registered)
    else if not env.sender_open
    then (false, remove_active id registered)
    else if is_frozen upgraded
    then (false, remove_active id upgraded)
    else claim_registered env id repository upgraded

unfoldable pub claim_of : ClaimEnv → ℕ → Option Repository → TaskManager → Round
unfolding claim_checked drop_permit insert_active
claim_of env id none m = (true, drop_permit m)
claim_of env id (some repository) m = claim_checked env id repository (insert_active id m)

unfoldable pub claim_held : ClaimEnv → Task → Option Repository → TaskManager → Round
unfolding claim_of
claim_held env task repository m =
    if is_frozen m then (false, drop_permit m) else claim_of env task.id repository m

unfoldable pub claim_permitted :
    ClaimEnv → Task → Option Repository → Option TaskManager → TaskManager → Round
unfolding claim_held
claim_permitted env task repository none m = (false, m)
claim_permitted env task repository (some held) m =
    claim_held env task repository (observe env.permit_acquired held)

abbrev pub repository_id_is : ℕ → Repository → Bool
repository_id_is id r = r.id == id

-- One round of the loop.
unfoldable pub claim_one : ClaimEnv → List Repository → Task → TaskManager → Round
unfolding claim_permitted try_acquire contains_key
claim_one env repositories task m =
    if contains_key task.id m.active
    then (true, m)
    else claim_permitted env task (find_where (repository_id_is task.repository_id) repositories)
        (try_acquire m) m

-- The loop, whose round number `n` is the next.
unfoldable pub claim_each :
    (ℕ → ClaimEnv) → ℕ → List Repository → List Task → TaskManager → TaskManager
unfolding claim_one
claim_each envs n repositories [] m = m
claim_each envs n repositories (task ∷ tasks) m =
    let round = claim_one (envs n) repositories task m in
    let rest = claim_each envs (suc n) repositories tasks round.1 in
    if round.0 then rest else round.1

abbrev pub is_queued : Task → Bool
is_queued t = ite (TaskStatus-discrete t.status queued) true false

unfoldable pub queued_tasks : BootstrapSnapshot → List Task
queued_tasks snapshot = sort_by oldest_first (select_where is_queued snapshot.tasks)

unfoldable pub claim_snapshot :
    (ℕ → ClaimEnv)
    → Result StoreError BootstrapSnapshot
    → TaskManager
    → Result TaskManagerError (Unit {0}) × TaskManager
unfolding claim_each queued_tasks
claim_snapshot envs (err e) m = (err (TaskManagerError.store e), m)
claim_snapshot envs (ok snapshot) m =
    (ok tt, claim_each envs 0 snapshot.repositories (queued_tasks snapshot) m)

-- What a scan meets: whether the snapshot is refused, and the claims.
pub record ScanEnv : Type 0 where
  pub refused : Option DatabaseError
  pub claims : ℕ → ClaimEnv

unfoldable pub claim_queued :
    ScanEnv → TaskManager → Result TaskManagerError (Unit {0}) × TaskManager
unfolding claim_snapshot
claim_queued env m = claim_snapshot env.claims (read env.refused (bootstrap_snapshot m.db)) m
