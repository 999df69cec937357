-- ===== src/App/Manager/Sound/Claims.antt =====
-- What the claims of crates/coding-agent-app/src/task_manager.rs keep.
use ngy_coding_agent.Base.{
  ℕ, zero, suc, ◌≡◌, refl, Bool, true, false, Option, List, [], ◌∷◌, Result, ok, err, arith,
  Bool-cases, inl, inr, Option-cases,
}
use ngy_coding_agent.Domain.Task.{Task, queued}
use ngy_coding_agent.Domain.Repository.{Repository}
use ngy_coding_agent.Store.Schema.{StoreError}
use ngy_coding_agent.Store.Projection.{BootstrapSnapshot}
use ngy_coding_agent.Store.Tasks.{TransitionOutcome, applied, conflict, to_running}
use ngy_coding_agent.App.Writer.{StoreWriterError}
use ngy_coding_agent.App.Writer.Handle
use ngy_coding_agent.App.Writer.Answers.{submit-IsWellFormed}
use ngy_coding_agent.App.Manager.{TaskManager, is_frozen, freeze_and_cancel, contains_key}
use ngy_coding_agent.App.Manager.Claim.{
  ClaimEnv, ScanEnv, observe, take_permit, try_acquire, drop_permit, insert_active, committed,
  settle_claim, claim_registered, claim_checked, claim_of, claim_held, claim_permitted, claim_one,
  claim_each, claim_snapshot, claim_queued, spawn_runner,
}
use ngy_coding_agent.App.Manager.Sound.{IsSound, remove_active-IsSound, store-IsSound, absent-keys}

observe-absent :
    (id : ℕ) (b : Bool) (m : TaskManager)
    → contains_key id m.active ≡ false
    → contains_key id (observe b m).active ≡ false
unfolding freeze_and_cancel
observe-absent id true m h = h
observe-absent id false m h = h

module _ {c : ℕ} where
  observe-IsSound :
      {held : ℕ} (b : Bool) (m : TaskManager) → IsSound c held m → IsSound c held (observe b m)
  unfolding freeze_and_cancel
  observe-IsSound true m p = p
  observe-IsSound false m p = p

  drop_permit-IsSound : (m : TaskManager) → IsSound c 1 m → IsSound c 0 (drop_permit m)
  unfolding drop_permit
  drop_permit-IsSound m p = record {
    store = p.store;
    published = p.published;
    permits = omega (arith, p.permits);
    distinct = p.distinct;
    agrees = p.agrees;
  }

  insert_active-IsSound :
      (id : ℕ) (m : TaskManager)
      → contains_key id m.active ≡ false
      → IsSound c 1 m
      → IsSound c 0 (insert_active id m)
  unfolding insert_active
  insert_active-IsSound id m absent p = record {
    store = p.store;
    published = p.published;
    permits = omega (arith, p.permits);
    distinct = (absent-keys id m.active absent, p.distinct);
    agrees = p.agrees;
  }

  committed-IsSound :
      (task : Task) (repository : Repository) (id : ℕ) (m : TaskManager)
      → IsSound c 0 m
      → IsSound c 0 (committed task repository id m).1
  unfolding committed spawn_runner
  committed-IsSound task repository id m p = elim (Bool-cases (is_frozen m)) [
    | inl over ↦ rw over (remove_active-IsSound id m p)
    | inr alive ↦ rw alive p
  ]

  settle_claim-IsSound :
      (env : ClaimEnv) (id : ℕ) (repository : Repository)
      (answer : Result StoreWriterError TransitionOutcome) (m : TaskManager)
      → IsSound c 0 m
      → IsSound c 0 (settle_claim env id repository answer m).1
  unfolding settle_claim
  settle_claim-IsSound env id repository (ok (applied task event)) m p =
      committed-IsSound task repository id (observe env.running_committed m)
        (observe-IsSound env.running_committed m p)
  settle_claim-IsSound env id repository (ok (conflict current)) m p = remove_active-IsSound id m p
  settle_claim-IsSound env id repository (err e) m p = remove_active-IsSound id m p

  claim_registered-IsSound :
      (env : ClaimEnv) (id : ℕ) (repository : Repository) (m : TaskManager)
      → IsSound c 0 m
      → IsSound c 0 (claim_registered env id repository m).1
  unfolding claim_registered Handle.transition_with_event
  claim_registered-IsSound env id repository m p =
      let claim = Handle.transition_with_event env.call id queued to_running m.db in
      settle_claim-IsSound env id repository claim.0 (record m { db = claim.1 })
        (store-IsSound claim.1 m (submit-IsWellFormed env.call _ m.db p.store) p)

  claim_checked-IsSound :
      (env : ClaimEnv) (id : ℕ) (repository : Repository) (m : TaskManager)
      → IsSound c 0 m
      → IsSound c 0 (claim_checked env id repository m).1
  unfolding claim_checked
  claim_checked-IsSound env id repository m p =
      let registered = observe-IsSound env.handle_registered m p in
      let upgraded = observe-IsSound env.sender_upgraded _ registered in
      elim (Bool-cases (is_frozen (observe env.handle_registered m))) [
        | inl over ↦ rw over (remove_active-IsSound id _ registered)
        | inr alive ↦ rw alive (elim (Bool-cases env.sender_open) [
          | inr shut ↦ rw shut (remove_active-IsSound id _ registered)
          | inl open' ↦
              rw open'
                (elim (Bool-cases
                  (is_frozen (observe env.sender_upgraded (observe env.handle_registered m)))) [
                    | inl over ↦ rw over (remove_active-IsSound id _ upgraded)
                    | inr still ↦ rw still (claim_registered-IsSound env id repository _ upgraded)
                  ])
        ])
      ]

  claim_held-IsSound :
      (env : ClaimEnv) (task : Task) (repository : Option Repository) (m : TaskManager)
      → contains_key task.id m.active ≡ false
      → IsSound c 1 m
      → IsSound c 0 (claim_held env task repository m).1
  unfolding claim_held claim_of
  claim_held-IsSound env task repository m absent p = elim (Bool-cases (is_frozen m)) [
    | inl over ↦ rw over (drop_permit-IsSound m p)
    | inr alive ↦ rw alive (elim (Option-cases repository) [
      | inl missing ↦ rw missing (drop_permit-IsSound m p)
      | inr (r, found) ↦ rw found (
          claim_checked-IsSound env task.id r (insert_active task.id m)
            (insert_active-IsSound task.id m absent p))
    ])
  ]

  claim_permitted-IsSound :
      (env : ClaimEnv) (task : Task) (repository : Option Repository) (n : ℕ) (m : TaskManager)
      → m.available ≡ n
      → contains_key task.id m.active ≡ false
      → IsSound c 0 m
      → IsSound c 0 (claim_permitted env task repository (take_permit n m) m).1
  unfolding claim_permitted take_permit
  claim_permitted-IsSound env task repository zero m e absent p = p
  claim_permitted-IsSound env task repository (suc n) m e absent p =
      let held : TaskManager = record m { available = n } in
      claim_held-IsSound env task repository (observe env.permit_acquired held)
        (observe-absent task.id env.permit_acquired held absent)
        (observe-IsSound env.permit_acquired held (record {
          store = p.store;
          published = p.published;
          permits = omega (arith, p.permits, e);
          distinct = p.distinct;
          agrees = p.agrees;
        }))

  pub claim_one-IsSound :
      (env : ClaimEnv) (repositories : List Repository) (task : Task) (m : TaskManager)
      → IsSound c 0 m
      → IsSound c 0 (claim_one env repositories task m).1
  unfolding claim_one try_acquire
  claim_one-IsSound env repositories task m p = elim (Bool-cases (contains_key task.id m.active)) [
    | inl there ↦ rw there p
    | inr absent ↦ rw absent (claim_permitted-IsSound env task _ m.available m refl absent p)
  ]

  claim_each-IsSound :
      (envs : ℕ → ClaimEnv) (n : ℕ) (repositories : List Repository) (tasks : List Task)
      (m : TaskManager)
      → IsSound c 0 m
      → IsSound c 0 (claim_each envs n repositories tasks m)
  unfolding claim_each
  claim_each-IsSound envs n repositories [] m p = p
  claim_each-IsSound envs n repositories (task ∷ tasks) m p =
      let round = claim_one (envs n) repositories task m in
      let one = claim_one-IsSound (envs n) repositories task m p in
      elim (Bool-cases round.0) [
        | inl more ↦ rw more (claim_each-IsSound envs (suc n) repositories tasks round.1 one)
        | inr done ↦ rw done one
      ]

  claim_snapshot-IsSound :
      (envs : ℕ → ClaimEnv) (snapshot : Result StoreError BootstrapSnapshot) (m : TaskManager)
      → IsSound c 0 m
      → IsSound c 0 (claim_snapshot envs snapshot m).1
  unfolding claim_snapshot
  claim_snapshot-IsSound envs (err e) m p = p
  claim_snapshot-IsSound envs (ok snapshot) m p =
      claim_each-IsSound envs 0 snapshot.repositories _ m p

  pub claim_queued-IsSound :
      (env : ScanEnv) (m : TaskManager) → IsSound c 0 m → IsSound c 0 (claim_queued env m).1
  unfolding claim_queued
  claim_queued-IsSound env m p = claim_snapshot-IsSound env.claims _ m p
