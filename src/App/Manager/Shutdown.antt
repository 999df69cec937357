-- ===== src/App/Manager/Shutdown.antt =====
-- How the actor of crates/coding-agent-app/src/task_manager.rs stops for a shutdown.
use ngy_coding_agent.Base.{
  ℕ, ◌≡◌, refl, ap, ◌∙◌, inl, inr, true, false, All, arith, Result, ok, err, if_false, sort_by,
  String, List, [], ◌∷◌, ◌+◌, ◌<◌,
}
use ngy_coding_agent.Store.Invariant.{IsWellFormed}
use ngy_coding_agent.Store.Tasks.Recovery.{RecoveryOutcome, is_incomplete}
use ngy_coding_agent.App.Writer.Handle
use ngy_coding_agent.App.Writer.Answers
use ngy_coding_agent.App.Writer.Handle.{Call}
use ngy_coding_agent.App.Service.{ServiceState, ServiceStateController, set, set-cases, u64_limit}
use ngy_coding_agent.App.Manager.Alive.{set_alive, set_service_alive}
use ngy_coding_agent.App.Manager.{
  ActiveRunner, TaskManagerError, TaskManager, is_frozen, set_service, panics,
}
use ngy_coding_agent.App.Manager.Requests.{
  quiesce, quiesce_at, quiesce_unless_panicked, take_receivers, quiesced, Quiesced,
  take_shutdown_handles, handles, by_task_id, shutdown_failure,
}

-- What is answered. When the clock is refused nothing has been recovered, and the handles stay;
-- else they are taken, by rising task, and when the recovery has succeeded, no task is queued or
-- running.
abbrev pub IsAnswer : Call → Result String ℕ → TaskManager → Quiesced → Type 0
IsAnswer call (err message) m r =
    (r.0 ≡ err (TaskManagerError.invariant message)) × (r.1.db ≡ m.db) × (r.1.active ≡ m.active)
IsAnswer call (ok now) m r =
    let recovery = (Handle.recover_incomplete call now shutdown_failure m.db).0 in
    (r.0 ≡ ok (quiesced recovery (handles (sort_by by_task_id m.active))))
    × (handles r.1.active ≡ [])
    × ((o : RecoveryOutcome)
        → recovery ≡ ok o
        → All (λ t. is_incomplete t.status ≡ false) r.1.db.tasks)

-- The actor lives, it is frozen, its service is quiescing, and it has answered.
pub record HasQuiesced (call : Call) (now : Result String ℕ) (m : TaskManager) (r : Quiesced)
    : Type 0 where
  pub alive : r.1.panicked ≡ false
  pub frozen : is_frozen r.1 ≡ true
  pub service : r.1.service.current.state ≡ ServiceState.quiescing
  pub answer : IsAnswer call now m r

quiescing_set :
    (service : ServiceStateController)
    → panics (set ServiceState.quiescing service).0 ≡ false
    → (set ServiceState.quiescing service).1.current.state ≡ ServiceState.quiescing
unfolding panics
quiescing_set service h = elim (set-cases ServiceState.quiescing service) [
  | inl (r, e, current, state) ↦ ap (λ x. x.state) current ∙ state
  | inr (inl (e, closed, same)) ↦ ap (λ x. x.current.state) same ∙ closed
  | inr (inr (over, same)) ↦ ground arith
]

no_handles : (l : List ActiveRunner) → handles (take_receivers l) ≡ []
unfolding handles take_receivers
no_handles [] = refl
no_handles (r ∷ rs) = no_handles rs

answered :
    (m closing : TaskManager) (call : Call) (now : Result String ℕ)
    → IsWellFormed m.db
    → closing.db ≡ m.db
    → closing.active ≡ m.active
    → IsAnswer call now m (quiesce_at call now closing)
unfolding quiesce_at take_shutdown_handles
answered m closing call (err message) w d a = (refl, d, a)
answered m closing call (ok now) w d a =
    rw (d, a)
      (
        refl,
        no_handles m.active,
        λ o h. Answers.recover_incomplete-finishes call now shutdown_failure m.db o w h,
      )

-- What `quiesce_at` leaves alone.
kept :
    (call : Call) (now : Result String ℕ) (m : TaskManager)
    → let after = (quiesce_at call now m).1 in
      (after.panicked ≡ m.panicked) × (after.frozen ≡ m.frozen) × (after.service ≡ m.service)
unfolding quiesce_at take_shutdown_handles
kept call (err message) m = (refl, refl, refl)
kept call (ok now) m = (refl, refl, refl)

-- On a well-formed store, a task manager that is not frozen and has not panicked, with a service
-- that has a generation left, is frozen after a shutdown, lives, and has a quiescing service. When
-- the clock answers, it answers with the result of the recovery and the handles of its runners by
-- rising task, which it has handed over, and when the recovery has succeeded no task in the store
-- is queued or running. When the clock is refused, it answers with that as an invariant, and
-- changes neither the store nor its entries.
pub quiesce-HasQuiesced :
    (m : TaskManager) (call : Call) (now : Result String ℕ)
    → IsWellFormed m.db
    → is_frozen m ≡ false
    → m.panicked ≡ false
    → m.service.current.generation + 1 < u64_limit
    → HasQuiesced call now m (quiesce call now m)
unfolding quiesce quiesce_unless_panicked set_service is_frozen
quiesce-HasQuiesced m call now w unfrozen alive room =
    let closing : TaskManager =
      set_service ServiceState.quiescing
        (record m { shutdown_frozen = true; frozen = true; scan_requested = false }) in
    let set =
      set_service_alive ServiceState.quiescing
        (record m { shutdown_frozen = true; frozen = true; scan_requested = false }) alive room in
    let (p, f, s) = kept call now closing in
    if_false (HasQuiesced call now m) (is_frozen m) _ unfrozen (
      if_false (HasQuiesced call now m) closing.panicked _ set record {
        alive = p ∙ set;
        frozen = ground (arith, f);
        service =
            ap (λ x. x.current.state) s
            ∙ quiescing_set m.service (set_alive ServiceState.quiescing m.service room);
        answer = answered m closing call now w refl refl;
      })
