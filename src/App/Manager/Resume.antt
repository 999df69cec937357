-- ===== src/App/Manager/Resume.antt =====
-- How a degraded actor of crates/coding-agent-app/src/task_manager.rs comes back.
use ngy_coding_agent.App.Manager.Sound.{Agrees}
use ngy_coding_agent.App.Service.{ServiceStateController, ServiceStateSnapshot}
use ngy_coding_agent.Base.{
  ℕ, ◌+◌, ◌<◌, ◌≡◌, ◌≢◌, refl, subst, true, false, [], ◌∷◌, length, arith, ok,
}
use ngy_coding_agent.Store.Tasks.Recovery.{RecoveryOutcome}
use ngy_coding_agent.App.Service.{ServiceState, set, set_to, same_state, is_quiescing, u64_limit}
use ngy_coding_agent.App.Manager.{TaskManager, is_frozen, is_ready, claims_allowed, set_service}
use ngy_coding_agent.App.Manager.Requests.{finalize_degraded, finalize_set}
use ngy_coding_agent.App.Manager.Sound.{IsSound}

-- The service takes the state ready with the next generation.
abbrev readied : ServiceStateController → ServiceStateSnapshot
readied service = record { state = ServiceState.ready; generation = service.current.generation + 1 }

set_ready :
    (service : ServiceStateController)
    → service.current.state ≢ ServiceState.ready
    → service.current.state ≢ ServiceState.quiescing
    → service.current.generation + 1 < u64_limit
    → set ServiceState.ready service ≡ (
      set_to (readied service),
      record { current = readied service; sent = readied service ∷ service.sent },
    )
unfolding set same_state
set_ready service p q room = ground arith

finalize_reaches :
    (m : TaskManager) (recovery : RecoveryOutcome)
    → m.degraded ≡ true
    → is_frozen m ≡ false
    → is_quiescing m.service.current.state ≡ false
    → finalize_degraded false recovery m
      ≡ finalize_set recovery (set ServiceState.ready m.service).0 m (
          set_service ServiceState.ready
            (record m { pending = []; degraded = false; scan_requested = true }))
unfolding finalize_degraded
finalize_reaches m recovery bad unfrozen open' = ground arith

allowed :
    (m : TaskManager)
    → m.degraded ≡ false
    → is_frozen m ≡ false
    → m.service.current.state ≡ ServiceState.ready
    → claims_allowed m ≡ true
unfolding claims_allowed is_ready same_state
allowed m healthy unfrozen ready = rw (healthy, unfrozen, ready) refl

not_quiescing : (s : ServiceState) → s ≢ ServiceState.quiescing → is_quiescing s ≡ false
not_quiescing s h = ground arith

-- When a recovery ends, a sound manager that is degraded, has not panicked and is not frozen, with
-- a service that is not quiescing and has a generation left, takes the service to ready with the
-- next generation, discards what is pending and says how much it was, may claim again, and asks
-- for a scan.
pub finalize_degraded-resumes :
    (c : ℕ) (m : TaskManager) (recovery : RecoveryOutcome)
    → IsSound c 0 m
    → m.panicked ≡ false
    → m.degraded ≡ true
    → is_frozen m ≡ false
    → m.service.current.state ≢ ServiceState.quiescing
    → m.service.current.generation + 1 < u64_limit
    → (m' : TaskManager) × (finalize_degraded false recovery m ≡ (
      ok (record {
        recovery = recovery;
        discarded_pending_count = length m.pending;
        ready_generation = m.service.current.generation + 1;
      }),
      m',
    ))
      × (claims_allowed m' ≡ true)
      × (m'.scan_requested ≡ true)
      × (m'.pending ≡ [])
unfolding finalize_set set_service is_frozen
finalize_degraded-resumes c m recovery p alive bad unfrozen open' room =
    let away = subst (λ d. Agrees d m.service.current.state) bad (p.agrees alive) in
    let reaches = finalize_reaches m recovery bad unfrozen (not_quiescing _ open') in
    rw (reaches, set_ready m.service away open' room)
      (_, refl, allowed _ refl unfrozen refl, refl, refl)
