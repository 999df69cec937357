-- ===== src/App/Manager/Sound/Requests.antt =====
-- What the messages of crates/coding-agent-app/src/task_manager.rs keep.
use ngy_coding_agent.Base.{
  ◌∙◌, if◌then◌else◌, ℕ, ◌≡◌, refl, true, false, not, ◌||◌, String, List, [], ◌∷◌, Result, ok, err,
  inl, inr, ap, if_both,
}
use ngy_coding_agent.Domain.Task.{running}
use ngy_coding_agent.Store.Tasks.{TransitionOutcome, AppendEventOutcome, appended, not_running}
use ngy_coding_agent.App.Writer.{StoreWriterError}
use ngy_coding_agent.App.Writer.Handle
use ngy_coding_agent.App.Writer.Handle.{Call}
use ngy_coding_agent.App.Writer.Answers.{submit-IsWellFormed}
use ngy_coding_agent.App.Service.{set-cases, ServiceStateController, ServiceState, is_quiescing}
use ngy_coding_agent.App.Manager.{
  TaskManager, ActiveRunner, RunnerEvent, RunnerOutcome, PendingDurableResult, into_payload,
  is_frozen, is_ready, contains_key, remove_active, claims_allowed, set_service, RecoveryOutcome,
  ServiceStateController, set, SetResult, Bool,
}
use ngy_coding_agent.App.Manager.Requests.{
  append_settled, degraded_answer, quiesce_unless_panicked, append_active, append_runner_event,
  outcome_transition, finish_settled, request_scan, finish_active, finish_runner, take_receivers,
  take_shutdown_handles, quiesce_at, quiesce, shutdown_failure, notify_queued, finalize_degraded,
  finalize_set,
}
use ngy_coding_agent.App.Manager.Alive.{unless_both}
use ngy_coding_agent.App.Manager.{quiesce_service}
use ngy_coding_agent.App.Manager.Sound.{
  Kept, quiesce_service-IsSound, IsSound, keys, remove_active-IsSound, store-IsSound,
  set_service-IsSound, enter_degraded-IsSound, quiescing-Agrees, arith, Agrees, set-cases, subst,
  sym,
}

take_receivers-keys : (l : List ActiveRunner) → keys (take_receivers l) ≡ keys l
unfolding take_receivers
take_receivers-keys [] = refl
take_receivers-keys (r ∷ rs) = ap (λ l. r.task_id ∷ l) (take_receivers-keys rs)

refused_state :
    (s : ServiceState) (service : ServiceStateController) {from to : ServiceState}
    → (set s service).0 ≡ SetResult.invalid from to
    → Agrees true (set s service).1.current.state
refused_state s service e = elim (set-cases s service) [
  | inl (r, f, current, state) ↦ ground arith
  | inr (inl (f, closed, same)) ↦
      subst (Agrees true) (sym (ap (λ x. x.current.state) same ∙ closed)) (quiescing-Agrees true)
  | inr (inr (over, same)) ↦ ground arith
]

module _ {c : ℕ} where
  append_settled-IsSound :
      (pending : PendingDurableResult) (answer : Result StoreWriterError AppendEventOutcome)
      (m : TaskManager)
      → IsSound c 0 m
      → IsSound c 0 (append_settled pending answer m).1
  unfolding append_settled degraded_answer
  append_settled-IsSound pending (ok (appended event)) m p = p
  append_settled-IsSound pending (ok (not_running current)) m p = p
  append_settled-IsSound pending (err e) m p = enter_degraded-IsSound pending m p

  append_active-IsSound :
      (call : Call) (id : ℕ) (event : RunnerEvent) (m : TaskManager)
      → IsSound c 0 m
      → IsSound c 0 (append_active call id event m).1
  unfolding append_active Handle.append_running_event
  append_active-IsSound call id event m p =
      let result = Handle.append_running_event call id (into_payload event) m.db in
      append_settled-IsSound (PendingDurableResult.runner_event id event) result.0
        (record m { db = result.1 })
        (store-IsSound result.1 m (submit-IsWellFormed call _ m.db p.store) p)

  pub append_runner_event-IsSound :
      (call : Call) (id : ℕ) (event : RunnerEvent) (m : TaskManager)
      → IsSound c 0 m
      → IsSound c 0 (append_runner_event call id event m).1
  unfolding append_runner_event
  append_runner_event-IsSound call id event m p = if_both (Kept c) (is_frozen m) p (
      if_both (Kept c) m.degraded p (
        if_both (Kept c) (not (is_ready m)) p (
          if_both (Kept c) (not (contains_key id m.active)) p
            (append_active-IsSound call id event m p))))

  finish_settled-IsSound :
      (pending : PendingDurableResult) (answer : Result StoreWriterError TransitionOutcome)
      (m : TaskManager)
      → IsSound c 0 m
      → IsSound c 0 (finish_settled pending answer m)
  unfolding finish_settled
  finish_settled-IsSound pending (ok outcome) m p = p
  finish_settled-IsSound pending (err e) m p = enter_degraded-IsSound pending m p

  pub request_scan-IsSound : (m : TaskManager) → IsSound c 0 m → IsSound c 0 (request_scan m)
  unfolding request_scan
  request_scan-IsSound m p = if_both (IsSound c 0) (claims_allowed m) p p

  finish_active-IsSound :
      (call : Call) (id : ℕ) (outcome : RunnerOutcome) (m : TaskManager)
      → IsSound c 0 m
      → IsSound c 0 (finish_active call id outcome m)
  unfolding finish_active Handle.transition_with_event
  finish_active-IsSound call id outcome m p =
      let result = Handle.transition_with_event call id running (outcome_transition outcome) m.db in
      let written : TaskManager = record m { db = result.1 } in
      let settled =
        finish_settled (PendingDurableResult.runner_terminal id outcome) result.0 written in
      let kept =
        finish_settled-IsSound (PendingDurableResult.runner_terminal id outcome) result.0 written
          (store-IsSound result.1 m (submit-IsWellFormed call _ m.db p.store) p) in
      unless_both (IsSound c 0) (λ m'. request_scan (remove_active id m')) settled kept
        (request_scan-IsSound (remove_active id settled) (remove_active-IsSound id settled kept))

  pub finish_runner-IsSound :
      (call : Call) (id : ℕ) (outcome : RunnerOutcome) (m : TaskManager)
      → IsSound c 0 m
      → IsSound c 0 (finish_runner call id outcome m)
  unfolding finish_runner
  finish_runner-IsSound call id outcome m p =
      if_both (IsSound c 0) (not (contains_key id m.active)) p (
        if_both (IsSound c 0) (is_frozen m) (remove_active-IsSound id m p) (
          if_both (IsSound c 0) m.degraded
            (remove_active-IsSound id
              (record m { pending = PendingDurableResult.runner_terminal id outcome ∷ m.pending })
              p)
            (finish_active-IsSound call id outcome m p)))

  quiescing-IsSound :
      (m : TaskManager) → IsSound c 0 m → IsSound c 0 (set_service ServiceState.quiescing m)
  quiescing-IsSound m p =
      set_service-IsSound ServiceState.quiescing m.degraded m (quiescing-Agrees m.degraded) p

  finalize_set-IsSound :
      (recovery : RecoveryOutcome) (answer : SetResult) (before m : TaskManager)
      → ((from to : ServiceState)
          → answer ≡ SetResult.invalid from to
          → Agrees true m.service.current.state)
      → IsSound c 0 m
      → IsSound c 0 (finalize_set recovery answer before m).1
  unfolding finalize_set
  finalize_set-IsSound recovery (SetResult.set_to snapshot) before m closed p = p
  finalize_set-IsSound recovery SetResult.overflow before m closed p = p
  finalize_set-IsSound recovery (SetResult.invalid from to) before m closed p = record {
    store = p.store;
    published = p.published;
    permits = p.permits;
    distinct = p.distinct;
    agrees = λ h. closed from to refl;
  }

  finalize_ready-IsSound :
      (recovery : RecoveryOutcome) (before m : TaskManager)
      → IsSound c 0 m
      → IsSound c 0
          (finalize_set recovery
            (set ServiceState.ready m.service).0
            before
            (set_service ServiceState.ready (record m { degraded = false }))).1
  unfolding set_service
  finalize_ready-IsSound recovery before m p =
      finalize_set-IsSound recovery _ before
        (set_service ServiceState.ready (record m { degraded = false }))
        (λ from to e. refused_state ServiceState.ready m.service e)
        (set_service-IsSound ServiceState.ready false m (λ e. ground arith) p)

  pub finalize_degraded-IsSound :
      (quiesces : Bool) (recovery : RecoveryOutcome) (m : TaskManager)
      → IsSound c 0 m
      → IsSound c 0 (finalize_degraded quiesces recovery m).1
  unfolding finalize_degraded
  finalize_degraded-IsSound quiesces recovery m p =
      let before = if quiesces then quiesce_service m else m in
      if_both (Kept c) (is_frozen m || is_quiescing m.service.current.state) p (
        if_both (Kept c) (not m.degraded) p (
          finalize_ready-IsSound recovery before
            (record before { pending = []; scan_requested = true })
            (if_both (IsSound c 0) quiesces (quiesce_service-IsSound m p) p)))

  quiesce_at-IsSound :
      (call : Call) (now : Result String ℕ) (m : TaskManager)
      → IsSound c 0 m
      → IsSound c 0 (quiesce_at call now m).1
  unfolding quiesce_at take_shutdown_handles Handle.recover_incomplete
  quiesce_at-IsSound call (err message) m p = p
  quiesce_at-IsSound call (ok now) m p =
      let recovery = Handle.recover_incomplete call now shutdown_failure m.db in
      rw (take_receivers-keys m.active)
        (store-IsSound recovery.1 m (submit-IsWellFormed call _ m.db p.store) p)

  pub quiesce-IsSound :
      (call : Call) (now : Result String ℕ) (m : TaskManager)
      → IsSound c 0 m
      → IsSound c 0 (quiesce call now m).1
  unfolding quiesce quiesce_unless_panicked
  quiesce-IsSound call now m p =
      let closing : TaskManager = record m {
        shutdown_frozen = true;
        frozen = true;
        scan_requested = false;
      } in
      if_both (Kept c) (is_frozen m) p (
        let q = quiescing-IsSound closing p in
        if_both (Kept c) (set_service ServiceState.quiescing closing).panicked q
          (quiesce_at-IsSound call now (set_service ServiceState.quiescing closing) q))

  pub notify_queued-IsSound : (m : TaskManager) → IsSound c 0 m → IsSound c 0 (notify_queued m).1
  unfolding notify_queued
  notify_queued-IsSound m p =
      if_both (Kept c) (is_frozen m) p (if_both (Kept c) (m.degraded || not (is_ready m)) p p)
