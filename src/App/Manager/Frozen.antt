-- ===== src/App/Manager/Frozen.antt =====
-- The actor of crates/coding-agent-app/src/task_manager.rs once it is frozen.
use ngy_coding_agent.App.Service.{is_quiescing}
use ngy_coding_agent.Base.{
  ◌||◌, if_true, if_false, ℕ, ◌≤◌, ◌≡◌, refl, ap, ◌∙◌, ◌⊎◌, inl, inr, true, false, List, [], ◌∷◌,
  length, arith, Bool-cases,
}
use ngy_coding_agent.Store.Schema.{Db}
use ngy_coding_agent.App.Writer.{run_writer}
use ngy_coding_agent.App.Writer.Handle.{Call}
use ngy_coding_agent.App.Manager.{
  TaskManager, ActiveRunner, RunnerOutcome, is_frozen, claims_allowed, freeze_and_cancel,
  quiesce_service, remove_active, remove_key, contains_key, Bool, not,
}
use ngy_coding_agent.App.Manager.Alive.{unless_both}
use ngy_coding_agent.App.Manager.Claim.{ScanEnv}
use ngy_coding_agent.App.Manager.Requests
use ngy_coding_agent.App.Manager.Cancel
use ngy_coding_agent.App.Manager.Cancel.{CancelEnv}
use ngy_coding_agent.App.Manager.Actor.{
  TaskManagerMessage, Step, message, tick, commands, freeze, begin_quiescing, handle_message, scan,
  step, run,
}

-- What a handler does: nothing, or it drops the entry of a runner that has ended.
abbrev Dropped : TaskManager → TaskManager → Type 0
Dropped m m' = (m' ≡ m) ⊎ ((id : ℕ) × (m' ≡ remove_active id m))

-- The state after a handler that answers.
abbrev Answered {ℓ} : {A : Type ℓ} → TaskManager → A × TaskManager → Type 0
Answered m r = Dropped m r.1

module _ (m : TaskManager) (h : is_frozen m ≡ true) where
  finish_frozen :
      (call : Call) (id : ℕ) (outcome : RunnerOutcome)
      → Dropped m (Requests.finish_runner call id outcome m)
  unfolding Requests.finish_runner
  finish_frozen call id outcome = elim (Bool-cases (contains_key id m.active)) [
    | inl there ↦
        if_false (Dropped m) (not (contains_key id m.active)) _ (rw there refl)
          (if_true (Dropped m) (is_frozen m) _ h (inr (id, refl)))
    | inr absent ↦
        if_true (Dropped m) (not (contains_key id m.active)) _ (rw absent refl) (inl refl)
  ]

  handle_frozen : (msg : TaskManagerMessage) → Dropped m (handle_message msg m)
  unfolding handle_message Requests.notify_queued Cancel.cancel_task Requests.append_runner_event
      Requests.finalize_degraded Requests.quiesce
  handle_frozen (TaskManagerMessage.notify_queued id) =
      if_true (Answered m) (is_frozen m) _ h (inl refl)
  handle_frozen (TaskManagerMessage.cancel env id) =
      if_true (Answered m) (is_frozen m) _ h (inl refl)
  handle_frozen (TaskManagerMessage.runner_event call id event) =
      if_true (Answered m) (is_frozen m) _ h (inl refl)
  handle_frozen (TaskManagerMessage.runner_finished call id outcome) = finish_frozen call id outcome
  handle_frozen (TaskManagerMessage.finalize_degraded quiesces recovery) =
      if_true (Answered m) (is_frozen m || is_quiescing m.service.current.state) _ (rw h refl)
        (inl refl)
  handle_frozen (TaskManagerMessage.quiesce call now) =
      if_true (Answered m) (is_frozen m) _ h (inl refl)

  claims_frozen : claims_allowed m ≡ false
  unfolding claims_allowed
  claims_frozen = rw h (ground arith)

  scan_frozen : (env : ScanEnv) → scan env m ≡ m
  unfolding scan
  scan_frozen env = rw claims_frozen (ground arith)

  request_frozen : Requests.request_scan m ≡ m
  unfolding Requests.request_scan
  request_frozen = rw claims_frozen refl

-- What stays: the freeze, the runners and recoveries that were started, what is pending and
-- whether the actor has panicked. No entry is added.
pub record Stays (m m' : TaskManager) : Type 0 where
  pub frozen : is_frozen m' ≡ true
  pub runners : m'.runners ≡ m.runners
  pub coordinators : m'.coordinators ≡ m.coordinators
  pub pending : m'.pending ≡ m.pending
  pub recoveries : m'.recoveries ≡ m.recoveries
  pub panicked : m'.panicked ≡ m.panicked
  pub active : length m'.active ≤ length m.active

same-Stays :
    (m m' : TaskManager)
    → is_frozen m' ≡ true
    → m'.runners ≡ m.runners
    → m'.coordinators ≡ m.coordinators
    → m'.pending ≡ m.pending
    → m'.recoveries ≡ m.recoveries
    → m'.panicked ≡ m.panicked
    → m'.active ≡ m.active
    → Stays m m'
same-Stays m m' h r c p d q a = record {
  frozen = h;
  runners = r;
  coordinators = c;
  pending = p;
  recoveries = d;
  panicked = q;
  active = rw a (omega arith);
}

frozen_again : (b : Bool) → (b || true) ≡ true
frozen_again true = refl
frozen_again false = refl

Stays-refl : (m : TaskManager) → is_frozen m ≡ true → Stays m m
Stays-refl m h = record {
  frozen = h;
  runners = refl;
  coordinators = refl;
  pending = refl;
  recoveries = refl;
  panicked = refl;
  active = omega arith;
}

Stays-trans : (a b c : TaskManager) → Stays a b → Stays b c → Stays a c
Stays-trans a b c p q = record {
  frozen = q.frozen;
  runners = q.runners ∙ p.runners;
  coordinators = q.coordinators ∙ p.coordinators;
  pending = q.pending ∙ p.pending;
  recoveries = q.recoveries ∙ p.recoveries;
  panicked = q.panicked ∙ p.panicked;
  active = omega (arith, p.active, q.active);
}

remove_key_shorter : (id : ℕ) (l : List ActiveRunner) → length (remove_key id l) ≤ length l
unfolding remove_key
remove_key_shorter id [] = omega arith
remove_key_shorter id (r ∷ rs) = ground (arith, remove_key_shorter id rs)

remove_active-Stays :
    (id : ℕ) (m : TaskManager)
    → is_frozen m ≡ true
    → Stays m (remove_active id m) × ((remove_active id m).db ≡ m.db)
unfolding remove_active is_frozen
remove_active-Stays id m h = elim (Bool-cases (contains_key id m.active)) [
  | inl there ↦ rw there (
    record {
      frozen = h;
      runners = refl;
      coordinators = refl;
      pending = refl;
      recoveries = refl;
      panicked = refl;
      active = remove_key_shorter id m.active;
    },
    refl,
  )
  | inr absent ↦ rw absent (Stays-refl m h, refl)
]

Dropped-Stays :
    (m m' : TaskManager) → is_frozen m ≡ true → Dropped m m' → Stays m m' × (m'.db ≡ m.db)
Dropped-Stays m m' h (inl e) = rw e (Stays-refl m h, refl)
Dropped-Stays m m' h (inr (id, e)) = rw e (remove_active-Stays id m h)

-- The store after the commands that others send.
abbrev pub written : Step → Db → Db
written (commands cs) db = run_writer cs db
written _ db = db

step-Stays :
    (s : Step) (m : TaskManager)
    → is_frozen m ≡ true
    → Stays m (step s m) × ((step s m).db ≡ written s m.db)
unfolding step freeze_and_cancel quiesce_service is_frozen Requests.request_scan
step-Stays (message msg env) m h =
    let kept = Dropped-Stays m (handle_message msg m) h (handle_frozen m h msg) in
    unless_both (λ r. Stays m r × (r.db ≡ m.db)) (scan env) (handle_message msg m) kept
      (rw (scan_frozen (handle_message msg m) kept.0.frozen env) kept)
step-Stays (tick env) m h = rw (request_frozen m h, scan_frozen m h env) (Stays-refl m h, refl)
step-Stays (commands cs) m h = (same-Stays m _ h refl refl refl refl refl refl, refl)
step-Stays freeze m h = (same-Stays m _ (frozen_again m.frozen) refl refl refl refl refl refl, refl)
step-Stays begin_quiescing m h = (same-Stays m _ h refl refl refl refl refl refl, refl)

abbrev pub written_all : List Step → Db → Db
written_all [] db = db
written_all (s ∷ ss) db = written_all ss (written s db)

-- Once the task manager is frozen and has not panicked, no sequence of steps makes it start a
-- runner or a recovery, take or drop a pending result, or add an entry: it stays frozen, and the
-- store is changed only by the commands that others send to the writer.
pub run-Stays :
    (steps : List Step) (m : TaskManager)
    → is_frozen m ≡ true
    → m.panicked ≡ false
    → Stays m (run steps m) × ((run steps m).db ≡ written_all steps m.db)
unfolding run
run-Stays [] m h alive = (Stays-refl m h, refl)
run-Stays (s ∷ ss) m h alive =
    let (one, same) = step-Stays s m h in
    let (rest, end) = run-Stays ss (step s m) one.frozen (one.panicked ∙ alive) in
    if_false (λ r. Stays m r × (r.db ≡ written_all (s ∷ ss) m.db)) m.panicked _ alive
      (Stays-trans m (step s m) _ one rest, end ∙ ap (written_all ss) same)
