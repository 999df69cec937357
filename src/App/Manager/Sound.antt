-- ===== src/App/Manager/Sound.antt =====
-- What holds of the actor of crates/coding-agent-app/src/task_manager.rs between its steps.
pub mod Claims
pub mod Cancel
pub mod Requests
pub mod Runs
use ngy_coding_agent.Base.{
  ℕ, suc, ◌+◌, ◌≡◌, ◌≢◌, refl, sym, ap, subst, ◌∙◌, Bool, true, false, ◌||◌, List, [], ◌∷◌, map,
  length, All, arith, Bool-cases, inl, inr, ◌==◌, ltb, if◌then◌else◌,
}
use ngy_coding_agent.Store.Schema.{Db}
use ngy_coding_agent.Store.Invariant.{IsWellFormed}
use ngy_coding_agent.Store.Table.{Distinct}
use ngy_coding_agent.App.Service.{
  ServiceState, ServiceStateController, SetResult, set, ready, quiescing, IsPublished,
  set-IsPublished, set-cases, SetCases,
}
use ngy_coding_agent.App.Manager.Alive.{unless_both}
use ngy_coding_agent.App.Manager.{
  TaskManager, ActiveRunner, contains_key, remove_key, remove_active, cancel_key, cancel_all,
  set_service, panics, enter_degraded, start_recovery, PendingDurableResult, quiesce_service,
}

abbrev pub keys : List ActiveRunner → List ℕ
keys l = map (λ r. r.task_id) l

-- While the actor is degraded the service is not ready, and else it is not store-degraded.
abbrev pub Agrees : Bool → ServiceState → Type 0
Agrees true s = s ≢ ready
Agrees false s = s ≢ ServiceState.store_degraded

-- `held` permits are in hand.
pub record Parts (concurrency held : ℕ) (db : Db) (service : ServiceStateController) (available : ℕ)
    (active : List ℕ) (degraded panicked : Bool) : Type 0 where
  pub store : IsWellFormed db
  pub published : IsPublished service
  pub permits : held + available + length active ≡ concurrency
  pub distinct : Distinct active
  pub agrees : panicked ≡ false → Agrees degraded service.current.state

-- The store is well-formed, each permit is free, in hand or held by one entry, no task has two
-- entries, and the actor and the service agree.
abbrev pub IsSound : ℕ → ℕ → TaskManager → Type 0
IsSound c held m = Parts c held m.db m.service m.available (keys m.active) m.degraded m.panicked

-- The state after a handler, whatever it answers.
abbrev pub Kept {ℓ} : {A : Type ℓ} → ℕ → A × TaskManager → Type 0
Kept c r = IsSound c 0 r.1

pub cancel_all-keys : (l : List ActiveRunner) → keys (cancel_all l) ≡ keys l
unfolding cancel_all
cancel_all-keys [] = refl
cancel_all-keys (r ∷ rs) = ap (λ l. r.task_id ∷ l) (cancel_all-keys rs)

cancelled_id :
    (id : ℕ) (r : ActiveRunner)
    → (if r.task_id == id then record r { is_cancelled = true } else r).task_id ≡ r.task_id
cancelled_id id r = ground arith

pub cancel_key-keys : (id : ℕ) (l : List ActiveRunner) → keys (cancel_key id l) ≡ keys l
unfolding cancel_key
cancel_key-keys id [] = refl
cancel_key-keys id (r ∷ rs) =
    rw (cancelled_id id r) (ap (λ l. r.task_id ∷ l) (cancel_key-keys id rs))

pub remove_key-length :
    (id : ℕ) (l : List ActiveRunner)
    → contains_key id l ≡ true
    → suc (length (keys (remove_key id l))) ≡ length (keys l)
unfolding contains_key remove_key
remove_key-length id [] h = cc
remove_key-length id (r ∷ rs) h = ground (arith, remove_key-length id rs)

remove_key-All :
    (P : ℕ → Type 0) (id : ℕ) (l : List ActiveRunner)
    → All P (keys l)
    → All P (keys (remove_key id l))
unfolding remove_key
remove_key-All P id [] h = tt
remove_key-All P id (r ∷ rs) h = elim (Bool-cases (r.task_id == id)) [
  | inl e ↦ rw e h.1
  | inr e ↦ rw e (h.0, remove_key-All P id rs h.1)
]

pub remove_key-Distinct :
    (id : ℕ) (l : List ActiveRunner) → Distinct (keys l) → Distinct (keys (remove_key id l))
unfolding remove_key
remove_key-Distinct id [] h = tt
remove_key-Distinct id (r ∷ rs) h = elim (Bool-cases (r.task_id == id)) [
  | inl e ↦ rw e h.1
  | inr e ↦ rw e (remove_key-All _ id rs h.0, remove_key-Distinct id rs h.1)
]

pub absent-keys :
    (id : ℕ) (l : List ActiveRunner) → contains_key id l ≡ false → All (λ k. k ≢ id) (keys l)
unfolding contains_key
absent-keys id [] h = tt
absent-keys id (r ∷ rs) h = (ground arith, absent-keys id rs (ground arith))

module _ {c held : ℕ} where
  pub remove_active-IsSound :
      (id : ℕ) (m : TaskManager) → IsSound c held m → IsSound c held (remove_active id m)
  unfolding remove_active
  remove_active-IsSound id m p = elim (Bool-cases (contains_key id m.active)) [
    | inl there ↦ rw there record {
      store = p.store;
      published = p.published;
      permits = omega (arith, p.permits, remove_key-length id m.active there);
      distinct = remove_key-Distinct id m.active p.distinct;
      agrees = p.agrees;
    }
    | inr absent ↦ rw absent p
  ]

  pub store-IsSound :
      (db : Db) (m : TaskManager)
      → IsWellFormed db
      → IsSound c held m
      → IsSound c held (record m { db = db })
  store-IsSound db m w p = record {
    store = w;
    published = p.published;
    permits = p.permits;
    distinct = p.distinct;
    agrees = p.agrees;
  }

  pub keys-IsSound :
      (active : List ActiveRunner) (m : TaskManager)
      → keys active ≡ keys m.active
      → IsSound c held m
      → IsSound c held (record m { active = active })
  keys-IsSound active m e p = rw e p

quiescing-Agrees : (d : Bool) → Agrees d quiescing
quiescing-Agrees true = λ e. ground arith
quiescing-Agrees false = λ e. ground arith

panics_overflow : (r : SetResult) → r ≡ SetResult.overflow → panics r ≢ false
unfolding panics
panics_overflow r e h = ground arith

-- Setting the state of the service to one that goes with the flag `d`.
pub set_state-Agrees :
    (s : ServiceState) (d : Bool) (service : ServiceStateController)
    → Agrees d s
    → panics (set s service).0 ≡ false
    → Agrees d (set s service).1.current.state
unfolding panics
set_state-Agrees s d service a h = elim (set-cases s service) [
  | inl (r, e, current, state) ↦ subst (Agrees d) (sym (ap (λ x. x.state) current ∙ state)) a
  | inr (inl (e, closed, same)) ↦
      subst (Agrees d) (sym (ap (λ x. x.current.state) same ∙ closed)) (quiescing-Agrees d)
  | inr (inr (over, same)) ↦ absurd (panics_overflow _ over h)
]

quiesced-Agrees :
    (d : Bool) (service : ServiceStateController)
    → Agrees d service.current.state
    → Agrees d (set quiescing service).1.current.state
quiesced-Agrees d service a = elim (set-cases quiescing service) [
  | inl (r, e, current, state) ↦
      subst (Agrees d) (sym (ap (λ x. x.state) current ∙ state)) (quiescing-Agrees d)
  | inr (inl (e, closed, same)) ↦ subst (Agrees d) (sym (ap (λ x. x.current.state) same)) a
  | inr (inr (over, same)) ↦ subst (Agrees d) (sym (ap (λ x. x.current.state) same)) a
]

or_false : (a b : Bool) → (a || b) ≡ false → b ≡ false
or_false a b h = ground arith

enter_degraded_again :
    (pending : PendingDurableResult) (m : TaskManager)
    → m.degraded ≡ true
    → enter_degraded pending m ≡ record m { pending = pending ∷ m.pending }
unfolding enter_degraded
enter_degraded_again pending m h = ground arith

module _ {c held : ℕ} where
  pub set_service-IsSound :
      (s : ServiceState) (d : Bool) (m : TaskManager)
      → Agrees d s
      → IsSound c held m
      → IsSound c held (set_service s (record m { degraded = d }))
  unfolding set_service
  set_service-IsSound s d m a p = record {
    store = p.store;
    published = set-IsPublished s m.service p.published;
    permits = p.permits;
    distinct = p.distinct;
    agrees = λ h. set_state-Agrees s d m.service a (or_false m.panicked _ h);
  }

  pub quiesce_service-IsSound :
      (m : TaskManager) → IsSound c held m → IsSound c held (quiesce_service m)
  unfolding quiesce_service
  quiesce_service-IsSound m p = record {
    store = p.store;
    published = set-IsPublished ServiceState.quiescing m.service p.published;
    permits = p.permits;
    distinct = p.distinct;
    agrees = λ h. quiesced-Agrees m.degraded m.service (p.agrees h);
  }

  pub enter_degraded-IsSound :
      (pending : PendingDurableResult) (m : TaskManager)
      → IsSound c held m
      → IsSound c held (enter_degraded pending m)
  unfolding enter_degraded set_service start_recovery
  enter_degraded-IsSound pending m p = elim (Bool-cases m.degraded) [
    | inl already ↦ subst (IsSound c held) (sym (enter_degraded_again pending m already)) p
    | inr first ↦
        let q = set_service-IsSound ServiceState.store_degraded true m (λ e. ground arith) p in
        rw first (unless_both (IsSound c held) start_recovery _ q (rw (cancel_all-keys m.active) q))
  ]
