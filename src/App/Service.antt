-- ===== src/App/Service.antt =====
-- crates/coding-agent-app/src/service_state.rs. A generation is a `u64`: the panic of its overflow
-- is the result `overflow`. The values that subscribers see are the list `sent`, newest first.
use ngy_coding_agent.Base.{
  ℕ, suc, ◌+◌, ◌^◌, ◌<◌, ◌≡◌, ◌≢◌, refl, List, [], ◌∷◌, Bool, true, false, ltb, if◌then◌else◌,
  arith, Bool-cases, inl, inr, subst, sym, ltb→lt, ◌⊎◌,
}

pub data ServiceState : Type 0 where
  ready store_degraded quiescing : ServiceState

pub record ServiceStateSnapshot : Type 0 where
  pub state : ServiceState
  pub generation : ℕ

-- `ServiceStateController`
pub record ServiceStateController : Type 0 where
  pub current : ServiceStateSnapshot
  pub sent : List ServiceStateSnapshot

-- What `set` answers: a snapshot, `InvalidServiceTransition`, or the panic.
pub data SetResult : Type 0 where
  set_to : ServiceStateSnapshot → SetResult
  invalid : ServiceState → ServiceState → SetResult
  overflow : SetResult

unfoldable pub new : ServiceState → ServiceStateController
new initial = record {
  current = record { state = initial; generation = 0 };
  sent = record { state = initial; generation = 0 } ∷ [];
}

unfoldable pub same_state : ServiceState → ServiceState → Bool
same_state ready ready = true
same_state store_degraded store_degraded = true
same_state quiescing quiescing = true
same_state _ _ = false

abbrev pub u64_limit : ℕ
u64_limit = 2 ^ 64

abbrev pub is_quiescing : ServiceState → Bool
is_quiescing quiescing = true
is_quiescing _ = false

abbrev pub advance : ServiceState → ServiceStateController → SetResult × ServiceStateController
advance next c =
    let snapshot : ServiceStateSnapshot = record {
      state = next;
      generation = c.current.generation + 1;
    } in
    if ltb (c.current.generation + 1) u64_limit
    then (set_to snapshot, record { current = snapshot; sent = snapshot ∷ c.sent })
    else (overflow, c)

unfoldable pub set : ServiceState → ServiceStateController → SetResult × ServiceStateController
unfolding same_state
set next c =
    if same_state c.current.state next
    then (set_to c.current, c)
    else if is_quiescing c.current.state
    then (invalid c.current.state next, c)
    else advance next c

unfoldable pub set_each : List ServiceState → ServiceStateController → ServiceStateController
unfolding set
set_each [] c = c
set_each (s ∷ ss) c = set_each ss (set s c).1

set-quiescing :
    (s : ServiceState) (c : ServiceStateController) → c.current.state ≡ quiescing → (set s c).1 ≡ c
unfolding set same_state
set-quiescing s c h = ground arith

-- Once the service is quiescing, no sequence of calls changes its state, its generation or what
-- has been sent.
pub quiescing_absorbs :
    (states : List ServiceState) (c : ServiceStateController)
    → c.current.state ≡ quiescing
    → set_each states c ≡ c
unfolding set_each
quiescing_absorbs [] c h = refl
quiescing_absorbs (s ∷ ss) c h = rw (set-quiescing s c h) (quiescing_absorbs ss c h)

-- How a call ends: the state is set, or the service is quiescing, or the generations are used up.
abbrev pub SetCases : ServiceState → ServiceStateController → Type 0
SetCases s c =
    ((r : ServiceStateSnapshot) × ((set s c).0 ≡ set_to r)
      × ((set s c).1.current ≡ r)
      × (r.state ≡ s))
    ⊎ (((set s c).0 ≡ invalid quiescing s) × (c.current.state ≡ quiescing) × ((set s c).1 ≡ c))
    ⊎ (((set s c).0 ≡ overflow) × ((set s c).1 ≡ c))

same_state→eq : (s t : ServiceState) → same_state s t ≡ true → s ≡ t
unfolding same_state
same_state→eq s t h = ground arith

quiescing_state : (s : ServiceState) → is_quiescing s ≡ true → s ≡ quiescing
quiescing_state s h = ground arith

pub set-cases : (s : ServiceState) (c : ServiceStateController) → SetCases s c
unfolding set
set-cases s c = elim (Bool-cases (same_state c.current.state s)) [
  | inl same ↦ rw same (inl (c.current, refl, refl, same_state→eq _ _ same))
  | inr other ↦ rw other (elim (Bool-cases (is_quiescing c.current.state)) [
    | inl closed ↦ let e = quiescing_state _ closed in rw closed (inr (inl (rw e refl, e, refl)))
    | inr alive ↦ rw alive (elim (Bool-cases (ltb (c.current.generation + 1) u64_limit)) [
      | inl room ↦ rw room (inl (_, refl, refl, refl))
      | inr full ↦ rw full (inr (inr (refl, refl)))
    ])
  ])
]

-- The values that are sent count up from 0, and the newest is the current one.
abbrev pub Consecutive : List ServiceStateSnapshot → Type 0
Consecutive [] = Unit {0}
Consecutive (s ∷ []) = s.generation ≡ 0
Consecutive (s ∷ r ∷ rs) =
    (s.generation ≡ suc r.generation)
    × (s.state ≢ r.state)
    × (r.state ≢ quiescing)
    × Consecutive (r ∷ rs)

pub record IsPublished (c : ServiceStateController) : Type 0 where
  pub newest : (rest : List ServiceStateSnapshot) × (c.sent ≡ c.current ∷ rest)
  pub consecutive : Consecutive c.sent
  pub bounded : c.current.generation < u64_limit

pub new-IsPublished : (s : ServiceState) → IsPublished (new s)
unfolding new
new-IsPublished s = record { newest = ([], refl); consecutive = refl; bounded = omega arith }

distinct_state : (s t : ServiceState) → same_state t s ≡ false → s ≢ t
unfolding same_state
distinct_state s t h e = ground arith

alive_state : (t : ServiceState) → is_quiescing t ≡ false → t ≢ quiescing
alive_state t h e = ground arith

Consecutive-∷ :
    (s : ServiceState) (c : ServiceStateController)
    → same_state c.current.state s ≡ false
    → is_quiescing c.current.state ≡ false
    → (rest : List ServiceStateSnapshot) → c.sent ≡ c.current ∷ rest
    → Consecutive c.sent
    → Consecutive (record { state = s; generation = c.current.generation + 1 } ∷ c.sent)
Consecutive-∷ s c other alive rest e p =
    subst
      (λ l.
        Consecutive l
        → Consecutive (record { state = s; generation = c.current.generation + 1 } ∷ l))
      (sym e)
      (λ q.
        (omega arith, distinct_state s c.current.state other, alive_state c.current.state alive, q))
      p

pub set-IsPublished :
    (s : ServiceState) (c : ServiceStateController) → IsPublished c → IsPublished (set s c).1
unfolding set
set-IsPublished s c p = elim (Bool-cases (same_state c.current.state s)) [
  | inl same ↦ rw same p
  | inr other ↦ rw other (elim (Bool-cases (is_quiescing c.current.state)) [
    | inl closed ↦ rw closed p
    | inr alive ↦ rw alive (elim (Bool-cases (ltb (c.current.generation + 1) u64_limit)) [
      | inl room ↦ rw room (
          let (rest, e) = p.newest in
          record {
            newest = (c.sent, refl);
            consecutive = Consecutive-∷ s c other alive rest e p.consecutive;
            bounded = ltb→lt (c.current.generation + 1) u64_limit room;
          })
      | inr full ↦ rw full p
    ])
  ])
]

-- From a state in which it holds, whatever is set, the snapshots that were sent count up from
-- generation 0 without a gap and below 2 ^ 64, neighbours have different states, none follows
-- quiescing, and the newest is the current one.
pub set_each-IsPublished :
    (states : List ServiceState) (c : ServiceStateController)
    → IsPublished c
    → IsPublished (set_each states c)
unfolding set_each
set_each-IsPublished [] c p = p
set_each-IsPublished (s ∷ ss) c p = set_each-IsPublished ss _ (set-IsPublished s c p)
