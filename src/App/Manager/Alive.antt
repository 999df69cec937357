-- ===== src/App/Manager/Alive.antt =====
-- The actor of crates/coding-agent-app/src/task_manager.rs after a statement that may panic.
use ngy_coding_agent.Base.{◌+◌, ◌<◌, ◌≡◌, false, arith, if_both, refl}
use ngy_coding_agent.App.Service.{ServiceState, ServiceStateController, set, u64_limit}
use ngy_coding_agent.App.Manager.{TaskManager, set_service, unless_panicked, panics}

pub unless_both :
    (P : TaskManager → Type 0) (rest : TaskManager → TaskManager) (m : TaskManager)
    → P m
    → P (rest m)
    → P (unless_panicked rest m)
unfolding unless_panicked
unless_both P rest m p q = if_both P m.panicked p q

pub unless_alive :
    (rest : TaskManager → TaskManager) (m : TaskManager)
    → m.panicked ≡ false
    → unless_panicked rest m ≡ rest m
unfolding unless_panicked
unless_alive rest m h = rw h refl

-- With a generation left, setting the state of the service does not panic.
pub set_alive :
    (s : ServiceState) (c : ServiceStateController)
    → c.current.generation + 1 < u64_limit
    → panics (set s c).0 ≡ false
unfolding set panics
set_alive s c room = ground (arith, room)

pub set_service_alive :
    (s : ServiceState) (m : TaskManager)
    → m.panicked ≡ false
    → m.service.current.generation + 1 < u64_limit
    → (set_service s m).panicked ≡ false
unfolding set_service
set_service_alive s m alive room = rw (alive, set_alive s m.service room) refl
