-- ===== src/ControlPlane.antt =====
-- core/action_queue.py, core/action_lifecycle_repository.py and core/approvals.py: the process-local
-- stores that the permission runtime, the approval entrypoints and the worker runtime share.
pub mod Queue
use velox_server.Prelude.{ℕ, Option, none, some, List, nat_eq, ◌==◌, ◌≡◌, refl, if◌then◌else◌}
use velox_server.Prelude.Dict
use velox_server.Prelude.Dict.{Dict}
use velox_server.Actions.{Uuid, Action}
use velox_server.Lifecycle.{ActionLifecycleState}

pub record ControlPlane : Type 0 where
  pub queue : List Action
  pub lifecycle : Dict Uuid ActionLifecycleState
  pub pending : Dict Uuid Action

-- InMemoryActionLifecycleRepository.get and .set
unfoldable pub get_state : ControlPlane → Uuid → Option ActionLifecycleState
get_state c i = Dict.get c.lifecycle i

unfoldable pub set_state : ControlPlane → Uuid → ActionLifecycleState → ControlPlane
set_state c i s = record c { lifecycle = Dict.put c.lifecycle i s }

-- InMemoryPendingApprovalRegistry.get, .add, .remove and .list_pending
unfoldable pub get_pending : ControlPlane → Uuid → Option Action
get_pending c i = Dict.get c.pending i

unfoldable pub add_pending : ControlPlane → Action → ControlPlane
add_pending c a = record c { pending = Dict.put c.pending a.id a }

unfoldable pub remove_pending : ControlPlane → Uuid → ControlPlane
remove_pending c i = record c { pending = Dict.remove c.pending i }

unfoldable pub list_pending : ControlPlane → List Action
list_pending c = Dict.values c.pending

-- ActionQueue.enqueue on the shared queue
unfoldable pub enqueue : ControlPlane → Action → ControlPlane
enqueue c a = record c { queue = Queue.enqueue c.queue a }

pub get_state-set_state :
    (c : ControlPlane) (i j : Uuid) (s : ActionLifecycleState)
    → get_state (set_state c i s) j ≡ (if i == j then some s else get_state c j)
unfolding get_state set_state
get_state-set_state c i j s = Dict.get-put c.lifecycle i j s

pub get_state-enqueue :
    (c : ControlPlane) (a : Action) (i : Uuid) → get_state (enqueue c a) i ≡ get_state c i
unfolding get_state enqueue
get_state-enqueue c a i = refl

pub get_pending-add_pending :
    (c : ControlPlane) (a : Action) (i : Uuid)
    → get_pending (add_pending c a) i ≡ (if a.id == i then some a else get_pending c i)
unfolding get_pending add_pending
get_pending-add_pending c a i = Dict.get-put c.pending a.id i a

pub get_pending-remove_pending :
    (c : ControlPlane) (i j : Uuid)
    → get_pending (remove_pending c i) j ≡ (if i == j then none else get_pending c j)
unfolding get_pending remove_pending
get_pending-remove_pending c i j = Dict.get-remove c.pending i j
