-- ===== src/Ipc.antt =====
-- kernel/ipc.c and ipc.h: endpoints, where a sender and a receiver meet.
-- A call that blocks leaves the CPU in its middle: `others` is what all other tasks and CPUs do from
-- its call of `schedule` until that call returns. `none` among tasks is the source's -1.
pub mod Meeting
pub mod Endpoints
mod Tests
use dragoon_kernel.Prelude.{
  ℕ, Bool, true, false, Option, none, some, update, leb, not, if◌then◌else◌, find_from, for_range,
}
use dragoon_kernel.Prelude.Int.{ℤ, pos, negsuc, minus_one}
use dragoon_kernel.Kernel.{Kernel, Task, TaskState, ready, blocked, IpcEndpoint, IpcMessage}
use dragoon_kernel.Task.{task_get, task_current_id, set_state}
use dragoon_kernel.Sched.{schedule}

abbrev pub max_endpoints : ℕ
max_endpoints = 32

pub ipc_init : Kernel → Kernel
ipc_init k = record k {
  endpoints =
      for_range max_endpoints 0
        (λ i e. update e i (record (e i) {
          active = false;
          sender_task = none;
          receiver_task = none;
          has_pending = false;
        }))
        k.endpoints;
}

pub ipc_endpoint_create : Kernel → ℤ × Kernel
ipc_endpoint_create k = elim (find_from max_endpoints 0 (λ i. not (k.endpoints i).active)) [
  | none ↦ (minus_one, k)
  | some i ↦ (
    pos i,
    record k {
      endpoints = update k.endpoints i (record (k.endpoints i) {
        active = true;
        sender_task = none;
        receiver_task = none;
        has_pending = false;
      });
    },
  )
]

pub ipc_endpoint_destroy : ℤ → Kernel → Kernel
ipc_endpoint_destroy (negsuc n) k = k
ipc_endpoint_destroy (pos ep_id) k = if leb max_endpoints ep_id then k else record k {
  endpoints = update k.endpoints ep_id (record (k.endpoints ep_id) { active = false });
}

-- The endpoint that `ep_id` names, if it is in range and active.
abbrev pub endpoint : ℤ → Kernel → Option ℕ
endpoint (negsuc n) k = none
endpoint (pos i) k =
    if leb max_endpoints i then none else if not (k.endpoints i).active then none else some i

-- The task that `id` names, if there is such a task.
abbrev pub task_at : (ℕ → Task) → Option ℕ → Option ℕ
task_at tasks none = none
task_at tasks (some id) = task_get tasks id

-- `t->state = state` if there is such a task.
abbrev pub state_to : TaskState → Option ℕ → (ℕ → Task) → ℕ → Task
state_to state id tasks = elim (task_at tasks id) [
  | none ↦ tasks
  | some t ↦ set_state t state tasks
]

-- The message is put at hand and the waiting receiver made ready.
abbrev pub deliver : ℕ → ℕ → IpcMessage → Kernel → Kernel
deliver ep recv msg k = record k {
  endpoints =
      update k.endpoints ep
        (record (k.endpoints ep) { pending_msg = msg; has_pending = true; receiver_task = none });
  tasks = set_state recv ready k.tasks;
}

-- What a sender without a receiver writes before it calls `schedule`.
abbrev pub offer : ℕ → ℕ → IpcMessage → Kernel → Kernel
offer cpu ep msg k =
    let cur = task_current_id cpu k in
    record k {
      endpoints =
          update k.endpoints ep
            (record (k.endpoints ep) { pending_msg = msg; has_pending = true; sender_task = cur });
      tasks = state_to blocked cur k.tasks;
    }

pub ipc_send : (Kernel → Kernel) → ℕ → ℤ → IpcMessage → Kernel → ℤ × Kernel
unfolding schedule
ipc_send others cpu ep_id msg k = elim (endpoint ep_id k) [
  | none ↦ (minus_one, k)
  | some ep ↦ elim (task_at k.tasks (k.endpoints ep).receiver_task) [
    | some recv ↦ (pos 0, deliver ep recv msg k)
    | none ↦ (pos 0, others (schedule cpu (offer cpu ep msg k)).0)
  ]
]

-- The pending message is taken, and its sender made ready.
abbrev pub take : ℕ → Kernel → Kernel
take ep k = record k {
  endpoints =
      update k.endpoints ep (record (k.endpoints ep) { has_pending = false; sender_task = none });
  tasks = state_to ready (k.endpoints ep).sender_task k.tasks;
}

-- What a receiver without a message writes before it calls `schedule`.
abbrev pub await : ℕ → ℕ → Kernel → Kernel
await cpu ep k =
    let cur = task_current_id cpu k in
    record k {
      endpoints = update k.endpoints ep (record (k.endpoints ep) { receiver_task = cur });
      tasks = state_to blocked cur k.tasks;
    }

-- What it does when it runs again. The sender, if any, is left as it is.
abbrev pub take_woken : ℕ → Kernel → Option IpcMessage × Kernel
take_woken ep k =
    if (k.endpoints ep).has_pending
    then (
      some (k.endpoints ep).pending_msg,
      record k {
        endpoints = update k.endpoints ep (record (k.endpoints ep) { has_pending = false });
      },
    )
    else (none, k)

-- `some msg` is a return of 0 with `*msg` written, `none` one of -1.
pub ipc_recv : (Kernel → Kernel) → ℕ → ℤ → Kernel → Option IpcMessage × Kernel
unfolding schedule
ipc_recv others cpu ep_id k = elim (endpoint ep_id k) [
  | none ↦ (none, k)
  | some ep ↦
      if (k.endpoints ep).has_pending
      then (some (k.endpoints ep).pending_msg, take ep k)
      else take_woken ep (others (schedule cpu (await cpu ep k)).0)
]
