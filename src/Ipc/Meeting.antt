-- ===== src/Ipc/Meeting.antt =====
-- A sender and a receiver meet at an endpoint, whichever comes first.
use dragoon_kernel.Prelude.{ℕ, ◌≡◌, some, true, false, none, ◌≢◌, Option}
use dragoon_kernel.Kernel.{Kernel, ready}
use dragoon_kernel.Task.{task_get}
use dragoon_kernel.Sched.{schedule}
use dragoon_kernel.Prelude.Int.{ℤ, pos}
use dragoon_kernel.Ipc.{offer, await, IpcMessage}

-- What others do without touching the endpoint `ep` or ending the task `t`.
pub record Leaves (ep t : ℕ) (f : Kernel → Kernel) : Type 0 where
  pub endpoint_kept : (k : Kernel) → (f k).endpoints ep ≡ k.endpoints ep
  pub task_kept : (k : Kernel) → task_get k.tasks t ≡ some t → task_get (f k).tasks t ≡ some t

-- The kernel as a sender finds it, when a receiver waits and `before` is what others did since.
abbrev pub meets_receiver : (Kernel → Kernel) → ℕ → ℕ → Kernel → Kernel
meets_receiver before cpu ep k = before (schedule cpu (await cpu ep k)).0

-- The kernel as a receiver finds it, when a sender waits.
abbrev pub meets_sender : (Kernel → Kernel) → ℕ → ℕ → IpcMessage → Kernel → Kernel
meets_sender before cpu ep msg k = before (schedule cpu (offer cpu ep msg k)).0

-- The task `t` is ready and nothing else about the tasks has changed.
pub record Readies (t : ℕ) (m m' : Kernel) : Type 0 where
  pub now_ready : m'.tasks t ≡ record (m.tasks t) { state = ready }
  pub tasks_kept : (j : ℕ) → j ≢ t → m'.tasks j ≡ m.tasks j
  pub cpus_kept : m'.percpu ≡ m.percpu

-- A send that returned 0: its message is at hand, and the receiver `t` no longer waits but is ready.
pub record Delivered (ep t : ℕ) (msg : IpcMessage) (m : Kernel) (r : ℤ × Kernel) : Type 0 where
  pub returned : r.0 ≡ pos 0
  pub at_hand : (r.1.endpoints ep).pending_msg ≡ msg
  pub pending : (r.1.endpoints ep).has_pending ≡ true
  pub no_receiver : (r.1.endpoints ep).receiver_task ≡ none
  pub readied : Readies t m r.1

-- A receive that returned the message: none is pending, and the sender `t` no longer waits but is ready.
pub record Taken (ep t : ℕ) (msg : IpcMessage) (m : Kernel) (r : Option IpcMessage × Kernel)
    : Type 0 where
  pub returned : r.0 ≡ some msg
  pub none_pending : (r.1.endpoints ep).has_pending ≡ false
  pub no_sender : (r.1.endpoints ep).sender_task ≡ none
  pub readied : Readies t m r.1
