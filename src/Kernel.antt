-- ===== src/Kernel.antt =====
-- The state of the kernel: the static variables of kernel/task.c, sched.c, waitqueue.c, futex.c, ipc.c,
-- timer.c and percpu.h, with the allocator, the ASIDs and the capability pool of their own modules.
-- A static array is a family of cells; a sentinel of -1 among indices is `none`, and so is a null pointer.
use dragoon_kernel.Prelude.{ℕ, Bool, Option, List}
use dragoon_kernel.Prelude.Int.{ℤ}
use dragoon_kernel.Vm.{Vm, AddressSpace}
use dragoon_kernel.Cap.{CapPool}

abbrev pub max_tasks : ℕ
max_tasks = 32

abbrev pub max_cpus : ℕ
max_cpus = 4

pub data TaskState : Type 0 where
  dead ready running blocked : TaskState

pub record TaskContext : Type 0 where
  pub x19 : ℕ
  pub x20 : ℕ
  pub x21 : ℕ
  pub x22 : ℕ
  pub x23 : ℕ
  pub x24 : ℕ
  pub x25 : ℕ
  pub x26 : ℕ
  pub x27 : ℕ
  pub x28 : ℕ
  pub x29 : ℕ
  pub x30 : ℕ
  pub sp : ℕ

-- `space` is the field `as`. A name is its bytes, without the final zero.
pub record Task : Type 0 where
  pub id : ℕ
  pub state : TaskState
  pub name : List ℕ
  pub ctx : TaskContext
  pub stack_base : ℕ
  pub space : AddressSpace
  pub cap_table : ℕ → ℤ
  pub num_caps : ℕ
  pub wakeup_reason : ℤ

-- The two saved contexts of a CPU are only named (see `Sched.Context`): assembly code fills them.
pub record PercpuData : Type 0 where
  pub cpu_id : ℕ
  pub current_task_id : Option ℕ
  pub reschedule_needed : Bool

-- `owner` is the address of a `struct wait_queue`.
pub record WqEntry : Type 0 where
  pub task_id : ℕ
  pub timeout_tick : ℕ
  pub next : Option ℕ
  pub in_use : Bool
  pub owner : Option ℕ

pub record FutexSlot : Type 0 where
  pub addr : ℕ
  pub active : Bool

pub record IpcMessage : Type 0 where
  pub data0 : ℕ
  pub data1 : ℕ
  pub data2 : ℕ
  pub data3 : ℕ
  pub cap_transfer : ℤ

pub record IpcEndpoint : Type 0 where
  pub active : Bool
  pub sender_task : Option ℕ
  pub receiver_task : Option ℕ
  pub pending_msg : IpcMessage
  pub has_pending : Bool

-- `head q` is the field `head` of the wait queue at the address `q`.
pub record Kernel : Type 0 where
  pub vm : Vm
  pub caps : CapPool
  pub tasks : ℕ → Task
  pub num_tasks : ℤ
  pub percpu : ℕ → PercpuData
  pub head : ℕ → Option ℕ
  pub wq_pool : ℕ → WqEntry
  pub ftable : ℕ → FutexSlot
  pub endpoints : ℕ → IpcEndpoint
  pub tick_count : ℕ
