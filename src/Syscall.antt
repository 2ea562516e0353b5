-- ===== src/Syscall.antt =====
-- kernel/syscall.c and syscall.h: what a task asks of the kernel, by a number and four words. A call that blocks
-- takes what others do meanwhile (`others`); a call of `schedule` that ends a time slice is followed by it too.
use dragoon_kernel.Prelude.{ℕ, ◌%◌, ◌^◌, Option, none, some, ◌==◌, if◌then◌else◌}
use dragoon_kernel.Prelude.Int.{int_of, word_of, minus_one}
use dragoon_kernel.Kernel.{Kernel, IpcMessage, dead}
use dragoon_kernel.Mm.{page_alloc}
use dragoon_kernel.Cap.{Capability, mem, io, cap_memory, cap_io, cap_alloc, cap_destroy}
use dragoon_kernel.Task.{task_get, task_current_id, set_state}
use dragoon_kernel.Sched.{schedule, sched_yield}
use dragoon_kernel.Ipc.{ipc_send, ipc_recv}

-- The capability that SYS_CAP_CREATE asks for, if its type is allowed there. The reference count is not
-- set: `cap_alloc` sets its own.
abbrev pub cap_asked : ℕ → ℕ → ℕ → Option Capability
cap_asked a0 a1 a2 =
    if a0 % 2 ^ 32 == cap_memory
    then some (record { type = cap_memory; refcount = 0; payload = mem a1 a2 })
    else if a0 % 2 ^ 32 == cap_io
    then some (record { type = cap_io; refcount = 0; payload = io a1 a2 })
    else none

sys_cap_create : ℕ → ℕ → ℕ → Kernel → ℕ × Kernel
sys_cap_create a0 a1 a2 k = elim (cap_asked a0 a1 a2) [
  | none ↦ (word_of minus_one, k)
  | some cap ↦ let (id, caps) = cap_alloc cap k.caps in (word_of id, record k { caps = caps })
]

sys_send : (Kernel → Kernel) → ℕ → ℕ → ℕ → ℕ → ℕ → Kernel → ℕ × Kernel
sys_send others cpu a0 a1 a2 a3 k =
    let msg : IpcMessage = record {
      data0 = a1;
      data1 = a2;
      data2 = a3;
      data3 = 0;
      cap_transfer = minus_one;
    } in
    let (ret, k') = ipc_send others cpu (int_of a0) msg k in (word_of ret, k')

sys_recv : (Kernel → Kernel) → ℕ → ℕ → Kernel → ℕ × Kernel
sys_recv others cpu a0 k =
    let (got, k') = ipc_recv others cpu (int_of a0) k in
    elim got [ none ↦ (word_of minus_one, k') | some msg ↦ (msg.data0, k') ]

sys_cap_destroy : ℕ → Kernel → ℕ × Kernel
sys_cap_destroy a0 k =
    let (ret, caps) = cap_destroy (int_of a0) k.caps in (word_of ret, record k { caps = caps })

sys_map_page : Kernel → ℕ × Kernel
sys_map_page k =
    let (page, mm) = page_alloc k.vm.mm in
    (elim page [ none ↦ 0 | some p ↦ p ], record k { vm = record (k.vm) { mm = mm } })

sys_exit : (Kernel → Kernel) → ℕ → Kernel → ℕ × Kernel
sys_exit others cpu k = elim (task_current_id cpu k) [
  | none ↦ (0, k)
  | some cur ↦ elim (task_get k.tasks cur) [
    | none ↦ (0, k)
    | some t ↦ (0, others (schedule cpu (record k { tasks = set_state t dead k.tasks })).0)
  ]
]

pub syscall_handler : (Kernel → Kernel) → ℕ → ℕ → ℕ → ℕ → ℕ → ℕ → Kernel → ℕ × Kernel
unfolding sys_cap_create sys_send sys_recv sys_cap_destroy sys_map_page sys_exit
syscall_handler others cpu num a0 a1 a2 a3 k =
    if num == 0
    then (0, others (sched_yield cpu k).0)
    else if num == 1
    then sys_send others cpu a0 a1 a2 a3 k
    else if num == 2
    then sys_recv others cpu a0 k
    else if num == 3
    then sys_cap_create a0 a1 a2 k
    else if num == 4
    then sys_cap_destroy a0 k
    else if num == 5
    then sys_map_page k
    else if num == 6
    then (0, k)
    else if num == 7
    then sys_exit others cpu k
    else (word_of minus_one, k)
