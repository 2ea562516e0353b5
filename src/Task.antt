-- ===== src/Task.antt =====
-- kernel/task.c and task.h: the task table.
-- `cpu` is the index of the CPU that runs the code (`cpu_id()`, a system register).
pub mod Table
pub mod Lifecycle
mod Tests
use Prim.Native.Nat.{bit_and}
use dragoon_kernel.Prelude.{
  ℕ, zero, suc, ◌+◌, ◌-◌, ◌*◌, ◌/◌, ◌%◌, ◌^◌, ◌≡◌, refl, Bool, true, false, Option, none, some,
  List, [], ◌∷◌, update, ltb, leb, ◌==◌, if◌then◌else◌, find_from, for_range,
}
use dragoon_kernel.Prelude.Int.{ℤ, pos, negsuc, minus_one, ◌+ℤ◌, ◌-ℤ◌}
use dragoon_kernel.Mm.{Mm, page_size, pages_alloc, pages_free}
use dragoon_kernel.Vm.{Vm, AddressSpace, vm_create, vm_destroy}
use dragoon_kernel.Kernel.{
  Kernel, Task, TaskContext, TaskState, dead, ready, running, blocked, PercpuData, max_tasks,
  max_cpus,
}

abbrev pub task_stack_size : ℕ
task_stack_size = 16384

abbrev pub max_caps_per_task : ℕ
max_caps_per_task = 16

abbrev pub state_eq : TaskState → TaskState → Bool
state_eq dead dead = true
state_eq ready ready = true
state_eq running running = true
state_eq blocked blocked = true
state_eq _ _ = false

-- `tasks[id].state = state`.
abbrev pub set_state : ℕ → TaskState → (ℕ → Task) → ℕ → Task
set_state id state tasks = update tasks id (record (tasks id) { state = state })

-- Addresses that the linker chooses: the kernel's L0 table and the assembly entry of a task.
pub record Symbols : Type 0 where
  pub pgd_table : ℕ
  pub task_trampoline : ℕ

pub task_init : Kernel → Kernel
task_init k = record k {
  tasks =
      for_range max_tasks 0
        (λ i ts. update ts i (record (ts i) { id = i; state = dead; num_caps = 0; stack_base = 0 }))
        k.tasks;
  num_tasks = pos 0;
  percpu =
      for_range max_cpus 0
        (λ c p.
          update p c (record { cpu_id = c; current_task_id = none; reschedule_needed = false }))
        k.percpu;
}

-- The copying loop: at most 31 bytes, up to the terminating zero.
copy_name : ℕ → List ℕ → List ℕ
copy_name zero name = []
copy_name (suc n) [] = []
copy_name (suc n) (c ∷ name) = if c == 0 then [] else (c ∷ copy_name n name)

-- The context from which a new task starts.
abbrev initial_context : ℕ → ℕ → ℕ → TaskContext
initial_context sp trampoline entry = record {
  x19 = entry;
  x20 = 0;
  x21 = 0;
  x22 = 0;
  x23 = 0;
  x24 = 0;
  x25 = 0;
  x26 = 0;
  x27 = 0;
  x28 = 0;
  x29 = 0;
  x30 = trampoline;
  sp = sp;
}

-- The top of the stack, `& ~0xF`.
abbrev stack_pointer : ℕ → ℕ
stack_pointer stack = (stack + task_stack_size) % 2 ^ 64 / 16 * 16

-- `task_create` once the address space stands, `space` in `vm`.
give_stack : Symbols → ℕ → ℕ → Task → AddressSpace → Vm → Kernel → ℤ × Kernel
give_stack sym entry id t space vm k =
    let (stack, mm) = pages_alloc (task_stack_size / page_size) vm.mm in
    elim stack [
      | none ↦
          let (gone, vm') = vm_destroy space (record vm { mm = mm }) in
          (
            minus_one,
            record k {
              vm = vm';
              tasks = update k.tasks id (record t { space = gone; state = dead });
            },
          )
      | some base ↦ (
        pos id,
        record k {
          vm = record vm { mm = mm };
          num_tasks = k.num_tasks +ℤ pos 1;
          tasks = update k.tasks id (record t {
            space = space;
            stack_base = base;
            ctx = initial_context (stack_pointer base) sym.task_trampoline entry;
            cap_table =
                for_range max_caps_per_task 0 (λ c table. update table c minus_one) t.cap_table;
            num_caps = 0;
            state = ready;
          });
        },
      )
    ]

pub task_create : Symbols → List ℕ → ℕ → Kernel → ℤ × Kernel
unfolding copy_name give_stack
task_create sym name entry k = elim (find_from max_tasks 0 (λ i. state_eq (k.tasks i).state dead)) [
  | none ↦ (minus_one, k)
  | some id ↦
      let t = record (k.tasks id) { name = copy_name 31 name } in
      let (status, space, vm) = vm_create sym.pgd_table t.space k.vm in
      elim status [
        | negsuc n ↦ (
          minus_one,
          record k {
            vm = vm;
            tasks = update k.tasks id (record t { space = space; state = dead });
          },
        )
        | pos n ↦ give_stack sym entry id t space vm k
      ]
]

pub task_destroy : ℤ → Kernel → Kernel
task_destroy (negsuc n) k = k
task_destroy (pos id) k =
    if leb max_tasks id
    then k
    else if state_eq (k.tasks id).state dead
    then k
    else let t = k.tasks id in
      let freed = pages_free t.stack_base (task_stack_size / page_size) k.vm.mm in
      let (space, vm) = vm_destroy t.space (record (k.vm) { mm = freed }) in
      record k {
        vm = vm;
        tasks = update k.tasks id (record t { space = space; state = dead });
        num_tasks = k.num_tasks -ℤ pos 1;
      }

-- `task_get`: the index stands for the pointer.
abbrev pub task_get : (ℕ → Task) → ℕ → Option ℕ
task_get tasks id =
    if leb max_tasks id then none else if state_eq (tasks id).state dead then none else some id

abbrev pub task_current_id : ℕ → Kernel → Option ℕ
task_current_id cpu k = (k.percpu cpu).current_task_id

abbrev pub task_set_current : ℕ → Option ℕ → Kernel → Kernel
task_set_current cpu id k = record k {
  percpu = update k.percpu cpu (record (k.percpu cpu) { current_task_id = id });
}

-- What `task_exit_handler` does before it leaves the CPU to `schedule` for good. It runs on a task.
pub task_exit_handler : ℕ → Kernel → Kernel
task_exit_handler cpu k = elim (task_current_id cpu k) [
  | none ↦ k
  | some id ↦ record k { tasks = set_state id dead k.tasks; num_tasks = k.num_tasks -ℤ pos 1 }
]

pub task_add_cap : ℤ → ℤ → Kernel → ℤ × Kernel
task_add_cap (negsuc n) cap_id k = (minus_one, k)
task_add_cap (pos task_id) cap_id k = elim (task_get k.tasks task_id) [
  | none ↦ (minus_one, k)
  | some id ↦
      let t = k.tasks id in
      if leb max_caps_per_task t.num_caps then (minus_one, k) else (
        pos 0,
        record k {
          tasks = update k.tasks id (record t {
            cap_table = update t.cap_table t.num_caps cap_id;
            num_caps = t.num_caps + 1;
          });
        },
      )
]
