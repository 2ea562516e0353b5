-- ===== src/Sched.antt =====
-- kernel/sched.c: the round-robin scheduler.
-- `schedule` chooses under `sched_lock` and then calls the assembly routine `context_switch`. The model
-- returns the state at that call together with the routine's arguments.
pub mod Rounds
pub mod Fairness
pub mod Placement
mod Tests
use Prim.Native.Nat.{bit_or}
use dragoon_kernel.Prelude.{
  ℕ, ◌+◌, ◌*◌, ◌%◌, ◌^◌, Bool, true, false, Option, none, some, update, ◌==◌, if◌then◌else◌,
  find_from,
}
use dragoon_kernel.Kernel.{Kernel, Task, TaskState, dead, ready, running, blocked, max_tasks}
use dragoon_kernel.Vm.{AddressSpace}
use dragoon_kernel.Task.{task_get, set_state, state_eq, task_set_current}

-- Whose saved registers: a task's, or the idle or scratch context of a CPU.
pub data Context : Type 0 where
  task_ctx idle_ctx dead_ctx : ℕ → Context

-- What `schedule` asks of `context_switch`: nothing, or to save, to load, and the new TTBR0 (0: keep).
pub data Switch : Type 0 where
  stay : Switch
  switch : (old new : Context) (ttbr0 : ℕ) → Switch

abbrev start_of : Option ℕ → ℕ
start_of none = 0
start_of (some cur) = cur

-- Is the `i`-th task after `start` ready?
abbrev pub ready_at : (ℕ → Task) → ℕ → ℕ → Bool
ready_at tasks start i = elim (task_get tasks ((start + i) % max_tasks)) [
  | none ↦ false
  | some id ↦ state_eq (tasks id).state ready
]

pub pick_next : (ℕ → Task) → Option ℕ → Option ℕ
pick_next tasks cur = elim (find_from max_tasks 1 (ready_at tasks (start_of cur))) [
  | none ↦ none
  | some i ↦ some ((start_of cur + i) % max_tasks)
]

-- The task that leaves the CPU is ready again, if it was running; and the context to save it in.
abbrev put_back : (ℕ → Task) → Option ℕ → ℕ → Task
put_back tasks none = tasks
put_back tasks (some cur) = elim (task_get tasks cur) [
  | none ↦ tasks
  | some id ↦ if state_eq (tasks id).state running then set_state id ready tasks else tasks
]

abbrev old_context : ℕ → (ℕ → Task) → Option ℕ → Context
old_context cpu tasks none = idle_ctx cpu
old_context cpu tasks (some cur) = elim (task_get tasks cur) [
  | none ↦ dead_ctx cpu
  | some id ↦ task_ctx id
]

pub ttbr0_of : AddressSpace → ℕ
ttbr0_of space = elim space.pgd [ none ↦ 0 | some pgd ↦ bit_or pgd (space.asid * 2 ^ 48) ]

-- The end of `schedule` when a task `next` is ready.
switch_to : ℕ → Option ℕ → Context → ℕ → Kernel → Kernel × Switch
unfolding ttbr0_of
switch_to cpu cur old next k =
    if (elim cur [ none ↦ false | some c ↦ next == c ])
    then (record k { tasks = set_state next running k.tasks }, stay)
    else (
      task_set_current cpu (some next) (record k { tasks = set_state next running k.tasks }),
      switch old (task_ctx next) (ttbr0_of (k.tasks next).space),
    )

-- Its end when none is.
go_idle : ℕ → Option ℕ → Context → Kernel → Kernel × Switch
go_idle cpu none old k = (k, stay)
go_idle cpu (some cur) old k = (task_set_current cpu none k, switch old (idle_ctx cpu) 0)

unfoldable pub schedule : ℕ → Kernel → Kernel × Switch
unfolding switch_to go_idle
schedule cpu k =
    let cur = (k.percpu cpu).current_task_id in
    let next = pick_next k.tasks cur in
    let old = old_context cpu k.tasks cur in
    let k' = record k { tasks = put_back k.tasks cur } in
    elim next [ none ↦ go_idle cpu cur old k' | some id ↦ switch_to cpu cur old id k' ]

-- `sched_yield` up to its call of `schedule`.
pub sched_yield : ℕ → Kernel → Kernel × Switch
unfolding schedule
sched_yield cpu k = schedule cpu (record k {
  percpu = update k.percpu cpu (record (k.percpu cpu) { reschedule_needed = false });
})
