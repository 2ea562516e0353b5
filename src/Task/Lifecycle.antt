-- ===== src/Task/Lifecycle.antt =====
-- Tasks that are created, destroyed and that end, in any order.
use dragoon_kernel.Prelude.{ℕ, ◌≡◌, ◌<◌, true, some, List}
use dragoon_kernel.Prelude.Int.{ℤ}
use dragoon_kernel.Kernel.{Kernel, max_tasks}
use dragoon_kernel.Task.{Symbols, task_create, task_destroy, task_exit_handler, task_current_id}
use dragoon_kernel.Task.Table.{
  IsCounted, is_live, task_create-IsCounted, task_destroy-IsCounted, task_exit_handler-IsCounted,
}

-- From one state to another by operations on the table; a task ends as the current one of a CPU.
pub data Lifecycle (symbols : Symbols) (k₁ : Kernel) : Kernel → Type 0 where
  begin : Lifecycle symbols k₁ k₁
  create :
      (k : Kernel) (name : List ℕ) (entry : ℕ)
      → Lifecycle symbols k₁ k
      → Lifecycle symbols k₁ (task_create symbols name entry k).1
  destroy :
      (k : Kernel) (id : ℤ) → Lifecycle symbols k₁ k → Lifecycle symbols k₁ (task_destroy id k)
  end :
      (k : Kernel) (cpu id : ℕ)
      → task_current_id cpu k ≡ some id
      → id < max_tasks
      → is_live k.tasks id ≡ true
      → Lifecycle symbols k₁ k
      → Lifecycle symbols k₁ (task_exit_handler cpu k)

-- If `num_tasks` is how many tasks are not dead, it still is after any sequence of `task_create`,
-- whether it succeeds or fails, `task_destroy`, and `task_exit_handler` of the current task of a CPU
-- that is in the table and not dead.
pub Lifecycle-IsCounted :
    (symbols : Symbols) (k₁ k : Kernel) → Lifecycle symbols k₁ k → IsCounted k₁ → IsCounted k
Lifecycle-IsCounted symbols k₁ k begin c = c
Lifecycle-IsCounted symbols k₁ k (create k' name entry l) c =
    task_create-IsCounted symbols name entry k' (Lifecycle-IsCounted symbols k₁ k' l c)
Lifecycle-IsCounted symbols k₁ k (destroy k' id l) c =
    task_destroy-IsCounted id k' (Lifecycle-IsCounted symbols k₁ k' l c)
Lifecycle-IsCounted symbols k₁ k (end k' cpu id current lt live l) c =
    task_exit_handler-IsCounted cpu id k' (Lifecycle-IsCounted symbols k₁ k' l c) current lt live
