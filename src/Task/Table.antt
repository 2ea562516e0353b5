-- ===== src/Task/Table.antt =====
-- `num_tasks` is how many tasks are not dead.
use dragoon_kernel.Prelude.{
  ℕ, ◌≡◌, ◌<◌, Bool, true, false, not, some, List, update, find_from, arith, refl, Option-cases,
  Bool-cases, inl, inr, ap, ◌∙◌, leb,
}
use dragoon_kernel.Prelude.Int.{ℤ, pos, negsuc, ◌+ℤ◌, ◌-ℤ◌}
use dragoon_kernel.Prelude.Count.{count_below, count_below_add, count_below_ext}
use dragoon_kernel.Prelude.Loops.{find_from-some}
use dragoon_kernel.Kernel.{Kernel, Task, dead, max_tasks}
use dragoon_kernel.Task.{
  Symbols, state_eq, task_create, task_destroy, task_exit_handler, task_current_id, give_stack,
  copy_name,
}
use dragoon_kernel.Prelude.{◌⊎◌, ◌/◌}
use dragoon_kernel.Mm.{page_size, pages_alloc}
use dragoon_kernel.Vm.{Vm, AddressSpace, vm_create}
use dragoon_kernel.Task.{task_stack_size}

abbrev pub is_live : (ℕ → Task) → ℕ → Bool
is_live tasks i = not (state_eq (tasks i).state dead)

abbrev pub IsCounted : Kernel → Type 0
IsCounted k = k.num_tasks ≡ pos (count_below max_tasks (is_live k.tasks))

born :
    (tasks : ℕ → Task) (id : ℕ) (t : Task) (n : ℤ)
    → id < max_tasks
    → is_live tasks id ≡ false
    → state_eq t.state dead ≡ false
    → n ≡ pos (count_below max_tasks (is_live tasks))
    → n +ℤ pos 1 ≡ pos (count_below max_tasks (is_live (update tasks id t)))
unfolding ◌+ℤ◌
born tasks id t n l d a e = ground (
  arith,
  e,
  count_below_add max_tasks (is_live tasks) (is_live (update tasks id t)) id l d (ground arith)
      (λ j lj ne. ground arith),
)

died :
    (tasks : ℕ → Task) (id : ℕ) (t : Task) (n : ℤ)
    → id < max_tasks
    → is_live tasks id ≡ true
    → state_eq t.state dead ≡ true
    → n ≡ pos (count_below max_tasks (is_live tasks))
    → n -ℤ pos 1 ≡ pos (count_below max_tasks (is_live (update tasks id t)))
unfolding ◌-ℤ◌
died tasks id t n l d a e = ground (
  arith,
  e,
  count_below_add max_tasks (is_live (update tasks id t)) (is_live tasks) id l (ground arith) d
      (λ j lj ne. ground arith),
)

still_dead :
    (tasks : ℕ → Task) (id : ℕ) (t : Task) (n : ℤ)
    → is_live tasks id ≡ false
    → state_eq t.state dead ≡ true
    → n ≡ pos (count_below max_tasks (is_live tasks))
    → n ≡ pos (count_below max_tasks (is_live (update tasks id t)))
still_dead tasks id t n d a e =
    e
    ∙ ap pos (
        count_below_ext max_tasks (is_live tasks) (is_live (update tasks id t))
          (λ j l. ground arith))

-- If `num_tasks` is how many tasks are not dead, it still is after `task_destroy`, whichever task it
-- is asked to destroy.
pub task_destroy-IsCounted : (id : ℤ) (k : Kernel) → IsCounted k → IsCounted (task_destroy id k)
unfolding task_destroy
task_destroy-IsCounted (negsuc n) k c = c
task_destroy-IsCounted (pos id) k c = elim (Bool-cases (leb max_tasks id)) [
  | inl e ↦ rw e c
  | inr e ↦ elim (Bool-cases (state_eq (k.tasks id).state dead)) [
    | inl d ↦ rw (e, d) c
    | inr a ↦
        rw (e, a) (died k.tasks id _ k.num_tasks (ground (arith, e)) (ground (arith, a)) refl c)
  ]
]

-- If `num_tasks` is how many tasks are not dead, it still is after `task_exit_handler` on a CPU whose
-- current task is in the table and not dead.
pub task_exit_handler-IsCounted :
    (cpu id : ℕ) (k : Kernel)
    → IsCounted k
    → task_current_id cpu k ≡ some id
    → id < max_tasks
    → is_live k.tasks id ≡ true
    → IsCounted (task_exit_handler cpu k)
unfolding task_exit_handler
task_exit_handler-IsCounted cpu id k c e l a =
    rw (e, task_exit_handler) (died k.tasks id _ k.num_tasks l a refl c)

give_stack-IsCounted :
    (symbols : Symbols) (entry id : ℕ) (t : Task) (space : AddressSpace) (vm : Vm) (k : Kernel)
    → IsCounted k
    → id < max_tasks
    → is_live k.tasks id ≡ false
    → IsCounted (give_stack symbols entry id t space vm k).1
unfolding give_stack
give_stack-IsCounted symbols entry id t space vm k c l d =
    elim (Option-cases (pages_alloc (task_stack_size / page_size) vm.mm).0) [
      | inl e ↦ rw (e, give_stack) (still_dead k.tasks id _ k.num_tasks d refl c)
      | inr (base, e) ↦ rw (e, give_stack) (born k.tasks id _ k.num_tasks l d refl c)
    ]

sign-cases : (n : ℤ) → ((i : ℕ) × (n ≡ pos i)) ⊎ ((i : ℕ) × (n ≡ negsuc i))
sign-cases (pos i) = inl (i, refl)
sign-cases (negsuc i) = inr (i, refl)

-- If `num_tasks` is how many tasks are not dead, it still is after `task_create`, whether that
-- succeeds or fails for want of a slot, of a page table or of a stack.
pub task_create-IsCounted :
    (symbols : Symbols) (name : List ℕ) (entry : ℕ) (k : Kernel)
    → IsCounted k
    → IsCounted (task_create symbols name entry k).1
unfolding task_create
task_create-IsCounted symbols name entry k c =
    elim (Option-cases (find_from max_tasks 0 (λ i. state_eq (k.tasks i).state dead))) [
      | inl e ↦ rw (e, task_create) c
      | inr (id, e) ↦
          let found = find_from-some max_tasks 0 (λ i. state_eq (k.tasks i).state dead) id e in
          elim (sign-cases (vm_create symbols.pgd_table (k.tasks id).space k.vm).0) [
            | inl (i, s) ↦
                rw (e, task_create, s)
                  (give_stack-IsCounted symbols entry id
                    (record (k.tasks id) { name = copy_name 31 name })
                    (vm_create symbols.pgd_table (k.tasks id).space k.vm).1
                    (vm_create symbols.pgd_table (k.tasks id).space k.vm).2 k c found.below
                    (ground (arith, found.passes)))
            | inr (i, s) ↦
                rw (e, task_create, s)
                  (still_dead k.tasks id _ k.num_tasks (ground (arith, found.passes)) refl c)
          ]
    ]
