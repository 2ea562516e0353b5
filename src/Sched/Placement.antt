-- ===== src/Sched/Placement.antt =====
-- Which task is on which CPU.
use dragoon_kernel.Prelude.{
  ℕ, ◌<◌, ◌≡◌, some, false, Option-cases, none, inl, arith, inr, true, subst,
}
use dragoon_kernel.Kernel.{Kernel, max_tasks, max_cpus}
use dragoon_kernel.Task.{task_current_id}
use dragoon_kernel.Sched.Rounds.{is_ready, Picks, pick_next_lem}
use dragoon_kernel.Sched.{schedule, pick_next, start_of}

-- No task is current on two CPUs, and a task that is current is not ready to be picked up.
pub record IsPlaced (k : Kernel) : Type 0 where
  pub alone :
      (c d t : ℕ)
      → c < max_cpus
      → d < max_cpus
      → task_current_id c k ≡ some t
      → task_current_id d k ≡ some t
      → c ≡ d
  pub taken : (c t : ℕ) → c < max_cpus → task_current_id c k ≡ some t → is_ready k.tasks t ≡ false
  pub in_table : (c t : ℕ) → c < max_cpus → task_current_id c k ≡ some t → t < max_tasks

start-lt :
    (k : Kernel) (cpu : ℕ)
    → cpu < max_cpus
    → IsPlaced k
    → start_of (task_current_id cpu k) < max_tasks
start-lt k cpu lt p = elim (Option-cases (task_current_id cpu k)) [
  | inl e ↦ rw e (omega arith)
  | inr (t, e) ↦ rw e (p.in_table cpu t lt e)
]

-- When nothing is ready the CPU goes idle.
idle-IsPlaced :
    (cpu : ℕ) (k : Kernel)
    → cpu < max_cpus
    → IsPlaced k
    → pick_next k.tasks (task_current_id cpu k) ≡ none
    → IsPlaced (schedule cpu k).0
unfolding schedule
idle-IsPlaced cpu k lt p e =
    rw (e, schedule)
      (record {
        alone = λ c d t lc ld ec ed. ground (arith, p.alone c d t, p.taken c t);
        taken = λ c t lc ec. ground (arith, p.taken c t, p.alone c cpu t);
        in_table = λ c t lc ec. ground (arith, p.in_table c t);
      })

-- When a task is ready it becomes the CPU's.
switch-IsPlaced :
    (cpu next : ℕ) (k : Kernel)
    → cpu < max_cpus
    → IsPlaced k
    → pick_next k.tasks (task_current_id cpu k) ≡ some next
    → next < max_tasks
    → is_ready k.tasks next ≡ true
    → IsPlaced (schedule cpu k).0
unfolding schedule
switch-IsPlaced cpu next k lt p e l r =
    rw (e, schedule)
      (record {
        alone = λ c d t lc ld ec ed. ground (arith, p.alone c d t, p.taken c t, p.taken d t);
        taken = λ c t lc ec. ground (arith, p.taken c t, p.alone c cpu t);
        in_table = λ c t lc ec. ground (arith, p.in_table c t);
      })

-- If no task is current on two CPUs, and each current task is in the table and not ready to be picked,
-- the same holds after `schedule` on any of the four CPUs.
pub schedule-IsPlaced :
    (cpu : ℕ) (k : Kernel) → cpu < max_cpus → IsPlaced k → IsPlaced (schedule cpu k).0
schedule-IsPlaced cpu k lt p = elim (Option-cases (pick_next k.tasks (task_current_id cpu k))) [
  | inl e ↦ idle-IsPlaced cpu k lt p e
  | inr (next, e) ↦
      let picked =
        subst (Picks k.tasks (start_of (task_current_id cpu k))) e
          (pick_next_lem k.tasks (task_current_id cpu k) (start-lt k cpu lt p)) in
      switch-IsPlaced cpu next k lt p e picked.0 picked.1
]
