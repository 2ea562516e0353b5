-- ===== src/Sched/Tests.antt =====
-- kernel/sched.c, tried on the sample kernel.
use dragoon_kernel.Prelude.{ℕ, ◌≡◌, refl, arith, find_from, some, ◌<◌, ◌≤◌}
use dragoon_kernel.Kernel.{Kernel}
use dragoon_kernel.Sample.{sample, task_at}
use dragoon_kernel.Task.{task_current_id}
use dragoon_kernel.Sched.{schedule, pick_next, switch, task_ctx}
use dragoon_kernel.Sched.Rounds.{Picks, pick_next_lem}
use dragoon_kernel.Sched.Placement.{IsPlaced, schedule-IsPlaced}
use dragoon_kernel.Sched.Fairness.{Allows, rounds, schedule_serves}

next_task : (schedule 0 sample).1 ≡ switch (task_ctx 0) (task_ctx 1) 0
unfolding schedule find_from pick_next
next_task = refl

pick_next_lem_example : Picks task_at 0 (pick_next task_at (some 0))
pick_next_lem_example = pick_next_lem task_at (some 0) (omega arith)

sample-IsPlaced : IsPlaced sample
sample-IsPlaced = record {
  alone = λ c d t lc ld e f. ground arith;
  taken = λ c t l e. ground arith;
  in_table = λ c t l e. ground arith;
}

schedule-IsPlaced_example : IsPlaced (schedule 0 sample).0
schedule-IsPlaced_example = schedule-IsPlaced 0 sample (omega arith) sample-IsPlaced

abbrev nothing : ℕ → Kernel → Kernel
nothing n k = k

nothing-Allows : Allows 0 1 nothing
nothing-Allows = record { current_kept = λ n k. refl; ready_kept = λ n k r. r }

schedule_serves_example :
    (i : ℕ) × (0 < i) × (i ≤ 32) × (task_current_id 0 (rounds nothing 0 i sample) ≡ some 1)
schedule_serves_example =
    schedule_serves 0 1 nothing sample nothing-Allows (omega arith) (omega arith) refl
