-- ===== src/Task/Tests.antt =====
-- kernel/task.c, tried on the sample kernel.
use dragoon_kernel.Prelude.{refl, arith, [], ◌∷◌}
use dragoon_kernel.Prelude.Count.{count_below}
use dragoon_kernel.Sample.{sample}
use dragoon_kernel.Task.{Symbols, task_create, task_exit_handler}
use dragoon_kernel.Task.Lifecycle.{Lifecycle-IsCounted, begin, create, end}
use dragoon_kernel.Task.Table.{IsCounted}

abbrev linked : Symbols
linked = record { pgd_table = 0x4008_0000; task_trampoline = 0x4010_0000 }

sample-IsCounted : IsCounted sample
unfolding count_below
sample-IsCounted = refl

-- A task ends, and another is created.
Lifecycle-IsCounted_example :
    IsCounted (task_create linked (115 ∷ 104 ∷ []) 0x4020_0000 (task_exit_handler 0 sample)).1
Lifecycle-IsCounted_example =
    Lifecycle-IsCounted linked sample
      (task_create linked (115 ∷ 104 ∷ []) 0x4020_0000 (task_exit_handler 0 sample)).1
      (create (task_exit_handler 0 sample) (115 ∷ 104 ∷ []) 0x4020_0000
        (end sample 0 0 refl (omega arith) refl begin))
      sample-IsCounted
