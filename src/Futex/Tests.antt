-- ===== src/Futex/Tests.antt =====
-- kernel/futex.c, tried on the sample kernel.
use dragoon_kernel.Kernel.{Kernel}
use dragoon_kernel.Prelude.{refl, update, arith, true, ℕ_discrete}
use dragoon_kernel.Prelude.Int.{pos}
use dragoon_kernel.Sample.{sample, sample_line}
use dragoon_kernel.Futex.{Meddlers, find_slot, futex_wake}
use dragoon_kernel.Futex.Slots.{IsTable, Finds, find_slot_lem}
use dragoon_kernel.Futex.Waking.{IsQuiet}
use dragoon_kernel.Futex.Wake.{Wakes, futex_wake_lem}

sample-IsTable : IsTable sample_line sample
sample-IsTable = record {
  queued = record {
    chained = λ q. elim (ℕ_discrete q 7) [ yes e ↦ rw e (ground arith) | no n ↦ ground arith ];
    distinct = λ q. elim (ℕ_discrete q 7) [ yes e ↦ rw e (ground arith) | no n ↦ ground arith ];
    in_pool = λ q i m. ground arith;
    in_use = λ q i m. ground arith;
    owned = λ q i m. ground arith;
    covered = λ i l m. (7, ground arith, ground arith);
  };
  one_slot = λ i j li lj hi hj. ground arith;
  vacant = λ i l h. ground arith;
}

find_slot_lem_example : Finds sample_line 128 sample (find_slot 128 true sample)
find_slot_lem_example = find_slot_lem sample_line 128 sample sample-IsTable

-- Others that change a word of memory, and no more.
abbrev scribble : Kernel → Kernel
scribble k = record k {
  vm = record k.vm { mm = record k.vm.mm { memory = update k.vm.mm.memory 8 1 } };
}

abbrev scribblers : Meddlers
scribblers = record {
  before_test = λ n. scribble;
  before_wake = λ n. scribble;
  before_lock = scribble;
}

scribblers-IsQuiet : IsQuiet scribblers
scribblers-IsQuiet = record {
  before_test = λ n k. record { pool = refl; heads = refl; slots = refl; tasks = refl };
  before_wake = λ n k. record { pool = refl; heads = refl; slots = refl; tasks = refl };
  before_lock = λ k. record { pool = refl; heads = refl; slots = refl; tasks = refl };
}

futex_wake_lem_example :
    Wakes sample_line 64 (pos 1) sample (futex_wake scribblers 64 (pos 1) sample)
futex_wake_lem_example =
    futex_wake_lem scribblers sample_line 64 (pos 1) sample scribblers-IsQuiet sample-IsTable
