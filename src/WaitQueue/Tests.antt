-- ===== src/WaitQueue/Tests.antt =====
-- kernel/waitqueue.c, tried on the sample kernel.
use dragoon_kernel.Sample.{sample, sample_line}
use dragoon_kernel.WaitQueue.Invariant.{IsQueued}
use dragoon_kernel.WaitQueue.Enqueue.{Enqueued, enqueue_lem}
use dragoon_kernel.WaitQueue.WakeAll.{WokeAll, waiters, wq_wake_all_lem}
use dragoon_kernel.WaitQueue.Wake.{WakesOne, wq_wake_one_lem}
use dragoon_kernel.WaitQueue.Tick.{Ticked, wq_tick_lem}
use dragoon_kernel.WaitQueue.{enqueue, wq_wake_one, wq_wake_all, wq_tick}
use dragoon_kernel.Prelude.{ℕ_discrete, arith}

sample-IsQueued : IsQueued sample_line sample
sample-IsQueued = record {
  chained = λ q. elim (ℕ_discrete q 7) [ yes e ↦ rw e (ground arith) | no n ↦ ground arith ];
  distinct = λ q. elim (ℕ_discrete q 7) [ yes e ↦ rw e (ground arith) | no n ↦ ground arith ];
  in_pool = λ q i m. ground arith;
  in_use = λ q i m. ground arith;
  owned = λ q i m. ground arith;
  covered = λ i l m. (7, ground arith, ground arith);
}

enqueue_lem_example : Enqueued sample_line 7 0 0 sample (enqueue 7 0 0 sample)
enqueue_lem_example = enqueue_lem sample_line 7 0 0 sample sample-IsQueued

wq_wake_one_lem_example : WakesOne sample_line 7 sample (sample_line 7) (wq_wake_one 7 sample)
wq_wake_one_lem_example = wq_wake_one_lem sample_line 7 sample sample-IsQueued

wq_wake_all_lem_example :
    WokeAll sample_line 7 (waiters sample_line 7 sample) sample (wq_wake_all 7 sample).1
wq_wake_all_lem_example = wq_wake_all_lem sample_line 7 sample sample-IsQueued

wq_tick_lem_example : Ticked sample_line sample (wq_tick sample)
wq_tick_lem_example = wq_tick_lem sample_line sample sample-IsQueued
