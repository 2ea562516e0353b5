-- ===== src/WaitQueue.antt =====
-- kernel/waitqueue.c and waitqueue.h: queues of blocked tasks, linked through a static pool.
-- Each operation runs under `wq_lock`, so it is one step on the kernel's state; a wait queue is named by
-- its address. A task that waits leaves the CPU in the middle of its call: `others` is what all other
-- tasks and CPUs do from its call of `schedule` until that call returns.
pub mod Chain
pub mod Readied
pub mod Tick
pub mod Wake
pub mod WakeAll
pub mod Enqueue
pub mod Invariant
mod Tests
use dragoon_kernel.Prelude.{
  ℕ, zero, suc, ◌+◌, ◌%◌, ◌^◌, Bool, true, false, not, Option, none, some, update, ltb, ◌==◌,
  if◌then◌else◌, find_from, for_range,
}
use dragoon_kernel.Prelude.Int.{ℤ, pos, minus_one}
use dragoon_kernel.Kernel.{Kernel, Task, TaskState, ready, blocked, WqEntry}
use dragoon_kernel.Task.{task_get, task_current_id, state_eq}
use dragoon_kernel.Sched.{schedule}
use Chain.{last_of, find_prev, opt_eq}

abbrev pub wq_pool_size : ℕ
wq_pool_size = 64

pub wq_pool_init : Kernel → Kernel
wq_pool_init k = record k {
  wq_pool =
      for_range wq_pool_size 0
        (λ i p. update p i (record (p i) { in_use = false; next = none; owner = none })) k.wq_pool;
}

pub wq_init : ℕ → Kernel → Kernel
wq_init q k = record k { head = update k.head q none }

abbrev pub entry_free : Kernel → ℕ → Bool
entry_free k i = not (k.wq_pool i).in_use

pub pool_alloc : Kernel → Option ℕ × Kernel
pool_alloc k = elim (find_from wq_pool_size 0 (entry_free k)) [
  | none ↦ (none, k)
  | some i ↦ (
    some i,
    record k { wq_pool = update k.wq_pool i (record (k.wq_pool i) { in_use = true; next = none }) },
  )
]

pub pool_free : ℕ → Kernel → Kernel
pool_free idx k =
    if ltb idx wq_pool_size
    then record k {
      wq_pool = update k.wq_pool idx (record (k.wq_pool idx) { in_use = false; owner = none });
    }
    else k

-- `wq_pool[i].next = next`.
abbrev pub set_next : ℕ → Option ℕ → (ℕ → WqEntry) → ℕ → WqEntry
set_next i next pool = update pool i (record (pool i) { next = next })

pub queue_append : ℕ → ℕ → Kernel → Kernel
queue_append q idx k =
    let pool = set_next idx none k.wq_pool in
    elim (k.head q) [
      | none ↦ record k { wq_pool = pool; head = update k.head q (some idx) }
      | some first ↦ record k {
        wq_pool = set_next (last_of wq_pool_size pool first) (some idx) pool;
      }
    ]

pub queue_remove : ℕ → ℕ → Kernel → Kernel
queue_remove q idx k = elim (k.head q) [
  | none ↦ k
  | some first ↦
      if first == idx
      then record k { head = update k.head q (k.wq_pool idx).next }
      else (elim (find_prev wq_pool_size k.wq_pool idx (some first)) [
        | none ↦ k
        | some prev ↦ record k { wq_pool = set_next prev (k.wq_pool idx).next k.wq_pool }
      ])
]

-- The caller is blocked, if there is such a task.
abbrev pub block_task : ℕ → (ℕ → Task) → ℕ → Task
block_task tid tasks = elim (task_get tasks tid) [
  | none ↦ tasks
  | some t ↦ update tasks t (record (tasks t) { wakeup_reason = pos 0; state = blocked })
]

-- What a waiting task writes under the lock, once it has an entry.
pub fill_entry : ℕ → ℕ → ℕ → ℕ → Kernel → Kernel
unfolding queue_append
fill_entry q tid timeout idx k =
    let entry = record (k.wq_pool idx) { task_id = tid; timeout_tick = timeout; owner = some q } in
    let k' = queue_append q idx (record k { wq_pool = update k.wq_pool idx entry }) in
    record k' { tasks = block_task tid k'.tasks }

-- Up to the unlocking; `none` if the pool is exhausted.
pub enqueue : ℕ → ℕ → ℕ → Kernel → Option Kernel
unfolding pool_alloc fill_entry
enqueue q tid timeout k =
    let (entry, k') = pool_alloc k in
    elim entry [ none ↦ none | some idx ↦ some (fill_entry q tid timeout idx k') ]

pub wq_wait : (Kernel → Kernel) → ℕ → ℕ → Kernel → Kernel
unfolding enqueue schedule
wq_wait others cpu q k = elim (task_current_id cpu k) [
  | none ↦ k
  | some tid ↦ elim (enqueue q tid 0 k) [ none ↦ k | some k' ↦ others (schedule cpu k').0 ]
]

-- The reason of a task's last wake-up, if there is such a task.
abbrev reason_of : Option ℕ → Kernel → ℤ
reason_of none k = minus_one
reason_of (some t) k = (k.tasks t).wakeup_reason

pub wq_wait_timeout : (Kernel → Kernel) → ℕ → ℕ → ℕ → Kernel → ℤ × Kernel
unfolding enqueue schedule
wq_wait_timeout others cpu q ticks k = elim (task_current_id cpu k) [
  | none ↦ (minus_one, k)
  | some tid ↦ elim (enqueue q tid ((k.tick_count + ticks) % 2 ^ 64) k) [
    | none ↦ (minus_one, k)
    | some k' ↦
        let back = others (schedule cpu k').0 in (reason_of (task_get k'.tasks tid) back, back)
  ]
]

-- Makes the task ready if it is blocked, with the reason; says whether it was.
abbrev pub wake : ℕ → ℤ → (ℕ → Task) → Bool × (ℕ → Task)
wake tid reason tasks = elim (task_get tasks tid) [
  | none ↦ (false, tasks)
  | some t ↦
      if state_eq (tasks t).state blocked
      then (true, update tasks t (record (tasks t) { wakeup_reason = reason; state = ready }))
      else (false, tasks)
]

-- Takes the entry `idx` off the head of `q`, wakes its task, and frees the entry.
pub wake_head : ℕ → ℕ → Kernel → Bool × Kernel
unfolding pool_free
wake_head q idx k =
    let (woke, tasks) = wake (k.wq_pool idx).task_id (pos 0) k.tasks in
    (woke, pool_free idx (record k { head = update k.head q (k.wq_pool idx).next; tasks = tasks }))

-- The result says whether other CPUs are told to reschedule (`smp_send_reschedule`).
pub wq_wake_one : ℕ → Kernel → Bool × Kernel
unfolding wake_head
wq_wake_one q k = elim (k.head q) [ none ↦ (false, k) | some idx ↦ wake_head q idx k ]

-- The loop of `wq_wake_all`, with fuel.
pub wake_loop : ℕ → ℕ → Bool → Kernel → Bool × Kernel
unfolding wake_head
wake_loop zero q woke k = (woke, k)
wake_loop (suc fuel) q woke k = elim (k.head q) [
  | none ↦ (woke, k)
  | some idx ↦ let (w, k') = wake_head q idx k in wake_loop fuel q (if w then true else woke) k'
]

-- There are no more entries in a queue than in the pool.
pub wq_wake_all : ℕ → Kernel → Bool × Kernel
unfolding wake_loop
wq_wake_all q k = wake_loop wq_pool_size q false k

-- Has the wait of this entry run out at `now`?
abbrev pub is_expired : ℕ → WqEntry → Bool
is_expired now e =
    if not e.in_use
    then false
    else if e.timeout_tick == 0
    then false
    else if ltb now e.timeout_tick
    then false
    else true

pub expire : ℕ → Kernel → Kernel
unfolding pool_free queue_remove
expire i k =
    let e = k.wq_pool i in
    let (woke, tasks) = wake e.task_id minus_one k.tasks in
    let k₁ = record k { tasks = tasks } in
    let k₂ = elim e.owner as (λ o. Kernel) [ none ↦ k₁ | some q ↦ queue_remove q i k₁ ] in
    pool_free i k₂

pub wq_tick : Kernel → Kernel
unfolding expire
wq_tick k =
    for_range wq_pool_size 0
      (λ i t. if is_expired k.tick_count (t.wq_pool i) then expire i t else t) k
