-- ===== src/WaitQueue/Tick.antt =====
-- Timeouts: what `wq_tick` does at each tick of the timer.
use dragoon_kernel.Prelude.{
  keep, ℕ, Bool, List, ◌≡◌, if◌then◌else◌, ltb, not, ◌≤◌, some, false, for_range, true, ◌<◌, ◌+◌,
  ℕ_discrete, update, arith, remove, Bool-cases, fun_ext, keep-remove, inl, keep_ext, inr, ◌∙◌, ap,
  subst, has, sym, remove_absent, refl, has-keep, suc, keep-true,
}
use dragoon_kernel.Prelude.Loops.{for_range_inv, for_range-suc}
use dragoon_kernel.Prelude.Int.{minus_one}
use dragoon_kernel.Kernel.{Kernel, Task, WqEntry}
use dragoon_kernel.WaitQueue.Invariant.{IsQueued}
use dragoon_kernel.WaitQueue.Enqueue.{line_at}
use dragoon_kernel.WaitQueue.Readied.{readied, has_run_out, wake-readied, is_expired-has_run_out}
use dragoon_kernel.WaitQueue.Wake.{
  Keeps, dequeue-Keeps, dequeue-IsQueued, retask-IsQueued, queue_remove-tasks,
}
use dragoon_kernel.WaitQueue.{
  pool_free, queue_remove, wake, is_expired, expire, wq_pool_size, wq_tick,
}

-- Did the entry `j` of `k` time out, and has the loop passed it when it stands at `i`?
abbrev gone : Kernel → ℕ → ℕ → Bool
gone k i j = if ltb j i then is_expired k.tick_count (k.wq_pool j) else false

abbrev lines_at : (ℕ → List ℕ) → Kernel → ℕ → ℕ → List ℕ
lines_at line k i r = keep (λ j. not (gone k i j)) (line r)

-- The tasks after the entries below `i` have been looked at.
pub wake_expired : Kernel → ℕ → (ℕ → Task) → ℕ → Task
wake_expired k i tasks =
    if is_expired k.tick_count (k.wq_pool i)
    then (wake (k.wq_pool i).task_id minus_one tasks).1
    else tasks

woken-none :
    (k : Kernel) (i : ℕ) (tasks : ℕ → Task)
    → is_expired k.tick_count (k.wq_pool i) ≡ false
    → wake_expired k i tasks ≡ tasks
unfolding wake_expired
woken-none k i tasks e = rw (e, wake_expired)

woken-one :
    (k : Kernel) (i : ℕ) (tasks : ℕ → Task)
    → is_expired k.tick_count (k.wq_pool i) ≡ true
    → wake_expired k i tasks ≡ (wake (k.wq_pool i).task_id minus_one tasks).1
unfolding wake_expired
woken-one k i tasks e = rw (e, wake_expired)

next_woken :
    (k : Kernel) (i : ℕ)
    → for_range (i + 1) 0 (wake_expired k) k.tasks
      ≡ wake_expired k i (for_range i 0 (wake_expired k) k.tasks)
next_woken k i =
    ap (λ n. for_range n 0 (wake_expired k) k.tasks) (let e : i + 1 ≡ suc i = omega arith in e)
    ∙ for_range-suc (wake_expired k) i 0 i k.tasks (omega arith)

entry_ext :
    (e e' : WqEntry)
    → e.task_id ≡ e'.task_id
    → e.timeout_tick ≡ e'.timeout_tick
    → e.in_use ≡ e'.in_use
    → e.owner ≡ e'.owner
    → e ≡ record e' { next = e.next }
entry_ext e e' a b c d = rw (← a, ← b, ← c, ← d) refl

expired-used : (now : ℕ) (e : WqEntry) → is_expired now e ≡ true → e.in_use ≡ true
expired-used now e h = ground arith

record IsTicked (line : ℕ → List ℕ) (k : Kernel) (i : ℕ) (t : Kernel) : Type 0 where
  queued : IsQueued (lines_at line k i) t
  ahead : (j : ℕ) → i ≤ j → t.wq_pool j ≡ record (k.wq_pool j) { next = (t.wq_pool j).next }
  woken : t.tasks ≡ for_range i 0 (wake_expired k) k.tasks

-- `expire`, for an entry with an owner.
expire-owned :
    (i q : ℕ) (k : Kernel)
    → (k.wq_pool i).owner ≡ some q
    → expire i k
      ≡ pool_free i
          (queue_remove q i (record k { tasks = (wake (k.wq_pool i).task_id minus_one k.tasks).1 }))
unfolding expire
expire-owned i q k e = rw (e, expire)

module _ (line : ℕ → List ℕ) (k : Kernel) (w : IsQueued line k) (i : ℕ) where
  -- An entry that has not timed out stays where it is.
  quiet :
      is_expired k.tick_count (k.wq_pool i) ≡ false → lines_at line k i ≡ lines_at line k (i + 1)
  quiet e =
      fun_ext (λ r.
        keep_ext (λ j. not (gone k i j)) (λ j. not (gone k (i + 1) j)) (line r) (λ j m. same j))
    where
      same : (j : ℕ) → not (gone k i j) ≡ not (gone k (i + 1) j)
      same j = elim (ℕ_discrete i j) [
        | yes here ↦ rw (← here) (ground (arith, e))
        | no other ↦ ground arith
      ]

  -- One that has leaves its line.
  leaves :
      (q : ℕ)
      → is_expired k.tick_count (k.wq_pool i) ≡ true
      → (k.wq_pool i).owner ≡ some q
      → update (lines_at line k i) q (remove i (lines_at line k i q)) ≡ lines_at line k (i + 1)
  leaves q e o = fun_ext (λ r. by_queue r)
    where
      shorter : (r : ℕ) → lines_at line k (i + 1) r ≡ remove i (lines_at line k i r)
      shorter r =
          keep-remove (λ j. not (gone k i j)) (λ j. not (gone k (i + 1) j)) i (line r)
            (w.distinct r) (ground arith)
            (λ j. elim (ℕ_discrete i j) [
              | yes here ↦ rw (← here) (ground (arith, e))
              | no other ↦ ground arith
            ])

      by_queue :
          (r : ℕ)
          → update (lines_at line k i) q (remove i (lines_at line k i q)) r
            ≡ lines_at line k (i + 1) r
      by_queue r = elim (line_at (lines_at line k i) q (remove i (lines_at line k i q)) r) [
        | inl (here, u) ↦ u ∙ sym (rw (← here) (shorter q))
        | inr (other, u) ↦
            u
            ∙ sym (
                remove_absent (lines_at line k i r) i
                  (ground (arith, has-keep (λ j. not (gone k i j)) (line r) i, w.owned r i)))
            ∙ sym (shorter r)
      ]

  module _ (t : Kernel) (lt : i < wq_pool_size) (h : IsTicked line k i t) where
    as_before : is_expired k.tick_count (t.wq_pool i) ≡ is_expired k.tick_count (k.wq_pool i)
    as_before = ap (is_expired k.tick_count) (h.ahead i (omega arith))

    skip : is_expired k.tick_count (k.wq_pool i) ≡ false → IsTicked line k (i + 1) t
    skip e = record {
      queued = subst (λ m. IsQueued m t) (quiet e) h.queued;
      ahead = λ j l. h.ahead j (omega arith);
      woken =
          h.woken
          ∙ sym (woken-none k i (for_range i 0 (wake_expired k) k.tasks) e)
          ∙ sym (next_woken k i);
    }

    abbrev after : ℕ → Kernel
    after q =
        pool_free i
          (queue_remove q i (record t { tasks = (wake (t.wq_pool i).task_id minus_one t.tasks).1 }))

    take_out :
        (q : ℕ)
        → is_expired k.tick_count (k.wq_pool i) ≡ true
        → (k.wq_pool i).owner ≡ some q
        → has (lines_at line k i q) i ≡ true
        → IsTicked line k (i + 1) (after q)
    take_out q e o stands = record {
      queued =
          subst (λ m. IsQueued m (after q)) (leaves q e o)
            (dequeue-IsQueued (lines_at line k i) t' w' q i stands);
      ahead = λ j l.
          entry_ext ((after q).wq_pool j) (k.wq_pool j)
            (kept.task_kept j ∙ ap (λ x. x.task_id) (h.ahead j (omega arith)))
            (kept.timeout_kept j ∙ ap (λ x. x.timeout_tick) (h.ahead j (omega arith)))
            (kept.used_kept j (omega arith) ∙ ap (λ x. x.in_use) (h.ahead j (omega arith)))
            (kept.owner_kept j (omega arith) ∙ ap (λ x. x.owner) (h.ahead j (omega arith)));
      woken =
          queue_remove-tasks q i t'
          ∙ ap (λ n. (wake n minus_one t.tasks).1) (ap (λ x. x.task_id) (h.ahead i (omega arith)))
          ∙ ap (λ ts. (wake (k.wq_pool i).task_id minus_one ts).1) h.woken
          ∙ sym (woken-one k i (for_range i 0 (wake_expired k) k.tasks) e)
          ∙ sym (next_woken k i);
    }
      where
        t' : Kernel
        t' = record t { tasks = (wake (t.wq_pool i).task_id minus_one t.tasks).1 }

        w' : IsQueued (lines_at line k i) t'
        w' =
            retask-IsQueued (lines_at line k i) t (wake (t.wq_pool i).task_id minus_one t.tasks).1
              h.queued

        kept : Keeps t' (after q) i
        kept = dequeue-Keeps (lines_at line k i) t' w' q i stands

    stepped :
        is_expired k.tick_count (k.wq_pool i) ≡ true
        → (if is_expired k.tick_count (t.wq_pool i) then expire i t else t) ≡ expire i t
    stepped e = ap (λ b. if b then expire i t else t) (as_before ∙ e)

    tick_step :
        IsTicked line k (i + 1) (if is_expired k.tick_count (t.wq_pool i) then expire i t else t)
    tick_step = elim (Bool-cases (is_expired k.tick_count (k.wq_pool i))) [
      | inl e ↦
          let (q, o, stands) =
            h.queued.covered i lt (expired-used k.tick_count (t.wq_pool i) (as_before ∙ e)) in
          subst (IsTicked line k (i + 1)) (sym (stepped e ∙ expire-owned i q t o))
            (take_out q e (sym (ap (λ x. x.owner) (h.ahead i (omega arith))) ∙ o) stands)
      | inr e ↦
          subst (IsTicked line k (i + 1))
            (sym (ap (λ b. if b then expire i t else t) (as_before ∙ e))) (skip e)
    ]

-- What a tick does to the tasks for the entry `i`: if its time has run out, its task becomes ready
-- with the reason -1.
pub time_out : Kernel → ℕ → (ℕ → Task) → ℕ → Task
time_out k i tasks =
    if has_run_out k.tick_count (k.wq_pool i)
    then readied (k.wq_pool i).task_id minus_one tasks
    else tasks

wake_expired-time_out : (k : Kernel) → wake_expired k ≡ time_out k
unfolding wake_expired time_out
wake_expired-time_out k = fun_ext (λ i. fun_ext (λ tasks. same i tasks))
  where
    same : (i : ℕ) (tasks : ℕ → Task) → wake_expired k i tasks ≡ time_out k i tasks
    same i tasks =
        ap (λ b. if b then (wake (k.wq_pool i).task_id minus_one tasks).1 else tasks)
          (is_expired-has_run_out k.tick_count (k.wq_pool i))
        ∙ ap (λ ts. if has_run_out k.tick_count (k.wq_pool i) then ts else tasks)
            (wake-readied (k.wq_pool i).task_id minus_one tasks)

-- At a tick, each queue loses the entries whose time has run out and keeps the others in order; the
-- tasks of the entries lost become ready, the lowest entry first.
pub record Ticked (line : ℕ → List ℕ) (k k' : Kernel) : Type 0 where
  pub queued : IsQueued (λ r. keep (λ j. not (has_run_out k.tick_count (k.wq_pool j))) (line r)) k'
  pub woken : k'.tasks ≡ for_range 64 0 (time_out k) k.tasks

-- With the queues in good order, `wq_tick` takes the entries in use whose deadline is set and not
-- after the tick count off their queues and keeps all others in their order; each task of an entry
-- taken out that is blocked becomes ready with the reason -1, in the order of the pool, and no other
-- task changes; and the queues are in good order again.
pub wq_tick_lem : (line : ℕ → List ℕ) (k : Kernel) → IsQueued line k → Ticked line k (wq_tick k)
unfolding wq_tick for_range
wq_tick_lem line k w = record {
  queued = subst (λ m. IsQueued m (wq_tick k)) (fun_ext (λ r. all_passed r)) done.queued;
  woken = done.woken ∙ ap (λ f. for_range wq_pool_size 0 f k.tasks) (wake_expired-time_out k);
}
  where
    keep_all : (r : ℕ) → line r ≡ lines_at line k 0 r
    keep_all r = sym (keep-true (λ j. not (gone k 0 j)) (line r) (λ j m. ground arith))

    all_passed :
        (r : ℕ)
        → lines_at line k wq_pool_size r
          ≡ keep (λ j. not (has_run_out k.tick_count (k.wq_pool j))) (line r)
    all_passed r =
        keep_ext (λ j. not (gone k wq_pool_size j))
          (λ j. not (has_run_out k.tick_count (k.wq_pool j))) (line r)
          (λ j m. ground (arith, w.in_pool r j, is_expired-has_run_out k.tick_count (k.wq_pool j)))

    start : IsTicked line k 0 k
    start = record {
      queued = subst (λ m. IsQueued m k) (fun_ext (λ r. keep_all r)) w;
      ahead = λ j l. refl;
      woken = refl;
    }

    done : IsTicked line k wq_pool_size (wq_tick k)
    done =
        for_range_inv (λ i t. IsTicked line k i t)
          (λ i t. if is_expired k.tick_count (t.wq_pool i) then expire i t else t) wq_pool_size 0
          wq_pool_size k (omega arith) (λ i t l l' h. tick_step line k w i t (omega arith) h) start
