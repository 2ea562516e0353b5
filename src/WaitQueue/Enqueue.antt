-- ===== src/WaitQueue/Enqueue.antt =====
-- Waiting: a new entry at the end of the line.
use dragoon_kernel.Prelude.{
  has, has-append, Distinct-append, ℕ, none, update, find_from, List, true, some, ◌≡◌, ◌<◌, fun_ext,
  ◌⊎◌, false, arith, ◌≢◌, ◌++◌, ℕ_discrete, ◌∷◌, inl, [], inr, ap, Option, refl, ◌∙◌, Option-cases,
  subst, sym, not-false, not-true,
}
use dragoon_kernel.Prelude.Loops.{find_from-some, find_from-none}
use dragoon_kernel.Kernel.{Kernel, WqEntry}
use dragoon_kernel.WaitQueue.Chain.{Chain-ext}
use dragoon_kernel.WaitQueue.Readied.{asleep, block_task-asleep}
use dragoon_kernel.WaitQueue.Invariant.{IsQueued, line-short, Becomes, queue_append_lem}
use dragoon_kernel.WaitQueue.{
  block_task, fill_entry, wq_pool_size, entry_free, pool_alloc, queue_append, enqueue,
}

abbrev pub new_entry : ℕ → ℕ → ℕ → WqEntry
new_entry q tid timeout = record {
  task_id = tid;
  timeout_tick = timeout;
  next = none;
  in_use = true;
  owner = some q;
}

-- The kernel with the entry filled in, before it is linked.
abbrev filled : ℕ → ℕ → ℕ → ℕ → Kernel → Kernel
filled q tid timeout idx k = record k { wq_pool = update k.wq_pool idx (new_entry q tid timeout) }

entered : ℕ → ℕ → ℕ → ℕ → Kernel → Kernel
entered q tid timeout idx k =
    let k' = queue_append q idx (filled q tid timeout idx k) in
    record k' { tasks = block_task tid k'.tasks }

queue_append-tasks : (q idx : ℕ) (k : Kernel) → (queue_append q idx k).tasks ≡ k.tasks
unfolding queue_append
queue_append-tasks q idx k = ground arith

entry_written :
    (q tid timeout idx : ℕ) (p : ℕ → WqEntry) (e : WqEntry)
    → e.next ≡ none
    → e.in_use ≡ true
    → update
        (update p idx e)
        idx
        (record (update p idx e idx) { task_id = tid; timeout_tick = timeout; owner = some q })
      ≡ update p idx (new_entry q tid timeout)
entry_written q tid timeout idx p e n u = fun_ext (λ j. ground arith)

pool_alloc-some :
    (idx : ℕ) (k : Kernel)
    → find_from wq_pool_size 0 (entry_free k) ≡ some idx
    → pool_alloc k ≡ (
      some idx,
      record k {
        wq_pool = update k.wq_pool idx (record (k.wq_pool idx) { in_use = true; next = none });
      },
    )
unfolding pool_alloc
pool_alloc-some idx k e = rw (e, pool_alloc)

fill_entry-alloc :
    (q tid timeout idx : ℕ) (k : Kernel)
    → fill_entry q tid timeout idx (record k {
      wq_pool = update k.wq_pool idx (record (k.wq_pool idx) { in_use = true; next = none });
    })
      ≡ entered q tid timeout idx k
unfolding fill_entry entered
fill_entry-alloc q tid timeout idx k =
    ap
      (λ p.
        let k' = queue_append q idx (record k { wq_pool = p }) in
        record k' { tasks = block_task tid k'.tasks })
      (entry_written q tid timeout idx k.wq_pool
        (record (k.wq_pool idx) { in_use = true; next = none }) refl refl)

enqueue-some :
    (q tid timeout idx : ℕ) (k : Kernel)
    → find_from wq_pool_size 0 (entry_free k) ≡ some idx
    → enqueue q tid timeout k ≡ some (entered q tid timeout idx k)
unfolding enqueue
enqueue-some q tid timeout idx k e =
    ap
      (λ (r : Option ℕ × Kernel). elim r.0 [
        | none ↦ none
        | some i ↦ some (fill_entry q tid timeout i r.1)
      ])
      (pool_alloc-some idx k e)
    ∙ ap some (fill_entry-alloc q tid timeout idx k)

enqueue-none :
    (q tid timeout : ℕ) (k : Kernel)
    → find_from wq_pool_size 0 (entry_free k) ≡ none
    → enqueue q tid timeout k ≡ none
unfolding enqueue pool_alloc
enqueue-none q tid timeout k e = rw (e, enqueue, pool_alloc)

pub line_at :
    (line : ℕ → List ℕ) (q : ℕ) (l : List ℕ) (r : ℕ)
    → ((q ≡ r) × (update line q l r ≡ l)) ⊎ ((q ≢ r) × (update line q l r ≡ line r))
line_at line q l r = elim (ℕ_discrete q r) [
  | yes here ↦ inl (here, ground arith)
  | no other ↦ inr (other, ground arith)
]

module _ (line : ℕ → List ℕ) (k : Kernel) (w : IsQueued line k) (q tid timeout idx : ℕ)
    (lt : idx < wq_pool_size) (unused : (k.wq_pool idx).in_use ≡ false) where
  absent : (r : ℕ) → has (line r) idx ≡ false
  absent r = ground (arith, w.in_use r idx)

  linked :
      Becomes
        (filled q tid timeout idx k)
        q
        idx
        (line q)
        (line q ++ idx ∷ [])
        (queue_append q idx (filled q tid timeout idx k))
  linked =
      queue_append_lem q idx (line q) (filled q tid timeout idx k)
        (Chain-ext k.wq_pool (filled q tid timeout idx k).wq_pool (k.head q) (line q)
          (λ i m. ground (arith, absent q)) (w.chained q))
        (w.distinct q) (absent q) (line-short line k w q)

  appended-IsQueued :
      IsQueued
        (update line q (line q ++ idx ∷ []))
        (queue_append q idx (filled q tid timeout idx k))
  appended-IsQueued = record {
    chained = λ r. elim (line_at line q (line q ++ idx ∷ []) r) [
      | inl (here, u) ↦ rw (u, ← here) linked.0
      | inr (other, u) ↦
          rw (u, linked.1.heads r other)
            (Chain-ext k.wq_pool (queue_append q idx (filled q tid timeout idx k)).wq_pool
              (k.head r) (line r)
              (λ i m. ground (arith, absent r, linked.1.links i, w.owned r i, w.owned q i))
              (w.chained r))
    ];
    distinct = λ r. elim (line_at line q (line q ++ idx ∷ []) r) [
      | inl (here, u) ↦ rw u (Distinct-append (line q) idx (w.distinct q) (absent q))
      | inr (other, u) ↦ rw u (w.distinct r)
    ];
    in_pool = λ r i m. ground (arith, has-append (line q) idx i, w.in_pool r i, w.in_pool q i);
    in_use = λ r i m.
        ground (arith, has-append (line q) idx i, w.in_use r i, w.in_use q i, linked.1.used_kept i);
    owned = λ r i m. ground (
      arith,
      has-append (line q) idx i,
      absent r,
      w.owned r i,
      w.owned q i,
      linked.1.owner_kept i,
    );
    covered = λ i l m. elim (ℕ_discrete idx i) [
      | yes new ↦
          (q, ground (arith, linked.1.owner_kept i), ground (arith, has-append (line q) idx i))
      | no old ↦
          let (r, o, h) = w.covered i l (ground (arith, linked.1.used_kept i)) in
          (r, ground (arith, linked.1.owner_kept i), ground (arith, has-append (line q) idx i))
    ];
  }

entered-IsQueued :
    (line' : ℕ → List ℕ) (q tid timeout idx : ℕ) (k : Kernel)
    → IsQueued line' (queue_append q idx (filled q tid timeout idx k))
    → IsQueued line' (entered q tid timeout idx k)
unfolding entered
entered-IsQueued line' q tid timeout idx k w = record {
  chained = w.chained;
  distinct = w.distinct;
  in_pool = w.in_pool;
  in_use = w.in_use;
  owned = w.owned;
  covered = w.covered;
}

-- Either the pool is exhausted; or some entry, which was free, now stands at the end of the line of
-- `q`, for this task and this deadline, and the task is blocked.
abbrev pub Enqueued : (ℕ → List ℕ) → ℕ → ℕ → ℕ → Kernel → Option Kernel → Type 0
Enqueued line q tid timeout k none = (i : ℕ) → i < wq_pool_size → (k.wq_pool i).in_use ≡ true
Enqueued line q tid timeout k (some k') =
    (idx : ℕ) × (idx < wq_pool_size)
    × ((k.wq_pool idx).in_use ≡ false)
    × IsQueued (update line q (line q ++ idx ∷ [])) k'
    × ((k'.wq_pool idx).task_id ≡ tid)
    × ((k'.wq_pool idx).timeout_tick ≡ timeout)
    × (k'.tasks ≡ asleep tid k.tasks)

-- With the queues in good order, a task that waits fails only when all 64 entries are in use;
-- otherwise an entry that was free stands at the end of the queue's line, for that task and that
-- deadline, the task, if it is a live one of the 32, has the state blocked and the reason 0, no other
-- task changes, other lines are as they were, and the queues are in good order.
pub enqueue_lem :
    (line : ℕ → List ℕ) (q tid timeout : ℕ) (k : Kernel)
    → IsQueued line k
    → Enqueued line q tid timeout k (enqueue q tid timeout k)
enqueue_lem line q tid timeout k w = elim (Option-cases (find_from wq_pool_size 0 (entry_free k))) [
  | inl e ↦
      subst (Enqueued line q tid timeout k) (sym (enqueue-none q tid timeout k e))
        (λ i lt. not-false (find_from-none wq_pool_size 0 (entry_free k) e i (omega arith) lt))
  | inr (idx, e) ↦
      let found = find_from-some wq_pool_size 0 (entry_free k) idx e in
      let unused = not-true found.passes in
      let kept = (linked line k w q tid timeout idx found.below unused).1 in
      subst (Enqueued line q tid timeout k) (sym (enqueue-some q tid timeout idx k e)) (
        idx,
        found.below,
        unused,
        entered-IsQueued (update line q (line q ++ idx ∷ [])) q tid timeout idx k
            (appended-IsQueued line k w q tid timeout idx found.below unused),
        unfold entered in ground (arith, kept.task_kept idx),
        unfold entered in ground (arith, kept.timeout_kept idx),
        unfold entered in
            ap (block_task tid) (queue_append-tasks q idx (filled q tid timeout idx k))
            ∙ block_task-asleep tid k.tasks,
      )
]
