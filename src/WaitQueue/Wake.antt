-- ===== src/WaitQueue/Wake.antt =====
-- Waking: entries leave their line, and their tasks become ready.
use dragoon_kernel.Prelude.{
  has, has-remove, Distinct-remove, remove, ℕ, List, ◌≡◌, ◌≢◌, true, false, update, ◌<◌, arith, inl,
  sym, inr, ℕ_discrete, some, Bool, ◌∷◌, subst, [], ap, refl, ◌∙◌,
}
use dragoon_kernel.Prelude.Int.{pos}
use dragoon_kernel.Kernel.{Kernel, Task}
use dragoon_kernel.WaitQueue.Chain.{Chain, Chain-ext}
use dragoon_kernel.WaitQueue.Enqueue.{line_at}
use dragoon_kernel.WaitQueue.Readied.{was_blocked, readied, wake-readied, wake-was_blocked}
use dragoon_kernel.WaitQueue.Invariant.{
  IsQueued, line-short, Becomes, queue_remove_lem, remove-first,
}
use dragoon_kernel.WaitQueue.{wq_pool_size, pool_free, queue_remove, wake, wake_head, wq_wake_one}

-- The tasks play no part in the invariant.
pub retask-IsQueued :
    (line : ℕ → List ℕ) (k : Kernel) (tasks : ℕ → Task)
    → IsQueued line k
    → IsQueued line (record k { tasks = tasks })
retask-IsQueued line k tasks w = record {
  chained = w.chained;
  distinct = w.distinct;
  in_pool = w.in_pool;
  in_use = w.in_use;
  owned = w.owned;
  covered = w.covered;
}

-- What the entries still in a line say of their tasks and deadlines is kept.
pub record Keeps (k k' : Kernel) (idx : ℕ) : Type 0 where
  pub task_kept : (j : ℕ) → (k'.wq_pool j).task_id ≡ (k.wq_pool j).task_id
  pub timeout_kept : (j : ℕ) → (k'.wq_pool j).timeout_tick ≡ (k.wq_pool j).timeout_tick
  pub used_kept : (j : ℕ) → idx ≢ j → (k'.wq_pool j).in_use ≡ (k.wq_pool j).in_use
  pub owner_kept : (j : ℕ) → idx ≢ j → (k'.wq_pool j).owner ≡ (k.wq_pool j).owner
  pub freed : (k'.wq_pool idx).in_use ≡ false

module _ (line : ℕ → List ℕ) (k : Kernel) (w : IsQueued line k) (q idx : ℕ)
    (stands : has (line q) idx ≡ true) where
  shorter : ℕ → List ℕ
  shorter = update line q (remove idx (line q))

  unlinked : Becomes k q idx (line q) (remove idx (line q)) (queue_remove q idx k)
  unlinked =
      queue_remove_lem q idx (line q) k (w.chained q) (w.distinct q) stands (line-short line k w q)

  in_range : idx < wq_pool_size
  in_range = w.in_pool q idx stands

  pub dequeue-Keeps : Keeps k (pool_free idx (queue_remove q idx k)) idx
  unfolding pool_free
  dequeue-Keeps = record {
    task_kept = λ j. ground (arith, unlinked.1.task_kept j);
    timeout_kept = λ j. ground (arith, unlinked.1.timeout_kept j);
    used_kept = λ j ne. ground (arith, unlinked.1.used_kept j);
    owner_kept = λ j ne. ground (arith, unlinked.1.owner_kept j);
    freed = ground (arith, in_range);
  }

  links_kept :
      (i : ℕ)
      → ((pool_free idx (queue_remove q idx k)).wq_pool i).next
        ≡ ((queue_remove q idx k).wq_pool i).next
  unfolding pool_free
  links_kept i = ground arith

  heads_kept :
      (r : ℕ) → (pool_free idx (queue_remove q idx k)).head r ≡ (queue_remove q idx k).head r
  unfolding pool_free
  heads_kept r = ground arith

  absent : (r : ℕ) → q ≢ r → has (line r) idx ≡ false
  absent r ne = ground (arith, w.owned r idx, w.owned q idx)

  -- An entry that is unlinked and freed leaves its line, and no other changes.
  pub dequeue-IsQueued :
      IsQueued (update line q (remove idx (line q))) (pool_free idx (queue_remove q idx k))
  unfolding shorter
  dequeue-IsQueued = record {
    chained = λ r. elim (line_at line q (remove idx (line q)) r) [
      | inl (here, u) ↦
          rw (u, ← here, heads_kept q)
            (Chain-ext (queue_remove q idx k).wq_pool (pool_free idx (queue_remove q idx k)).wq_pool
              ((queue_remove q idx k).head q) (remove idx (line q)) (λ i m. sym (links_kept i))
              unlinked.0)
      | inr (other, u) ↦
          rw (u, heads_kept r, unlinked.1.heads r other)
            (Chain-ext k.wq_pool (pool_free idx (queue_remove q idx k)).wq_pool (k.head r) (line r)
              (λ i m.
                ground (
                  arith,
                  links_kept i,
                  absent r other,
                  unlinked.1.links i,
                  w.owned r i,
                  w.owned q i,
                ))
              (w.chained r))
    ];
    distinct = λ r. elim (line_at line q (remove idx (line q)) r) [
      | inl (here, u) ↦ rw u (Distinct-remove (line q) idx (w.distinct q))
      | inr (other, u) ↦ rw u (w.distinct r)
    ];
    in_pool = λ r i m.
        ground (arith, has-remove (line q) idx i (w.distinct q), w.in_pool r i, w.in_pool q i);
    in_use = λ r i m. ground (
      arith,
      has-remove (line q) idx i (w.distinct q),
      absent r,
      w.in_use r i,
      w.in_use q i,
      dequeue-Keeps.used_kept i,
    );
    owned = λ r i m. ground (
      arith,
      has-remove (line q) idx i (w.distinct q),
      absent r,
      w.owned r i,
      w.owned q i,
      dequeue-Keeps.owner_kept i,
    );
    covered = λ i l m. elim (ℕ_discrete idx i) [
      | yes gone ↦ absurd (ground (arith, dequeue-Keeps.freed))
      | no other ↦
          let (r, o, h) = w.covered i l (ground (arith, dequeue-Keeps.used_kept i)) in
          (
            r,
            ground (arith, dequeue-Keeps.owner_kept i),
            ground (arith, has-remove (line q) idx i (w.distinct q)),
          )
    ];
  }

-- `wake_head` is an unlinking after its task is woken.
wake_head-eq :
    (q idx : ℕ) (k : Kernel)
    → k.head q ≡ some idx
    → wake_head q idx k ≡ (
      (wake (k.wq_pool idx).task_id (pos 0) k.tasks).0,
      pool_free idx (
          queue_remove q idx
            (record k { tasks = (wake (k.wq_pool idx).task_id (pos 0) k.tasks).1 })),
    )
unfolding wake_head
wake_head-eq q idx k e =
    ap (λ t. ((wake (k.wq_pool idx).task_id (pos 0) k.tasks).0, pool_free idx t))
      (sym (
        remove-first q idx (record k { tasks = (wake (k.wq_pool idx).task_id (pos 0) k.tasks).1 })
          e))

pub queue_remove-tasks :
    (q idx : ℕ) (k : Kernel) → (pool_free idx (queue_remove q idx k)).tasks ≡ k.tasks
unfolding queue_remove pool_free
queue_remove-tasks q idx k = ground arith

-- Taking the head `idx` of the line `idx ∷ l` of `q`: the line is then `l`, other lines are as they
-- were, and the task of the entry becomes ready if it was blocked, which is told.
pub record WokeHead (line : ℕ → List ℕ) (q idx : ℕ) (l : List ℕ) (k : Kernel) (r : Bool × Kernel)
    : Type 0 where
  pub queued : IsQueued (update line q l) r.1
  pub woken : r.1.tasks ≡ readied (k.wq_pool idx).task_id (pos 0) k.tasks
  pub told : r.0 ≡ was_blocked (k.wq_pool idx).task_id k.tasks
  pub task_kept : (j : ℕ) → (r.1.wq_pool j).task_id ≡ (k.wq_pool j).task_id

pub wake_head-WokeHead :
    (line : ℕ → List ℕ) (k : Kernel) (q idx : ℕ) (l : List ℕ)
    → IsQueued line k
    → line q ≡ idx ∷ l
    → WokeHead line q idx l k (wake_head q idx k)
wake_head-WokeHead line k q idx l w e =
    subst (WokeHead line q idx l k) (sym (wake_head-eq q idx k head_idx)) (record {
      queued =
          subst (λ m. IsQueued (update line q m) (pool_free idx (queue_remove q idx woke))) rest
            (dequeue-IsQueued line woke w' q idx stands);
      woken = queue_remove-tasks q idx woke ∙ wake-readied (k.wq_pool idx).task_id (pos 0) k.tasks;
      told = wake-was_blocked (k.wq_pool idx).task_id (pos 0) k.tasks;
      task_kept = (dequeue-Keeps line woke w' q idx stands).task_kept;
    })
  where
    woke : Kernel
    woke = record k { tasks = (wake (k.wq_pool idx).task_id (pos 0) k.tasks).1 }

    w' : IsQueued line woke
    w' = retask-IsQueued line k (wake (k.wq_pool idx).task_id (pos 0) k.tasks).1 w

    chain : Chain k.wq_pool (k.head q) (idx ∷ l)
    chain = subst (Chain k.wq_pool (k.head q)) e (w.chained q)

    head_idx : k.head q ≡ some idx
    head_idx = chain.0

    stands : has (line q) idx ≡ true
    stands = rw e (ground arith)

    rest : remove idx (line q) ≡ l
    rest = rw e (ground arith)

-- What `wq_wake_one` does to a queue, by its line.
abbrev pub WakesOne : (ℕ → List ℕ) → ℕ → Kernel → List ℕ → Bool × Kernel → Type 0
WakesOne line q k [] r = r ≡ (false, k)
WakesOne line q k (idx ∷ l) r = WokeHead line q idx l k r

wake_one-some : (q idx : ℕ) (k : Kernel) → k.head q ≡ some idx → wq_wake_one q k ≡ wake_head q idx k
unfolding wq_wake_one
wake_one-some q idx k e = rw (e, wq_wake_one)

-- With the queues in good order, `wq_wake_one` on an empty queue changes nothing and tells no CPU;
-- otherwise it takes out the entry that has waited longest, makes its task ready with the reason 0 if
-- that is one of the 32 and blocked, tells the other CPUs exactly in that case, changes no other task,
-- and leaves the other lines as they were and the queues in good order.
pub wq_wake_one_lem :
    (line : ℕ → List ℕ) (q : ℕ) (k : Kernel)
    → IsQueued line k
    → WakesOne line q k (line q) (wq_wake_one q k)
wq_wake_one_lem line q k w = by_line (line q) refl
  where
    chain : (m : List ℕ) → line q ≡ m → Chain k.wq_pool (k.head q) m
    chain m e = subst (Chain k.wq_pool (k.head q)) e (w.chained q)

    by_line : (m : List ℕ) → line q ≡ m → WakesOne line q k m (wq_wake_one q k)
    by_line [] e = unfold wq_wake_one in rw (chain [] e, wq_wake_one)
    by_line (idx ∷ l) e =
        subst (WokeHead line q idx l k) (sym (wake_one-some q idx k (chain (idx ∷ l) e).0))
          (wake_head-WokeHead line k q idx l w e)

-- Waking touches no futex.
pub wq_wake_one-ftable : (q : ℕ) (k : Kernel) → (wq_wake_one q k).1.ftable ≡ k.ftable
unfolding wq_wake_one wake_head pool_free
wq_wake_one-ftable q k = ground arith
