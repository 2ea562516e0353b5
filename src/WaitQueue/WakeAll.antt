-- ===== src/WaitQueue/WakeAll.antt =====
-- The loop of `wq_wake_all`.
use dragoon_kernel.Prelude.{
  length, ℕ, List, ◌≡◌, true, update, arith, sym, some, Bool, ◌∷◌, subst, map, [], ap, ◌≤◌, refl,
  none, suc, fun_ext, zero, if◌then◌else◌, ◌∙◌, false,
}
use dragoon_kernel.Prelude.Int.{pos}
use dragoon_kernel.Kernel.{Kernel, Task}
use dragoon_kernel.WaitQueue.Chain.{Chain}
use dragoon_kernel.WaitQueue.Invariant.{IsQueued, line-short}
use dragoon_kernel.WaitQueue.Readied.{readied}
use dragoon_kernel.WaitQueue.Wake.{WokeHead, wake_head-WokeHead}
use dragoon_kernel.WaitQueue.{wq_pool_size, wake_head, wake_loop, wq_wake_all}

-- Those of a list of tasks that are blocked become ready, first to last.
unfoldable pub wake_each : List ℕ → (ℕ → Task) → ℕ → Task
wake_each [] tasks = tasks
wake_each (t ∷ l) tasks = wake_each l (readied t (pos 0) tasks)

abbrev pub waiters : (ℕ → List ℕ) → ℕ → Kernel → List ℕ
waiters line q k = map (λ i. (k.wq_pool i).task_id) (line q)

-- The queue `q` is empty, other lines are as they were, and those of the tasks `ts` that were blocked are ready.
pub record WokeAll (line : ℕ → List ℕ) (q : ℕ) (ts : List ℕ) (k k' : Kernel) : Type 0 where
  pub queued : IsQueued (update line q []) k'
  pub woken : k'.tasks ≡ wake_each ts k.tasks

loop-none :
    (fuel q : ℕ) (woke : Bool) (k : Kernel) → k.head q ≡ none → wake_loop fuel q woke k ≡ (woke, k)
unfolding wake_loop
loop-none zero q woke k e = refl
loop-none (suc fuel) q woke k e = rw (e, wake_loop)

loop-some :
    (fuel q : ℕ) (woke : Bool) (idx : ℕ) (k : Kernel)
    → k.head q ≡ some idx
    → wake_loop (suc fuel) q woke k
      ≡ wake_loop fuel q (if (wake_head q idx k).0 then true else woke) (wake_head q idx k).1
unfolding wake_loop
loop-some fuel q woke idx k e = rw (e, wake_loop)

wake_loop-WokeAll :
    (fuel q : ℕ) (woke : Bool) (l : List ℕ) (line : ℕ → List ℕ) (k : Kernel)
    → IsQueued line k
    → line q ≡ l
    → length l ≤ fuel
    → WokeAll line q (map (λ i. (k.wq_pool i).task_id) l) k (wake_loop fuel q woke k).1
unfolding wake_each
wake_loop-WokeAll fuel q woke [] line k w e h =
    subst (λ r. WokeAll line q [] k r.1) (sym (loop-none fuel q woke k empty))
      (record { queued = subst (λ m. IsQueued m k) (fun_ext (λ r. emptied r)) w; woken = refl })
  where
    empty : k.head q ≡ none
    empty = subst (Chain k.wq_pool (k.head q)) e (w.chained q)

    emptied : (r : ℕ) → line r ≡ update line q [] r
    emptied r = ground (arith, e)
wake_loop-WokeAll zero q woke (idx ∷ l) line k w e h = absurd (omega arith)
wake_loop-WokeAll (suc fuel) q woke (idx ∷ l) line k w e h =
    let rest =
      wake_loop-WokeAll fuel q again l (update line q l) k' step.queued (ground arith)
        (omega arith) in
    subst (λ r. WokeAll line q (map (λ i. (k.wq_pool i).task_id) (idx ∷ l)) k r.1)
      (sym (loop-some fuel q woke idx k chain.0))
      (record {
        queued =
            subst (λ m. IsQueued m (wake_loop fuel q again k').1) (fun_ext (λ r. ground arith))
              rest.queued;
        woken =
            rest.woken
            ∙ ap (λ f. wake_each (map f l) k'.tasks) (fun_ext step.task_kept)
            ∙ ap (wake_each (map (λ i. (k.wq_pool i).task_id) l)) step.woken;
      })
  where
    chain : Chain k.wq_pool (k.head q) (idx ∷ l)
    chain = subst (Chain k.wq_pool (k.head q)) e (w.chained q)

    k' : Kernel
    k' = (wake_head q idx k).1

    again : Bool
    again = if (wake_head q idx k).0 then true else woke

    step : WokeHead line q idx l k (wake_head q idx k)
    step = wake_head-WokeHead line k q idx l w e

-- With the queues in good order, the loop of `wq_wake_all` empties the queue within 64 rounds: every
-- task that waits in it and is blocked becomes ready with the reason 0, the longest waiting first, no
-- other task changes, and the queues are in good order with that line empty and the others as they
-- were.
pub wq_wake_all_lem :
    (line : ℕ → List ℕ) (q : ℕ) (k : Kernel)
    → IsQueued line k
    → WokeAll line q (waiters line q k) k (wq_wake_all q k).1
unfolding wq_wake_all
wq_wake_all_lem line q k w =
    wake_loop-WokeAll wq_pool_size q false (line q) line k w refl (line-short line k w q)
