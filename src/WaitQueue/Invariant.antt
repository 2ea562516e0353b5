-- ===== src/WaitQueue/Invariant.antt =====
-- The queues as lists of entries: `line q` is the queue at the address `q`, first waiter first.
use dragoon_kernel.Prelude.{
  has, Distinct, remove, length, length-le-bound, ℕ, List, ◌≡◌, ◌≤◌, true, false, ◌<◌, ◌≢◌, ◌++◌,
  arith, some, ◌∷◌, [], none, ◌==◌, subst, ℕ_discrete, ==_iff, refl, ap, update, sym, ◌∙◌,
}
use dragoon_kernel.Kernel.{Kernel, WqEntry}
use dragoon_kernel.WaitQueue.Chain.{
  Chain, Chain-ext, last_of, last_of-Chain, append-Chain, remove-Chain, find_prev,
}
use dragoon_kernel.WaitQueue.{wq_pool_size, set_next, queue_append, queue_remove}

-- Each queue's links run through its line; an entry stands in one line at most, once, and then is in
-- use and knows its queue; and every entry in use stands in the line of its owner.
pub record IsQueued (line : ℕ → List ℕ) (k : Kernel) : Type 0 where
  pub chained : (q : ℕ) → Chain k.wq_pool (k.head q) (line q)
  pub distinct : (q : ℕ) → Distinct (line q)
  pub in_pool : (q i : ℕ) → has (line q) i ≡ true → i < wq_pool_size
  pub in_use : (q i : ℕ) → has (line q) i ≡ true → (k.wq_pool i).in_use ≡ true
  pub owned : (q i : ℕ) → has (line q) i ≡ true → (k.wq_pool i).owner ≡ some q
  pub covered :
      (i : ℕ)
      → i < wq_pool_size
      → (k.wq_pool i).in_use ≡ true
      → (q : ℕ) × ((k.wq_pool i).owner ≡ some q) × (has (line q) i ≡ true)

-- No line is longer than the pool: the fuel of the loops is enough.
pub line-short :
    (line : ℕ → List ℕ) (k : Kernel) → IsQueued line k → (q : ℕ) → length (line q) ≤ wq_pool_size
line-short line k w q = length-le-bound wq_pool_size (line q) (w.distinct q) (w.in_pool q)

-- `k'` differs from `k` in the links of the line `l` and of the entry `idx`, and in the head of `q`.
pub record Relinked (k k' : Kernel) (q idx : ℕ) (l : List ℕ) : Type 0 where
  pub links : (j : ℕ) → has l j ≡ false → idx ≢ j → (k'.wq_pool j).next ≡ (k.wq_pool j).next
  pub used_kept : (j : ℕ) → (k'.wq_pool j).in_use ≡ (k.wq_pool j).in_use
  pub owner_kept : (j : ℕ) → (k'.wq_pool j).owner ≡ (k.wq_pool j).owner
  pub task_kept : (j : ℕ) → (k'.wq_pool j).task_id ≡ (k.wq_pool j).task_id
  pub timeout_kept : (j : ℕ) → (k'.wq_pool j).timeout_tick ≡ (k.wq_pool j).timeout_tick
  pub heads : (r : ℕ) → q ≢ r → k'.head r ≡ k.head r

-- The queue `q` now has the line `l'`; `l` was its line.
abbrev pub Becomes : Kernel → ℕ → ℕ → List ℕ → List ℕ → Kernel → Type 0
Becomes k q idx l l' k' = Chain k'.wq_pool (k'.head q) l' × Relinked k k' q idx l

append-empty :
    (q idx : ℕ) (k : Kernel)
    → k.head q ≡ none
    → queue_append q idx k
      ≡ record k { wq_pool = set_next idx none k.wq_pool; head = update k.head q (some idx) }
unfolding queue_append
append-empty q idx k e = rw (e, queue_append)

append-last :
    (q idx i : ℕ) (k : Kernel)
    → k.head q ≡ some i
    → queue_append q idx k ≡ record k {
      wq_pool =
          set_next
            (last_of wq_pool_size (set_next idx none k.wq_pool) i)
            (some idx)
            (set_next idx none k.wq_pool);
    }
unfolding queue_append
append-last q idx i k e = rw (e, queue_append)

-- `queue_append` links an entry that stands in no line behind the last of the line.
pub queue_append_lem :
    (q idx : ℕ) (l : List ℕ) (k : Kernel)
    → Chain k.wq_pool (k.head q) l
    → Distinct l
    → has l idx ≡ false
    → length l ≤ wq_pool_size
    → Becomes k q idx l (l ++ idx ∷ []) (queue_append q idx k)
queue_append_lem q idx [] k c d n h =
    subst (Becomes k q idx [] (idx ∷ [])) (sym (append-empty q idx k c)) (
      ground arith,
      record {
        links = λ j m ne. ground arith;
        used_kept = λ j. ground arith;
        owner_kept = λ j. ground arith;
        task_kept = λ j. ground arith;
        timeout_kept = λ j. ground arith;
        heads = λ r ne. ground arith;
      },
    )
queue_append_lem q idx (i ∷ l) k c d n h =
    subst (Becomes k q idx (i ∷ l) (i ∷ l ++ idx ∷ [])) (sym (append-last q idx i k c.0)) (
      (
        c.0,
        append-Chain wq_pool_size p p' i idx l linked d n (ground arith) (omega arith)
            (λ j. ground arith),
      ),
      record {
        links = λ j m ne. ground (arith, walk.1);
        used_kept = λ j. ground arith;
        owner_kept = λ j. ground arith;
        task_kept = λ j. ground arith;
        timeout_kept = λ j. ground arith;
        heads = λ r ne. refl;
      },
    )
  where
    p : ℕ → WqEntry
    p = set_next idx none k.wq_pool

    p' : ℕ → WqEntry
    p' = set_next (last_of wq_pool_size p i) (some idx) p

    linked : Chain p (p i).next l
    linked =
        subst (λ m. Chain p m l) (ground arith)
          (Chain-ext k.wq_pool p (k.wq_pool i).next l (λ j m. ground arith) c.1)

    walk :
        ((p (last_of wq_pool_size p i)).next ≡ none)
        × (has (i ∷ l) (last_of wq_pool_size p i) ≡ true)
    walk = last_of-Chain wq_pool_size p i l linked (omega arith)

pub remove-first :
    (q idx : ℕ) (k : Kernel)
    → k.head q ≡ some idx
    → queue_remove q idx k ≡ record k { head = update k.head q (k.wq_pool idx).next }
unfolding queue_remove
remove-first q idx k e = rw (e, queue_remove) (ground arith)

remove-inner :
    (q idx i prev : ℕ) (k : Kernel)
    → k.head q ≡ some i
    → i ≢ idx
    → find_prev wq_pool_size k.wq_pool idx (some i) ≡ some prev
    → queue_remove q idx k ≡ record k { wq_pool = set_next prev (k.wq_pool idx).next k.wq_pool }
unfolding queue_remove
remove-inner q idx i prev k e ne f = rw (e, queue_remove) (ground arith)

-- `queue_remove` unlinks an entry of the line.
pub queue_remove_lem :
    (q idx : ℕ) (l : List ℕ) (k : Kernel)
    → Chain k.wq_pool (k.head q) l
    → Distinct l
    → has l idx ≡ true
    → length l ≤ wq_pool_size
    → Becomes k q idx l (remove idx l) (queue_remove q idx k)
queue_remove_lem q idx [] k c d n h = absurd (ground arith)
queue_remove_lem q idx (i ∷ l) k c d n h = elim (ℕ_discrete i idx) [
  | yes here ↦
      subst (Becomes k q idx (i ∷ l) (remove idx (i ∷ l)))
        (sym (remove-first q idx k (c.0 ∙ ap some here)))
        (
          rw ((==_iff i idx).1 here) (
              subst (λ m. Chain k.wq_pool m l) (ground (arith, ap (λ m. (k.wq_pool m).next) here))
                c.1),
          record {
            links = λ j m ne. refl;
            used_kept = λ j. refl;
            owner_kept = λ j. refl;
            task_kept = λ j. refl;
            timeout_kept = λ j. refl;
            heads = λ r ne. ground arith;
          },
        )
  | no past ↦
      let (prev, e, b, f) =
        remove-Chain wq_pool_size k.wq_pool i idx l c.1 d (ground arith) (omega arith) in
      subst (Becomes k q idx (i ∷ l) (remove idx (i ∷ l)))
        (sym (remove-inner q idx i prev k c.0 past e))
        (
          rw (other past)
              (c.0, f (set_next prev (k.wq_pool idx).next k.wq_pool) (λ j. ground arith)),
          record {
            links = λ j m ne. ground (arith, b);
            used_kept = λ j. ground arith;
            owner_kept = λ j. ground arith;
            task_kept = λ j. ground arith;
            timeout_kept = λ j. ground arith;
            heads = λ r ne. refl;
          },
        )
]
  where
    other : i ≢ idx → (i == idx) ≡ false
    other past = ground arith
