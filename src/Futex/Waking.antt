-- ===== src/Futex/Waking.antt =====
-- The loop of `futex_wake`: how many are woken, and whom.
use dragoon_kernel.Prelude.{
  ℕ, zero, suc, ◌+◌, List, [], ◌∷◌, ◌≡◌, ◌≤◌, ◌<◌, none, some, arith, refl, update, map, length,
  subst, sym, ap, ◌∙◌, fun_ext, true,
}
use dragoon_kernel.Prelude.Int.{pos}
use dragoon_kernel.Kernel.{Kernel}
use dragoon_kernel.WaitQueue.Invariant.{IsQueued}
use dragoon_kernel.WaitQueue.Chain.{Chain}
use dragoon_kernel.WaitQueue.Readied.{readied}
use dragoon_kernel.WaitQueue.WakeAll.{wake_each}
use dragoon_kernel.WaitQueue.Wake.{wq_wake_one-ftable, WokeHead, WakesOne, wq_wake_one_lem}
use dragoon_kernel.WaitQueue.{wq_wake_one}
use dragoon_kernel.Futex.{Meddlers, wake_up_to}

-- The first `n` of a list, and the others.
abbrev pub take : ℕ → List ℕ → List ℕ
take zero l = []
take (suc n) [] = []
take (suc n) (x ∷ l) = x ∷ take n l

abbrev pub drop : ℕ → List ℕ → List ℕ
drop zero l = l
drop (suc n) [] = []
drop (suc n) (x ∷ l) = drop n l

-- Two kernels with the same queues, futexes and tasks.
pub record Same (k k' : Kernel) : Type 0 where
  pub pool : k'.wq_pool ≡ k.wq_pool
  pub heads : k'.head ≡ k.head
  pub slots : k'.ftable ≡ k.ftable
  pub tasks : k'.tasks ≡ k.tasks

-- The others touch neither the queues, nor the futexes, nor the tasks.
pub record IsQuiet (o : Meddlers) : Type 0 where
  pub before_test : (n : ℕ) (k : Kernel) → Same k (o.before_test n k)
  pub before_wake : (n : ℕ) (k : Kernel) → Same k (o.before_wake n k)
  pub before_lock : (k : Kernel) → Same k (o.before_lock k)

Same-trans : (k k' k'' : Kernel) → Same k k' → Same k' k'' → Same k k''
Same-trans k k' k'' a b = record {
  pool = b.pool ∙ a.pool;
  heads = b.heads ∙ a.heads;
  slots = b.slots ∙ a.slots;
  tasks = b.tasks ∙ a.tasks;
}

pub Same-IsQueued :
    (line : ℕ → List ℕ) (k k' : Kernel) → Same k k' → IsQueued line k → IsQueued line k'
Same-IsQueued line k k' e w = record {
  chained = λ q. rw (e.pool, e.heads) (w.chained q);
  distinct = w.distinct;
  in_pool = w.in_pool;
  in_use = λ q i m. rw e.pool (w.in_use q i m);
  owned = λ q i m. rw e.pool (w.owned q i m);
  covered = λ i l m.
      let (q, o, h) = w.covered i l (subst (λ p. (p i).in_use ≡ true) e.pool m) in
      (q, rw e.pool o, h);
}

-- At most `n` waiters of the line `l` of `q`, the longest waiting first, are woken; the others still
-- wait; and `woken` has grown from `from` by how many were.
pub record WokeUpTo (line : ℕ → List ℕ) (q : ℕ) (l : List ℕ) (n from : ℕ) (k : Kernel)
    (r : ℕ × Kernel) : Type 0 where
  pub count : r.0 ≡ from + length (take n l)
  pub queued : IsQueued (update line q (drop n l)) r.1
  pub tasks : r.1.tasks ≡ wake_each (take n (map (λ i. (k.wq_pool i).task_id) l)) k.tasks

stops-counted : (o : Meddlers) (fuel q w : ℕ) (k : Kernel) → wake_up_to o fuel q w w k ≡ (w, k)
unfolding wake_up_to
stops-counted o zero q w k = refl
stops-counted o (suc fuel) q w k = ground arith

stops-empty :
    (o : Meddlers) (fuel q n w : ℕ) (k : Kernel)
    → (o.before_test w k).head q ≡ none
    → w < n
    → wake_up_to o (suc fuel) q n w k ≡ (w, o.before_test w k)
unfolding wake_up_to
stops-empty o fuel q n w k e lt = rw e (ground (arith, lt))

goes_on :
    (o : Meddlers) (fuel q n w e : ℕ) (k : Kernel)
    → (o.before_test w k).head q ≡ some e
    → w < n
    → wake_up_to o (suc fuel) q n w k
      ≡ wake_up_to o fuel q n (w + 1) (wq_wake_one q (o.before_wake w (o.before_test w k))).1
unfolding wake_up_to
goes_on o fuel q n w e k h lt = rw h (ground (arith, lt))

woke_none :
    (line : ℕ → List ℕ) (q : ℕ) (l : List ℕ) (n w : ℕ) (k k' : Kernel)
    → IsQueued line k
    → Same k k'
    → line q ≡ l
    → take n l ≡ []
    → drop n l ≡ l
    → take n (map (λ i. (k.wq_pool i).task_id) l) ≡ []
    → WokeUpTo line q l n w k (w, k')
unfolding wake_each
woke_none line q l n w k k' i a e t d m = record {
  count = rw t (ground arith);
  queued = subst (λ f. IsQueued f k') (fun_ext (λ r. same r)) (Same-IsQueued line k k' a i);
  tasks = a.tasks ∙ sym (ap (λ ts. wake_each ts k.tasks) m);
}
  where
    same : (r : ℕ) → line r ≡ update line q (drop n l) r
    same r = rw d (ground (arith, e))

woke_more :
    (line : ℕ → List ℕ) (q n w idx : ℕ) (l : List ℕ) (k k₁ : Kernel) (r : ℕ × Kernel)
    → ((j : ℕ) → (k₁.wq_pool j).task_id ≡ (k.wq_pool j).task_id)
    → k₁.tasks ≡ readied (k.wq_pool idx).task_id (pos 0) k.tasks
    → WokeUpTo (update line q l) q l n (w + 1) k₁ r
    → WokeUpTo line q (idx ∷ l) (suc n) w k r
unfolding wake_each
woke_more line q n w idx l k k₁ r same woke rest = record {
  count = ground (arith, rest.count);
  queued = subst (λ m. IsQueued m r.1) (fun_ext (λ j. ground arith)) rest.queued;
  tasks =
      rest.tasks
      ∙ ap (λ f. wake_each (take n (map f l)) k₁.tasks) (fun_ext same)
      ∙ ap (wake_each (take n (map (λ i. (k.wq_pool i).task_id) l))) woke;
}

Same-refl : (k : Kernel) → Same k k
Same-refl k = record { pool = refl; heads = refl; slots = refl; tasks = refl }

-- The kernel in which the next task is woken.
abbrev met : Meddlers → ℕ → Kernel → Kernel
met o w k = o.before_wake w (o.before_test w k)

met-Same : (o : Meddlers) → IsQuiet o → (w : ℕ) (k : Kernel) → Same k (met o w k)
met-Same o h w k =
    Same-trans k (o.before_test w k) (met o w k) (h.before_test w k)
      (h.before_wake w (o.before_test w k))

head-test :
    (o : Meddlers)
    → IsQuiet o
    → (line : ℕ → List ℕ) (q w : ℕ) (l : List ℕ) (k : Kernel) → IsQueued line k
    → line q ≡ l
    → Chain (o.before_test w k).wq_pool ((o.before_test w k).head q) l
head-test o h line q w l k i e =
    subst (Chain (o.before_test w k).wq_pool ((o.before_test w k).head q)) e
      ((Same-IsQueued line k (o.before_test w k) (h.before_test w k) i).chained q)

-- One more is woken, and the others do as before.
woke_met :
    (o : Meddlers)
    → IsQuiet o
    → (line : ℕ → List ℕ) (q n w idx : ℕ) (l : List ℕ) (k : Kernel) (r : ℕ × Kernel)
    → WokeHead line q idx l (met o w k) (wq_wake_one q (met o w k))
    → WokeUpTo (update line q l) q l n (w + 1) (wq_wake_one q (met o w k)).1 r
    → WokeUpTo line q (idx ∷ l) (suc n) w k r
woke_met o h line q n w idx l k r step rest =
    let e = met-Same o h w k in
    woke_more line q n w idx l k (wq_wake_one q (met o w k)).1 r
      (λ j. step.task_kept j ∙ ap (λ p. (p j).task_id) e.pool)
      (step.woken
        ∙ ap (λ p. readied (p idx).task_id (pos 0) (met o w k).tasks) e.pool
        ∙ ap (readied (k.wq_pool idx).task_id (pos 0)) e.tasks)
      rest

pub wake_up_to-WokeUpTo :
    (o : Meddlers)
    → IsQuiet o
    → (fuel q n w count : ℕ) (l : List ℕ) (line : ℕ → List ℕ) (k : Kernel) → IsQueued line k
    → line q ≡ l
    → n ≤ fuel
    → w + n ≡ count
    → WokeUpTo line q l n w k (wake_up_to o fuel q count w k)
wake_up_to-WokeUpTo o s fuel q zero w count l line k i e h c =
    let same : w ≡ count = omega arith in
    subst (WokeUpTo line q l zero w k) (sym (rw (← same) (stops-counted o fuel q w k)))
      (woke_none line q l zero w k k i (Same-refl k) e refl refl refl)
wake_up_to-WokeUpTo o s zero q (suc n) w count l line k i e h c = absurd (omega arith)
wake_up_to-WokeUpTo o s (suc fuel) q (suc n) w count [] line k i e h c =
    subst (WokeUpTo line q [] (suc n) w k)
      (sym (stops-empty o fuel q count w k (head-test o s line q w [] k i e) (omega arith)))
      (woke_none line q [] (suc n) w k (o.before_test w k) i (s.before_test w k) e refl refl refl)
wake_up_to-WokeUpTo o s (suc fuel) q (suc n) w count (idx ∷ l) line k i e h c =
    let there = Same-IsQueued line k (met o w k) (met-Same o s w k) i in
    let step =
      subst (λ m. WakesOne line q (met o w k) m (wq_wake_one q (met o w k))) e
        (wq_wake_one_lem line q (met o w k) there) in
    let rest =
      wake_up_to-WokeUpTo o s fuel q n (w + 1) count l (update line q l)
        (wq_wake_one q (met o w k)).1 step.queued (ground arith) (omega arith) (omega arith) in
    subst (WokeUpTo line q (idx ∷ l) (suc n) w k)
      (sym
        (goes_on o fuel q count w idx k (head-test o s line q w (idx ∷ l) k i e).0 (omega arith)))
      (woke_met o s line q n w idx l k
        (wake_up_to o fuel q count (w + 1) (wq_wake_one q (met o w k)).1) step rest)

pub wake_up_to-ftable :
    (o : Meddlers)
    → IsQuiet o
    → (fuel q n w : ℕ) (k : Kernel) → (wake_up_to o fuel q n w k).1.ftable ≡ k.ftable
unfolding wake_up_to
wake_up_to-ftable o s zero q n w k = refl
wake_up_to-ftable o s (suc fuel) q n w k =
    let rest =
      wake_up_to-ftable o s fuel q n (w + 1) (wq_wake_one q (met o w k)).1
      ∙ wq_wake_one-ftable q (met o w k)
      ∙ (met-Same o s w k).slots in
    ground (arith, rest, (s.before_test w k).slots)
