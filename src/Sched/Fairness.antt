-- ===== src/Sched/Fairness.antt =====
-- Rounds of `schedule` on one CPU, with what happens in between.
use dragoon_kernel.Prelude.{
  ℕ, ◌≡◌, suc, ◌<◌, some, true, zero, arith, ◌≢◌, ◌≤◌, Option, Option-cases, inl, subst, inr,
  ℕ_discrete, ap,
}
use dragoon_kernel.Kernel.{Kernel, max_tasks}
use dragoon_kernel.Task.{task_current_id}
use dragoon_kernel.Sched.Rounds.{is_ready, turn_of, Picks, pick_next_lem}
use dragoon_kernel.Sched.{schedule, pick_next, start_of}

module _ (cpu : ℕ) (k : Kernel) where
  picked-current :
      (n : ℕ)
      → pick_next k.tasks (task_current_id cpu k) ≡ some n
      → task_current_id cpu (schedule cpu k).0 ≡ some n
  unfolding schedule
  picked-current n e = rw (e, schedule) (ground arith)

  picked-keeps :
      (n t : ℕ)
      → pick_next k.tasks (task_current_id cpu k) ≡ some n
      → n ≢ t
      → is_ready k.tasks t ≡ true
      → is_ready (schedule cpu k).0.tasks t ≡ true
  unfolding schedule
  picked-keeps n t e ne r = rw (e, schedule) (ground arith)

-- What happens between two calls on this CPU: anything that leaves its current task in place, and
-- leaves `t` ready.
pub record Allows (cpu t : ℕ) (env : ℕ → Kernel → Kernel) : Type 0 where
  pub current_kept : (n : ℕ) (k : Kernel) → task_current_id cpu (env n k) ≡ task_current_id cpu k
  pub ready_kept :
      (n : ℕ) (k : Kernel) → is_ready k.tasks t ≡ true → is_ready (env n k).tasks t ≡ true

-- `n` rounds: each is what the environment does, and then a call of `schedule`.
pub rounds : (ℕ → Kernel → Kernel) → ℕ → ℕ → Kernel → Kernel
rounds env cpu zero k = k
rounds env cpu (suc n) k = rounds (λ m. env (suc m)) cpu n (schedule cpu (env 0 k)).0

-- A task chosen before `t` leaves `t` nearer to its turn.
nearer-turn :
    (start n t d : ℕ)
    → start < 32
    → n < 32
    → t < 32
    → n ≢ t
    → turn_of start n ≤ turn_of start t
    → turn_of start t ≤ suc d
    → turn_of n t ≤ d
nearer-turn start n t d ls ln lt ne le bound = omega arith

served_within :
    (d cpu t : ℕ) (env : ℕ → Kernel → Kernel) (k : Kernel)
    → Allows cpu t env
    → t < max_tasks
    → start_of (task_current_id cpu k) < max_tasks
    → is_ready k.tasks t ≡ true
    → turn_of (start_of (task_current_id cpu k)) t ≤ d
    → (i : ℕ) × (0 < i) × (i ≤ d) × (task_current_id cpu (rounds env cpu i k) ≡ some t)
unfolding rounds
served_within zero cpu t env k a lt s r le = absurd (omega arith)
served_within (suc d) cpu t env k a lt s r le = elim (Option-cases (pick_next k'.tasks cur)) [
  | inl e ↦ absurd (ground (arith, ready', subst (Picks k'.tasks (start_of cur)) e chosen t lt))
  | inr (n, e) ↦ elim (ℕ_discrete n t) [
    | yes here ↦ (1, omega arith, omega arith, rw (picked-current cpu k' n e) (ap some here))
    | no other ↦
        let picks = subst (Picks k'.tasks (start_of cur)) e chosen in
        let now = picked-current cpu k' n e in
        let start : start_of (task_current_id cpu (schedule cpu k').0) ≡ n = rw now in
        let (i, p, l, f) =
          served_within d cpu t (λ m. env (suc m)) (schedule cpu k').0 later lt (rw start picks.0)
            (picked-keeps cpu k' n t e other ready') (rw start (nearer n other picks)) in
        (suc i, omega arith, omega arith, f)
  ]
]
  where
    k' : Kernel
    k' = env 0 k

    cur : Option ℕ
    cur = task_current_id cpu k'

    same : cur ≡ task_current_id cpu k
    same = a.current_kept 0 k

    ready' : is_ready k'.tasks t ≡ true
    ready' = a.ready_kept 0 k r

    chosen : Picks k'.tasks (start_of cur) (pick_next k'.tasks cur)
    chosen = pick_next_lem k'.tasks cur (rw same s)

    later : Allows cpu t (λ m. env (suc m))
    later = record {
      current_kept = λ n j. a.current_kept (suc n) j;
      ready_kept = λ n j. a.ready_kept (suc n) j;
    }

    nearer : (n : ℕ) → n ≢ t → Picks k'.tasks (start_of cur) (some n) → turn_of n t ≤ d
    nearer n ne picks =
        nearer-turn (start_of cur) n t d (rw same s) picks.0 lt ne (picks.2 t lt ready')
          (rw same le)

-- A ready task of the table becomes the current task of a CPU within 32 calls of `schedule` on that
-- CPU, if the CPU's current task, when it has one, is in the table, and if what happens before each
-- call leaves that CPU's current task in place and the ready task ready.
pub schedule_serves :
    (cpu t : ℕ) (env : ℕ → Kernel → Kernel) (k : Kernel)
    → Allows cpu t env
    → t < max_tasks
    → start_of (task_current_id cpu k) < max_tasks
    → is_ready k.tasks t ≡ true
    → (i : ℕ) × (0 < i) × (i ≤ max_tasks) × (task_current_id cpu (rounds env cpu i k) ≡ some t)
schedule_serves cpu t env k a lt s r = served_within max_tasks cpu t env k a lt s r (omega arith)
