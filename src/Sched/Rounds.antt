-- ===== src/Sched/Rounds.antt =====
-- The order in which `schedule` serves ready tasks.
use dragoon_kernel.Prelude.{
  ℕ, ◌+◌, Bool, ◌-◌, Option, ◌≡◌, ◌<◌, ◌%◌, false, arith, Option-cases, some, find_from, true, inl,
  ◌≤◌, inr, sym, ◌∙◌, dec_lt, none,
}
use dragoon_kernel.Prelude.Loops.{find_from-some, find_from-none}
use dragoon_kernel.Kernel.{Task, ready, max_tasks}
use dragoon_kernel.Task.{state_eq}
use dragoon_kernel.Sched.{pick_next, start_of, ready_at}

abbrev pub is_ready : (ℕ → Task) → ℕ → Bool
is_ready tasks t = state_eq (tasks t).state ready

-- The round of the scan from `start` in which the task `t` is looked at: 1 for its successor, 32 for
-- `start` itself.
abbrev pub turn_of : ℕ → ℕ → ℕ
turn_of start t = (t + 31 - start) % 32 + 1

-- No task is ready, and none is chosen; or the ready task is chosen whose turn comes first.
abbrev pub Picks : (ℕ → Task) → ℕ → Option ℕ → Type 0
Picks tasks start none = (t : ℕ) → t < max_tasks → is_ready tasks t ≡ false
Picks tasks start (some n) =
    (n < max_tasks)
    × (is_ready tasks n ≡ true)
    × ((t : ℕ) → t < max_tasks → is_ready tasks t ≡ true → turn_of start n ≤ turn_of start t)

ready_at-is_ready :
    (tasks : ℕ → Task) (start i : ℕ) → ready_at tasks start i ≡ is_ready tasks ((start + i) % 32)
ready_at-is_ready tasks start i = grind arith

-- From a current task of the table, or an idle CPU, `pick_next` picks no task only when none is ready;
-- otherwise it picks the ready task whose turn comes first after the current one, or after task 0 on
-- an idle CPU.
pub pick_next_lem :
    (tasks : ℕ → Task) (cur : Option ℕ)
    → start_of cur < max_tasks
    → Picks tasks (start_of cur) (pick_next tasks cur)
unfolding pick_next
pick_next_lem tasks cur lt = elim (Option-cases (find_from max_tasks 1 (ready_at tasks start))) [
  | inl e ↦
      rw (e, pick_next)
        (λ t l. at_turn t l (find_from-none 32 1 _ e (turn_of start t) (omega arith) (omega arith)))
  | inr (i, e) ↦
      let found = find_from-some 32 1 (ready_at tasks start) i e in
      rw (e, pick_next)
        (
          omega arith,
          sym (ready_at-is_ready tasks start i) ∙ found.passes,
          λ t l r. elim (dec_lt (turn_of start t) i) [
            | yes sooner ↦ absurd (
                ground (arith, r, at_turn t l (found.least (turn_of start t) (omega arith) sooner)))
            | no later ↦ omega (arith, found.from, found.below)
          ],
        )
]
  where
    start : ℕ
    start = start_of cur

    at_turn :
        (t : ℕ) → t < 32 → ready_at tasks start (turn_of start t) ≡ false → is_ready tasks t ≡ false
    at_turn t l e =
        let here : (start + turn_of start t) % 32 ≡ t = omega arith in
        rw (ready_at-is_ready tasks start (turn_of start t), here) at e

-- Whoever is chosen is ready.
pub picked-is_ready :
    (tasks : ℕ → Task) (cur : Option ℕ) (n : ℕ)
    → pick_next tasks cur ≡ some n
    → is_ready tasks n ≡ true
unfolding pick_next
picked-is_ready tasks cur n e =
    elim (Option-cases (find_from max_tasks 1 (ready_at tasks (start_of cur)))) [
      | inl none_found ↦ absurd (ground (arith, rw (none_found, pick_next) at e))
      | inr (i, found) ↦
          let here : (start_of cur + i) % 32 ≡ n = ground (arith, rw (found, pick_next) at e) in
          rw (← here) (
            sym (ready_at-is_ready tasks (start_of cur) i)
            ∙ (find_from-some 32 1 (ready_at tasks (start_of cur)) i found).passes)
    ]
