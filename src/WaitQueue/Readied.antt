-- ===== src/WaitQueue/Readied.antt =====
-- A task made ready or blocked, and a wait that has run out, described without the operations.
use dragoon_kernel.Prelude.{
  ℕ, ◌≡◌, Bool, true, false, not, ◌&&◌, ltb, leb, ◌==◌, if◌then◌else◌, arith, fun_ext, refl,
}
use dragoon_kernel.Prelude.Int.{ℤ, pos}
use dragoon_kernel.Kernel.{Task, TaskState, dead, ready, running, blocked, WqEntry}
use dragoon_kernel.Task.{state_eq}
use dragoon_kernel.WaitQueue.{wake, block_task, is_expired}

abbrev is_blocked : TaskState → Bool
is_blocked dead = false
is_blocked ready = false
is_blocked running = false
is_blocked blocked = true

-- Is `tid` one of the 32 tasks, and blocked?
pub was_blocked : ℕ → (ℕ → Task) → Bool
was_blocked tid tasks = ltb tid 32 && is_blocked (tasks tid).state

-- The tasks after `tid`, if it was blocked, has become ready for this reason.
pub readied : ℕ → ℤ → (ℕ → Task) → ℕ → Task
unfolding was_blocked
readied tid reason tasks j =
    if (tid == j) && was_blocked tid tasks
    then record (tasks j) { wakeup_reason = reason; state = ready }
    else tasks j

blocked_lem : (s : TaskState) → state_eq s blocked ≡ is_blocked s
blocked_lem dead = refl
blocked_lem ready = refl
blocked_lem running = refl
blocked_lem blocked = refl

blocked-live : (s : TaskState) → is_blocked s ≡ true → state_eq s dead ≡ false
blocked-live dead e = absurd (ground (arith, e))
blocked-live ready e = refl
blocked-live running e = refl
blocked-live blocked e = refl

pub wake-readied :
    (tid : ℕ) (reason : ℤ) (tasks : ℕ → Task) → (wake tid reason tasks).1 ≡ readied tid reason tasks
unfolding readied was_blocked
wake-readied tid reason tasks =
    fun_ext (λ j. ground (arith, blocked_lem (tasks tid).state, blocked-live (tasks tid).state))

pub wake-was_blocked :
    (tid : ℕ) (reason : ℤ) (tasks : ℕ → Task) → (wake tid reason tasks).0 ≡ was_blocked tid tasks
unfolding was_blocked
wake-was_blocked tid reason tasks =
    ground (arith, blocked_lem (tasks tid).state, blocked-live (tasks tid).state)

abbrev is_live : TaskState → Bool
is_live dead = false
is_live ready = true
is_live running = true
is_live blocked = true

-- The tasks after `tid`, if it is a live one of the 32, is blocked.
pub asleep : ℕ → (ℕ → Task) → ℕ → Task
asleep tid tasks j =
    if (tid == j) && (ltb tid 32 && is_live (tasks tid).state)
    then record (tasks j) { wakeup_reason = pos 0; state = blocked }
    else tasks j

live_lem : (s : TaskState) → state_eq s dead ≡ not (is_live s)
live_lem dead = refl
live_lem ready = refl
live_lem running = refl
live_lem blocked = refl

pub block_task-asleep : (tid : ℕ) (tasks : ℕ → Task) → block_task tid tasks ≡ asleep tid tasks
unfolding asleep
block_task-asleep tid tasks = fun_ext (λ j. ground (arith, live_lem (tasks tid).state))

-- Is the entry in use with a deadline, and is that not after `now`?
abbrev pub has_run_out : ℕ → WqEntry → Bool
has_run_out now e = e.in_use && (not (e.timeout_tick == 0) && leb e.timeout_tick now)

pub is_expired-has_run_out : (now : ℕ) (e : WqEntry) → is_expired now e ≡ has_run_out now e
is_expired-has_run_out now e = ground arith
