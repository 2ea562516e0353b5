-- ===== src/Futex.antt =====
-- kernel/futex.c: a task waits until another wakes it, if a word of memory holds what it expects.
-- kernel/sleep.c: the queue of the sleeping tasks. The wait queue of the futex slot `i` is the queue at
-- the address `i`, and `sleep_wq` the one at 16.
pub mod Slots
pub mod Waking
pub mod Wake
mod Tests
use dragoon_kernel.Prelude.{
  ℕ, zero, suc, ◌+◌, ◌*◌, ◌/◌, ◌%◌, ◌^◌, Bool, true, false, not, ◌&&◌, ltb, Option, none, some,
  update, ◌==◌, if◌then◌else◌, find_from, for_range,
}
use dragoon_kernel.Prelude.Int.{ℤ, pos, negsuc, minus_one}
use dragoon_kernel.Kernel.{Kernel, FutexSlot}
use dragoon_kernel.WaitQueue.{wq_init, wq_wait, wq_wait_timeout, wq_wake_one, wq_pool_size}

abbrev pub futex_max : ℕ
futex_max = 16

abbrev pub sleep_wq : ℕ
sleep_wq = 16

-- The 32-bit word at an address that is a multiple of 4, of memory kept in 64-bit words.
abbrev pub read_u32 : (ℕ → ℕ) → ℕ → ℕ
read_u32 memory addr = memory (addr / 8 * 8) / 2 ^ (8 * (addr % 8)) % 2 ^ 32

abbrev pub set_slot : ℕ → FutexSlot → Kernel → Kernel
set_slot i s k = record k { ftable = update k.ftable i s }

pub futex_init : Kernel → Kernel
futex_init k =
    for_range futex_max 0 (λ i t. wq_init i (set_slot i (record { addr = 0; active = false }) t)) k

abbrev pub slot_has : Kernel → ℕ → ℕ → Bool
slot_has k addr i = (k.ftable i).active && (k.ftable i).addr == addr

abbrev pub slot_free : Kernel → ℕ → Bool
slot_free k i = not (k.ftable i).active

-- A free slot is set up for `addr`.
abbrev pub open_slot : ℕ → ℕ → Kernel → Kernel
open_slot addr i k = record k {
  ftable = update k.ftable i (record { addr = addr; active = true });
  head = update k.head i none;
}

-- The slot of `addr`; else, when one is wanted, the first free slot.
pub find_slot : ℕ → Bool → Kernel → Option ℕ × Kernel
find_slot addr create k = elim (find_from futex_max 0 (slot_has k addr)) [
  | some i ↦ (some i, k)
  | none ↦
      if create
      then (elim (find_from futex_max 0 (slot_free k)) [
        | none ↦ (none, k)
        | some i ↦ (some i, open_slot addr i k)
      ])
      else (none, k)
]

pub maybe_free_slot : ℕ → Kernel → Kernel
maybe_free_slot i k = elim (k.head i) [
  | none ↦ set_slot i (record (k.ftable i) { active = false }) k
  | some e ↦ k
]

-- What other tasks and CPUs do during a wait: while the lock is held, but may write the word; after the
-- lock is released and before the queue's lock is taken; while the caller does not run; and
-- after it runs again, until it has the lock.
pub record Others : Type 0 where
  pub rewrite : Kernel → Kernel
  pub slip_in : Kernel → Kernel
  pub meanwhile : Kernel → Kernel
  pub afterwards : Kernel → Kernel

-- What both forms of waiting do before they wait; the slot, if the word was as expected both times.
pub futex_enter : Others → ℕ → ℕ → Kernel → Option ℕ × Kernel
unfolding find_slot maybe_free_slot
futex_enter o addr expected k =
    if not (read_u32 k.vm.mm.memory addr == expected)
    then (none, k)
    else let (found, k₁) = find_slot addr true k in
      elim found [
        | none ↦ (none, k₁)
        | some slot ↦
            let k₂ = o.rewrite k₁ in
            if not (read_u32 k₂.vm.mm.memory addr == expected)
            then (none, maybe_free_slot slot k₂)
            else (some slot, o.slip_in k₂)
      ]

pub futex_wait : Others → ℕ → ℕ → ℕ → Kernel → ℤ × Kernel
unfolding futex_enter maybe_free_slot
futex_wait o cpu addr expected k =
    let (found, k₁) = futex_enter o addr expected k in
    elim found [
      | none ↦ (minus_one, k₁)
      | some slot ↦ (pos 0, maybe_free_slot slot (o.afterwards (wq_wait o.meanwhile cpu slot k₁)))
    ]

pub futex_wait_timeout : Others → ℕ → ℕ → ℕ → ℕ → Kernel → ℤ × Kernel
unfolding futex_enter maybe_free_slot
futex_wait_timeout o cpu addr expected ticks k =
    let (found, k₁) = futex_enter o addr expected k in
    elim found [
      | none ↦ (minus_one, k₁)
      | some slot ↦
          let (ret, k₂) = wq_wait_timeout o.meanwhile cpu slot ticks k₁ in
          (ret, maybe_free_slot slot (o.afterwards k₂))
    ]

-- An `int` as the bound of a loop from 0.
abbrev pub bound_of : ℤ → ℕ
bound_of (pos n) = n
bound_of (negsuc n) = 0

-- What other tasks and CPUs do during `futex_wake`, which gives up the lock after its search: before the
-- loop's test, once so many tasks have been woken; between that test and the waking; and after
-- the loop, until the caller has the lock again.
pub record Meddlers : Type 0 where
  pub before_test : ℕ → Kernel → Kernel
  pub before_wake : ℕ → Kernel → Kernel
  pub before_lock : Kernel → Kernel

-- The loop of `futex_wake`, with fuel: how many were woken.
pub wake_up_to : Meddlers → ℕ → ℕ → ℕ → ℕ → Kernel → ℕ × Kernel
wake_up_to o zero slot count woken k = (woken, k)
wake_up_to o (suc fuel) slot count woken k =
    let seen = o.before_test woken k in
    let rest =
      wake_up_to o fuel slot count (woken + 1) (wq_wake_one slot (o.before_wake woken seen)).1 in
    if not (ltb woken count)
    then (woken, k)
    else elim (seen.head slot) [ none ↦ (woken, seen) | some e ↦ rest ]

-- Every round counts one more, so there are at most `count`.
pub futex_wake : Meddlers → ℕ → ℤ → Kernel → ℕ × Kernel
unfolding find_slot wake_up_to maybe_free_slot
futex_wake o addr count k =
    let (found, k₁) = find_slot addr false k in
    elim found [
      | none ↦ (0, k₁)
      | some slot ↦
          let (woken, k₂) = wake_up_to o (bound_of count) slot (bound_of count) 0 k₁ in
          (woken, maybe_free_slot slot (o.before_lock k₂))
    ]

pub sleep_init : Kernel → Kernel
sleep_init = wq_init sleep_wq

pub sleep_ticks : (Kernel → Kernel) → ℕ → ℕ → Kernel → Kernel
sleep_ticks others cpu ticks k =
    if ticks == 0 then k else (wq_wait_timeout others cpu sleep_wq ticks k).1

pub sleep_ms : (Kernel → Kernel) → ℕ → ℕ → Kernel → Kernel
unfolding sleep_ticks
sleep_ms others cpu ms = sleep_ticks others cpu (if ms / 10 == 0 then 1 else ms / 10)
