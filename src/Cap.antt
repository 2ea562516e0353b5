-- ===== src/Cap.antt =====
-- kernel/cap.c and cap.h: the global pool of capabilities.
-- Each operation runs under `cap_lock`, so it is one step on the pool. A C pointer into the pool is
-- the index that it points at.
pub mod View
mod Tests
use dragoon_kernel.Prelude.{
  ℕ, ◌+◌, ◌-◌, ◌%◌, ◌^◌, Bool, true, false, not, Option, none, some, update, ltb, leb, ◌==◌,
  if◌then◌else◌, find_from, for_range,
}
use dragoon_kernel.Prelude.Int.{ℤ, pos, negsuc, minus_one}

abbrev pub cap_none : ℕ
cap_none = 0

abbrev pub cap_memory : ℕ
cap_memory = 1

abbrev pub cap_ipc : ℕ
cap_ipc = 2

abbrev pub cap_irq : ℕ
cap_irq = 3

abbrev pub cap_io : ℕ
cap_io = 4

abbrev pub cap_task : ℕ
cap_task = 5

abbrev pub cap_pool_size : ℕ
cap_pool_size = 256

-- The union of `struct capability`, by the member that was written last.
pub data Payload : Type 0 where
  unset : Payload
  mem : (base pages : ℕ) → Payload
  ipc : (ep_id rights : ℕ) → Payload
  irq : (irq_num : ℕ) → Payload
  io : (base size : ℕ) → Payload
  task : (task_id : ℕ) → Payload

pub record Capability : Type 0 where
  pub type : ℕ
  pub refcount : ℕ
  pub payload : Payload

pub record CapPool : Type 0 where
  pub cap_pool : ℕ → Capability
  pub cap_pool_used : ℕ → Bool

pub cap_init : CapPool → CapPool
cap_init = for_range cap_pool_size 0 λ i s. record s {
  cap_pool = update s.cap_pool i (record (s.cap_pool i) { type = cap_none; refcount = 0 });
  cap_pool_used = update s.cap_pool_used i false;
}

abbrev pub slot_free : CapPool → ℕ → Bool
slot_free s i = not (s.cap_pool_used i)

pub cap_alloc : Capability → CapPool → ℤ × CapPool
cap_alloc cap_out s = elim (find_from cap_pool_size 0 (slot_free s)) [
  | none ↦ (minus_one, s)
  | some i ↦ (
    pos i,
    record s {
      cap_pool = update s.cap_pool i (record cap_out { refcount = 1 });
      cap_pool_used = update s.cap_pool_used i true;
    },
  )
]

-- `cap_pool[cap_id].refcount--`, and the slot's release when that reaches zero.
pub drop_reference : ℕ → CapPool → CapPool
drop_reference i s =
    let c = s.cap_pool i in
    let left = (c.refcount + 2 ^ 32 - 1) % 2 ^ 32 in
    if left == 0
    then record s {
      cap_pool = update s.cap_pool i (record c { type = cap_none; refcount = left });
      cap_pool_used = update s.cap_pool_used i false;
    }
    else record s { cap_pool = update s.cap_pool i (record c { refcount = left }) }

pub cap_destroy : ℤ → CapPool → ℤ × CapPool
unfolding drop_reference
cap_destroy (negsuc n) s = (minus_one, s)
cap_destroy (pos i) s =
    if leb cap_pool_size i
    then (minus_one, s)
    else if not (s.cap_pool_used i)
    then (minus_one, s)
    else (pos 0, drop_reference i s)

pub cap_lookup : ℤ → CapPool → Option ℕ
cap_lookup (negsuc n) s = none
cap_lookup (pos i) s =
    if leb cap_pool_size i then none else if not (s.cap_pool_used i) then none else some i

pub cap_check : ℤ → ℕ → CapPool → ℤ
unfolding cap_lookup
cap_check cap_id expected_type s = elim (cap_lookup cap_id s) [
  | none ↦ minus_one
  | some i ↦ if (s.cap_pool i).type == expected_type then pos 0 else minus_one
]

-- A designated initialiser leaves the other fields zero.
abbrev fresh : ℕ → Payload → Capability
fresh type payload = record { type = type; refcount = 0; payload = payload }

pub cap_create_memory : ℕ → ℕ → CapPool → ℤ × CapPool
unfolding cap_alloc
cap_create_memory base pages = cap_alloc (fresh cap_memory (mem base pages))

pub cap_create_ipc : ℕ → ℕ → CapPool → ℤ × CapPool
unfolding cap_alloc
cap_create_ipc ep_id rights = cap_alloc (fresh cap_ipc (ipc ep_id rights))

pub cap_create_irq : ℕ → CapPool → ℤ × CapPool
unfolding cap_alloc
cap_create_irq irq_num = cap_alloc (fresh cap_irq (irq irq_num))

pub cap_create_io : ℕ → ℕ → CapPool → ℤ × CapPool
unfolding cap_alloc
cap_create_io base size = cap_alloc (fresh cap_io (io base size))

pub cap_create_task : ℕ → CapPool → ℤ × CapPool
unfolding cap_alloc
cap_create_task task_id = cap_alloc (fresh cap_task (task task_id))
