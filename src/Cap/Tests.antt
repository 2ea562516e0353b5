-- ===== src/Cap/Tests.antt =====
-- kernel/cap.c, tried on a pool of two capabilities.
use dragoon_kernel.Prelude.{some, find_from, arith, ◌≡◌, if◌then◌else◌, ◌==◌, refl, ltb}
use dragoon_kernel.Prelude.Int.{pos}
use dragoon_kernel.Cap.{
  Capability, CapPool, mem, irq, io, unset, cap_alloc, cap_destroy, cap_create_irq, cap_create_io,
  cap_memory, cap_irq, cap_io,
}
use dragoon_kernel.Cap.View.{IsPooled, grant, view, cap_alloc_lem, Grants, cap_destroy_lem}

-- A pool with a memory capability at 0 and an interrupt at 1.
abbrev two_caps : CapPool
two_caps = record {
  cap_pool = λ i.
      if i == 0
      then record { type = cap_memory; refcount = 1; payload = mem 0x4000_0000 2 }
      else if i == 1
      then record { type = cap_irq; refcount = 1; payload = irq 27 }
      else record { type = 0; refcount = 0; payload = unset };
  cap_pool_used = λ i. ltb i 2;
}

abbrev uart : Capability
uart = record { type = cap_io; refcount = 0; payload = io 0x0900_0000 0x1000 }

two_caps-IsPooled : IsPooled two_caps
two_caps-IsPooled = record { held = λ i l u. ground arith; vacant = λ i l u. ground arith }

third_slot : (cap_create_io 0x0900_0000 0x1000 two_caps).0 ≡ pos 2
unfolding cap_create_io find_from
third_slot = refl

reused_slot : (cap_create_irq 33 (cap_destroy (pos 0) two_caps).1).0 ≡ pos 0
unfolding cap_create_irq cap_destroy find_from
reused_slot = refl

cap_alloc_lem_example : Grants uart two_caps (cap_alloc uart two_caps)
cap_alloc_lem_example = cap_alloc_lem uart two_caps two_caps-IsPooled

cap_destroy_lem_example :
    ((cap_destroy (pos 1) two_caps).0 ≡ pos 0)
    × (view (cap_destroy (pos 1) two_caps).1 0 ≡ some (grant (two_caps.cap_pool 0)))
    × IsPooled (cap_destroy (pos 1) two_caps).1
cap_destroy_lem_example = cap_destroy_lem 1 0 two_caps two_caps-IsPooled (omega arith) refl
