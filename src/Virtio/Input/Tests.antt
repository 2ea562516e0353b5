-- ===== src/Virtio/Input/Tests.antt =====
-- The theorems on the input devices, at concrete states.
use dragoon_kernel.Prelude.{ℕ, ◌+◌, ◌*◌, ◌≡◌, ◌⊎◌, false, [], ◌∷◌, arith, refl}
use dragoon_kernel.Prelude.Int.{pos}
use dragoon_kernel.Mm.{page_addr}
use dragoon_kernel.Virtio.{Virtq, virtq_pop_used}
use dragoon_kernel.Virtio.Setup.{new_queue, legacy_pages, legacy_used_offset}
use dragoon_kernel.Virtio.Setup.Layout.{IsFresh, legacy-IsFresh}
use dragoon_kernel.Virtio.Input.{
  VirtioInputEvent, Keys, Mouse, key_ring_push, key_ring_pop, process_kbd_event, drain_events,
  drain, key_of,
}
use dragoon_kernel.Virtio.Input.KeyRing.{InRing, keys, key_ring_lem}
use dragoon_kernel.Virtio.Input.Drain.{IsLoaned, Drains, drain_events_lem}

-- Two keys, around the end of the ring.
abbrev two_keys : Keys
two_keys = record {
  key_ring = λ i. 97 + i;
  key_ring_head = 1;
  key_ring_tail = 31;
  shift_held = false;
}

key_ring_lem_example :
    (InRing (key_ring_push 65 two_keys) × (keys (key_ring_push 65 two_keys) ≡ 128 ∷ 97 ∷ 65 ∷ []))
    × InRing (key_ring_pop two_keys).1
    × ((((key_ring_pop two_keys).0 ≡ 0)
          × (keys two_keys ≡ [])
          × ((key_ring_pop two_keys).1 ≡ two_keys))
        ⊎ (keys two_keys ≡ (key_ring_pop two_keys).0 ∷ keys (key_ring_pop two_keys).1))
key_ring_lem_example = key_ring_lem 65 two_keys (record { head = omega arith; tail = omega arith })

abbrev centre : Mouse
centre = record { mouse_x = pos 320; mouse_y = pos 240; mouse_btns = 1 }

-- The pointer is moved down by more than the screen has.
abbrev far_down : VirtioInputEvent
far_down = record { type = 2; code = 1; value = 1000 }

-- A new queue in the pages from the second on.
abbrev fresh : Virtq
fresh =
    new_queue (page_addr 1) (page_addr 1 + 16 * 16) (page_addr 1 + legacy_used_offset 16) 16
      167772160 0

fresh-IsFresh : IsFresh fresh 16 (page_addr 1) (legacy_pages 16)
fresh-IsFresh = legacy-IsFresh 1 16 167772160 0 (omega arith) (omega arith) (omega arith)

-- Two descriptors on loan, of which the device is done with the first.
abbrev used_one : Virtq
used_one = record (new_queue 0 32 44 2 167772160 0) {
  free_head = 65535;
  desc = λ i. record { addr = 9000 + i * 8; len = 8; flags = 2; next = 0 };
  used = record { flags = 0; idx = 1; ring = λ i. record { id = 0; len = 8 } };
}

used_one-IsLoaned : IsLoaned 9000 [] used_one
used_one-IsLoaned = record {
  owned = record {
    chain = refl;
    distinct = ground arith;
    below = λ i m. absurd (ground (arith, m));
    small = omega arith;
  };
  paired = λ i below off. refl;
  last_bound = omega arith;
  idx_bound = omega arith;
}

-- The key A goes down.
abbrev key_a : ℕ → VirtioInputEvent
key_a i = record { type = 1; code = 30; value = 1 }

drain_events_lem_example :
    Drains process_kbd_event 9000 key_a [] used_one two_keys 1
      (drain_events process_kbd_event 9000 key_a used_one two_keys)
drain_events_lem_example =
    drain_events_lem process_kbd_event 9000 key_a [] used_one two_keys used_one-IsLoaned
      (λ k lt. (omega arith, refl))

-- The key reaches the ring.
drain_runs :
    keys (drain_events process_kbd_event 9000 key_a used_one two_keys).2 ≡ 128 ∷ 97 ∷ 97 ∷ []
unfolding drain_events drain virtq_pop_used process_kbd_event key_of key_ring_push
drain_runs = refl
