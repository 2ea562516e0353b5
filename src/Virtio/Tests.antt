-- ===== src/Virtio/Tests.antt =====
-- The theorems on the devices and their queues, at concrete states.
use dragoon_kernel.Prelude.{ℕ, ◌+◌, false, List, []}
use dragoon_kernel.Mm.{Mm, mm_init, ram_base}
use dragoon_kernel.Virtio.{Virtio, VirtioDev}
use dragoon_kernel.Virtio.Setup.{new_queue}

-- The allocator as `mm_init` leaves it.
abbrev reset : Mm
reset = record { page_bitmap = λ _. 77; total_pages = 3; used_pages = 9; memory = λ a. a + 1 }

memory_map : Mm
memory_map = mm_init (ram_base + 20000) reset

abbrev device : VirtioDev
device = record {
  base = 167772160;
  device_id = 18;
  vendor_id = 0;
  version = 1;
  queues = λ q. new_queue 0 0 0 16 167772160 q;
  num_queues = 0;
  active = false;
}

abbrev bus : Virtio
bus = record {
  devices = λ i. record device { device_id = 16 + i };
  num_devices = 4;
  mm = memory_map;
  writes = [];
}

-- Every register reads 32.
abbrev reads : List (ℕ × ℕ) → ℕ → ℕ
reads writes a = 32
