-- ===== src/Virtio.antt =====
-- kernel/virtio.c and virtio.h: the MMIO transport, and the queues of buffers that are shared with a device.
-- A register that is read is a function of the writes so far, the newest first; a queue keeps the contents
-- of its three parts beside their addresses.
pub mod Queue
pub mod Finding
pub mod Setup
pub mod Input
mod Tests
use dragoon_kernel.Prelude.{
  ℕ, zero, suc, ◌+◌, ◌-◌, ◌*◌, ◌/◌, ◌%◌, ◌^◌, Bool, true, false, ◌&&◌, Option, none, some, List, [],
  ◌∷◌, update, ltb, leb, ◌==◌, if◌then◌else◌, for_range,
}
use dragoon_kernel.Prelude.Int.{ℤ, pos, minus_one}
use dragoon_kernel.Mm.{Mm, page_size, pages_alloc}
use Prim.Native.Nat.{bit_or}

abbrev pub virtio_mmio_base : ℕ
virtio_mmio_base = 167772160

abbrev pub virtio_mmio_step : ℕ
virtio_mmio_step = 512

abbrev pub virtio_mmio_slots : ℕ
virtio_mmio_slots = 32

abbrev pub virtio_max_devs : ℕ
virtio_max_devs = 8

abbrev pub virtio_magic : ℕ
virtio_magic = 1953655158

abbrev pub virtq_size : ℕ
virtq_size = 16

-- 0xFFFF, the end of the free list.
abbrev pub no_desc : ℕ
no_desc = 65535

pub record VirtqDesc : Type 0 where
  pub addr : ℕ
  pub len : ℕ
  pub flags : ℕ
  pub next : ℕ

pub record VirtqAvail : Type 0 where
  pub flags : ℕ
  pub idx : ℕ
  pub ring : ℕ → ℕ

pub record VirtqUsedElem : Type 0 where
  pub id : ℕ
  pub len : ℕ

pub record VirtqUsed : Type 0 where
  pub flags : ℕ
  pub idx : ℕ
  pub ring : ℕ → VirtqUsedElem

pub record Virtq : Type 0 where
  pub desc_addr : ℕ
  pub avail_addr : ℕ
  pub used_addr : ℕ
  pub desc : ℕ → VirtqDesc
  pub avail : VirtqAvail
  pub used : VirtqUsed
  pub num : ℕ
  pub free_head : ℕ
  pub last_used_idx : ℕ
  pub base : ℕ
  pub queue_idx : ℕ

pub record VirtioDev : Type 0 where
  pub base : ℕ
  pub device_id : ℕ
  pub vendor_id : ℕ
  pub version : ℕ
  pub queues : ℕ → Virtq
  pub num_queues : ℕ
  pub active : Bool

pub record Virtio : Type 0 where
  pub devices : ℕ → VirtioDev
  pub num_devices : ℕ
  pub mm : Mm
  pub writes : List (ℕ × ℕ)

abbrev pub vio_write : ℕ → ℕ → ℕ → Virtio → Virtio
vio_write base off val s = record s { writes = (base + off, val) ∷ s.writes }

-- The descriptor `head` goes to the device with a buffer.
abbrev pub lend : ℕ → ℕ → ℕ → ℕ → Virtq → Virtq
lend buf len flags head vq = record vq {
  free_head = (vq.desc head).next;
  desc = update vq.desc head (record { addr = buf; len = len; flags = flags; next = 0 });
  avail = record (vq.avail) {
    ring = update vq.avail.ring (vq.avail.idx % vq.num) head;
    idx = (vq.avail.idx + 1) % 2 ^ 16;
  };
}

-- A buffer is handed to the device, unless every descriptor is in use.
pub virtq_push_buf : ℕ → ℕ → ℕ → Virtq → Virtq
virtq_push_buf buf len flags vq =
    if vq.free_head == no_desc then vq else lend buf len flags vq.free_head vq

abbrev pub virtq_kick : Virtq → Virtio → Virtio
virtq_kick vq s = vio_write vq.base 80 vq.queue_idx s

abbrev pub virtq_has_used : Virtq → Bool
virtq_has_used vq = if vq.used.idx == vq.last_used_idx then false else true

-- The next element of the used ring.
abbrev pub next_used : Virtq → VirtqUsedElem
next_used vq = vq.used.ring (vq.last_used_idx % vq.num)

-- The descriptor `id` comes back to the free list.
abbrev pub take_back : ℕ → Virtq → Virtq
take_back id vq = record vq {
  last_used_idx = (vq.last_used_idx + 1) % 2 ^ 16;
  desc = update vq.desc id (record (vq.desc id) { next = vq.free_head });
  free_head = id % 2 ^ 16;
}

-- The number of the descriptor that the device is done with and the length it wrote, if there is one.
pub virtq_pop_used : Virtq → Option (ℕ × ℕ) × Virtq
virtq_pop_used vq =
    let elem = next_used vq in
    if virtq_has_used vq then (some (elem.id, elem.len), take_back elem.id vq) else (none, vq)

-- The index of the `index`th device of the kind `device_id`: `n` devices are left from the `i`th on.
pub find_dev : ℕ → ℕ → ℕ → ℕ → Virtio → Option ℕ
find_dev device_id index zero i s = none
find_dev device_id zero (suc n) i s =
    if (s.devices i).device_id == device_id then some i else find_dev device_id zero n (i + 1) s
find_dev device_id (suc k) (suc n) i s =
    find_dev device_id (if (s.devices i).device_id == device_id then k else suc k) n (i + 1) s

pub virtio_find_dev : ℕ → ℕ → Virtio → Option ℕ
virtio_find_dev device_id index s = find_dev device_id index s.num_devices 0 s
