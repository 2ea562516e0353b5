-- ===== src/Virtio/Setup.antt =====
-- kernel/virtio.c: finding the devices and bringing one up.
-- `vio_read` is the device's side: the value of the register at an address, after the writes so far.
pub mod Layout
pub mod Ready
use dragoon_kernel.Prelude.{
  ℕ, zero, suc, ◌+◌, ◌-◌, ◌*◌, ◌/◌, ◌%◌, ◌^◌, Bool, true, false, ◌&&◌, Option, none, some, List, [],
  ◌∷◌, update, ltb, leb, ◌==◌, if◌then◌else◌, for_range, not,
}
use dragoon_kernel.Prelude.Int.{ℤ, pos, minus_one, negsuc}
use dragoon_kernel.Mm.{align_up, Mm, page_size, pages_alloc}
use dragoon_kernel.Virtio.{
  virtio_mmio_base, virtio_mmio_step, virtio_mmio_slots, virtio_max_devs, virtio_magic, virtq_size,
  no_desc, VirtqDesc, Virtq, VirtioDev, Virtio, vio_write,
}
use dragoon_kernel.Bits.{nth_bit}
use Prim.Native.Nat.{bit_or}

-- `size` descriptors, each leading to the next.
abbrev pub free_descs : ℕ → ℕ → VirtqDesc
free_descs size i =
    let next = if i + 1 == size then no_desc else i + 1 in
    record { addr = 0; len = 0; flags = 0; next = if ltb i size then next else 0 }

-- A queue with nothing on it, in fresh pages.
abbrev pub new_queue : ℕ → ℕ → ℕ → ℕ → ℕ → ℕ → Virtq
new_queue desc_addr avail_addr used_addr size base queue_idx = record {
  desc_addr = desc_addr;
  avail_addr = avail_addr;
  used_addr = used_addr;
  desc = free_descs size;
  avail = record { flags = 0; idx = 0; ring = λ _. 0 };
  used = record { flags = 0; idx = 0; ring = λ _. record { id = 0; len = 0 } };
  num = size % 2 ^ 16;
  free_head = 0;
  last_used_idx = 0;
  base = base;
  queue_idx = queue_idx;
}

abbrev pub set_queue : ℕ → ℕ → Virtq → Virtio → Virtio
set_queue dev q vq s = record s {
  devices =
      update s.devices dev (record (s.devices dev) { queues = update (s.devices dev).queues q vq });
}

-- Where the used ring stands behind the queue's first page, and the pages of the whole.
abbrev pub legacy_used_offset : ℕ → ℕ
legacy_used_offset size = align_up (size * 16 + (6 + size * 2)) page_size

abbrev pub legacy_pages : ℕ → ℕ
legacy_pages size = (legacy_used_offset size + (6 + size * 8) + page_size - 1) / page_size

abbrev pub modern_used_addr : ℕ → ℕ → ℕ
modern_used_addr addr size = align_up (addr + size * 16 + 4 + size * 2) 4

module _ (vio_read : List (ℕ × ℕ) → ℕ → ℕ) where
  abbrev pub read : ℕ → ℕ → Virtio → ℕ
  read base off s = vio_read s.writes (base + off)

  -- One slot of `virtio_probe`, while there is room in `devices`.
  abbrev pub probe_slot : ℕ → Virtio → Virtio
  probe_slot i s =
      let base = virtio_mmio_base + i * virtio_mmio_step in
      let dev_id = read base 8 s in
      if leb virtio_max_devs s.num_devices
      then s
      else if not (read base 0 s == virtio_magic)
      then s
      else if dev_id == 0
      then s
      else record s {
        devices = update s.devices s.num_devices (record (s.devices s.num_devices) {
          base = base;
          device_id = dev_id;
          vendor_id = read base 12 s;
          version = read base 4 s;
          num_queues = 0;
          active = false;
        });
        num_devices = s.num_devices + 1;
      }

  pub virtio_probe : Virtio → Virtio
  virtio_probe s = for_range virtio_mmio_slots 0 probe_slot (record s { num_devices = 0 })

  -- The size of a queue that the device can have, or `none` if it has no such queue.
  abbrev pub queue_room : ℕ → ℕ → Virtio → Option ℕ
  queue_room base size s =
      let max_size = read base 52 s in
      if max_size == 0 then none else some (if ltb max_size size then max_size else size)

  pub virtq_setup_legacy : ℕ → ℕ → ℕ → Virtio → ℤ × Virtio
  virtq_setup_legacy dev q size s =
      let base = (s.devices dev).base in
      let t = vio_write base 48 q s in
      elim (queue_room base size t) [
        | none ↦ (minus_one, t)
        | some n ↦
            let u = vio_write base 40 page_size t in
            let (mem, mm) = pages_alloc (legacy_pages n) u.mm in
            elim mem [
              | none ↦ (minus_one, record u { mm = mm })
              | some addr ↦
                  let vq = new_queue addr (addr + n * 16) (addr + legacy_used_offset n) n base q in
                  (
                    pos 0,
                    vio_write base 64 (addr / page_size) (
                        vio_write base 60 page_size
                          (vio_write base 56 n (set_queue dev q vq (record u { mm = mm })))),
                  )
            ]
      ]

  -- `desc`, `avail` and `used` are told as two words each.
  abbrev pub tell : ℕ → ℕ → ℕ → Virtio → Virtio
  tell base off a s = vio_write base (off + 4) (a / 2 ^ 32) (vio_write base off (a % 2 ^ 32) s)

  pub virtq_setup_modern : ℕ → ℕ → ℕ → Virtio → ℤ × Virtio
  virtq_setup_modern dev q size s =
      let base = (s.devices dev).base in
      let t = vio_write base 48 q s in
      elim (queue_room base size t) [
        | none ↦ (minus_one, t)
        | some n ↦
            let (mem, mm) = pages_alloc 1 t.mm in
            elim mem [
              | none ↦ (minus_one, record t { mm = mm })
              | some addr ↦
                  let avail = addr + n * 16 in
                  let used = modern_used_addr addr n in
                  let vq = new_queue addr avail used n base q in
                  let v = vio_write base 56 n (set_queue dev q vq (record t { mm = mm })) in
                  (
                    pos 0,
                    vio_write base 68 1
                        (tell base 160 used (tell base 144 avail (tell base 128 addr v))),
                  )
            ]
      ]

  pub virtq_setup : ℕ → ℕ → ℕ → Virtio → ℤ × Virtio
  virtq_setup dev q size s =
      if (s.devices dev).version == 1
      then virtq_setup_legacy dev q size s
      else virtq_setup_modern dev q size s

  -- Sets bits of the status register.
  abbrev pub add_status : ℕ → ℕ → Virtio → Virtio
  add_status base bits s = vio_write base 112 (bit_or (read base 112 s) bits) s

  -- Reset, the two first steps of the handshake, and all features accepted.
  abbrev pub greet : ℕ → Virtio → Virtio
  greet base s =
      let t =
        vio_write base 20 0 (add_status base 2 (add_status base 1 (vio_write base 112 0 s))) in
      vio_write base 32 (read base 16 t) (vio_write base 36 0 t)

  -- The queues from `q` on, `n` of them; false when one fails.
  pub setup_queues : ℕ → ℕ → ℕ → Virtio → Bool × Virtio
  setup_queues dev zero q s = (true, s)
  setup_queues dev (suc n) q s =
      let (r, t) = virtq_setup dev q virtq_size s in
      let rest = setup_queues dev n (q + 1) t in elim r [ pos _ ↦ rest | negsuc _ ↦ (false, t) ]

  -- What is left once the features are agreed on.
  pub bring_up : ℕ → ℕ → Virtio → ℤ × Virtio
  bring_up dev num_queues s =
      let (ok, t) = setup_queues dev num_queues 0 s in
      let base = (t.devices dev).base in
      let u = add_status base 4 (record t {
        devices = update t.devices dev (record (t.devices dev) { num_queues = num_queues });
      }) in
      if ok
      then (
        pos 0,
        record u { devices = update u.devices dev (record (u.devices dev) { active = true }) },
      )
      else (minus_one, t)

  pub virtio_dev_init : ℕ → ℕ → Virtio → ℤ × Virtio
  virtio_dev_init dev num_queues s =
      let base = (s.devices dev).base in
      let t = greet base s in
      let u = add_status base 8 t in
      if leb 2 (s.devices dev).version
      then if nth_bit 3 (read base 112 u) == 1
        then bring_up dev num_queues u
        else (minus_one, vio_write base 112 128 u)
      else bring_up dev num_queues t
