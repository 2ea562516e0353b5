-- ===== src/Compat.antt =====
-- linux/compat.c: Linux's allocation, driver registration and interrupts over the kernel's own.
-- A pointer to a platform device or driver is a number, and `pdev` and `pdrv` are what stands there.
pub mod Chunks
mod Tests
use dragoon_kernel.Prelude.{
  ℕ, zero, suc, ◌+◌, ◌-◌, ◌*◌, ◌/◌, ◌%◌, ◌^◌, Bool, true, false, ◌&&◌, ◌||◌, Option, none, some,
  List, [], ◌∷◌, ◌++◌, update, ltb, leb, ◌==◌, if◌then◌else◌, for_range,
}
use dragoon_kernel.Prelude.Int.{ℤ, pos, minus_one}
use dragoon_kernel.Mm.{Mm, page_size, page_alloc, page_free}
use dragoon_kernel.Irq.{Irq, irq_register, irq_enable, irq_disable}
use Prim.Native.Nat.{bit_and}

pub record Slab : Type 0 where
  pub slab_page : ℕ
  pub slab_offset : ℕ
  pub mm : Mm

-- `(size + 15) & ~15`.
abbrev pub round_16 : ℕ → ℕ
round_16 size = (size + 15) / 16 * 16

-- A piece of the current page.
abbrev pub carve : ℕ → Slab → Option ℕ × Slab
carve size s = (some (s.slab_page + s.slab_offset), record s { slab_offset = s.slab_offset + size })

pub kmalloc : ℕ → Slab → Option ℕ × Slab
kmalloc size s =
    let rounded = round_16 size in
    let (page, mm) = page_alloc s.mm in
    if size == 0
    then (none, s)
    else if leb size 2048
    then if (s.slab_page == 0) || ltb page_size (s.slab_offset + rounded)
      then elim page [
        | none ↦ (none, record s { mm = mm })
        | some p ↦ carve rounded (record { slab_page = p; slab_offset = 0; mm = mm })
      ]
      else carve rounded s
    else if ltb 1 ((size + page_size - 1) % 2 ^ 64 / page_size)
    then (none, s)
    else (page, record s { mm = mm })

-- `size` bytes from an address that is a multiple of 8, in words of 8 bytes.
abbrev pub zero_bytes : ℕ → ℕ → (ℕ → ℕ) → ℕ → ℕ
zero_bytes addr size memory a =
    if ltb a addr || leb (addr + size) a
    then memory a
    else if leb (a + 8) (addr + size)
    then 0
    else memory a / 2 ^ (8 * (addr + size - a)) * 2 ^ (8 * (addr + size - a))

pub kzalloc : ℕ → Slab → Option ℕ × Slab
kzalloc size s =
    let (p, t) = kmalloc size s in
    elim p [
      | none ↦ (none, t)
      | some a ↦
          (some a, record t { mm = record (t.mm) { memory = zero_bytes a size (t.mm.memory) } })
    ]

-- Of a pointer that is not null.
pub kfree : ℕ → Slab → Slab
kfree addr s = if addr % page_size == 0 then record s { mm = page_free addr s.mm } else s

pub devm_kzalloc : ℕ → Slab → Option ℕ × Slab
devm_kzalloc size s = kzalloc size s

abbrev pub max_platform_devices : ℕ
max_platform_devices = 8

abbrev pub max_platform_drivers : ℕ
max_platform_drivers = 8

-- struct platform_device and platform_driver, as far as they are read; flags of the resources only.
pub record Pdev : Type 0 where
  pub name : List ℕ
  pub num_resources : ℕ
  pub resource : ℕ → ℕ

pub record Pdrv : Type 0 where
  pub probe : ℕ
  pub name : List ℕ

pub record CompatPlatformDevice : Type 0 where
  pub name : List ℕ
  pub id : ℕ
  pub dev : ℕ
  pub num_resources : ℕ
  pub resources : ℕ → ℕ
  pub platform_device_ptr : ℕ
  pub active : Bool

pub record CompatPlatformDriver : Type 0 where
  pub name : List ℕ
  pub probe : ℕ
  pub remove : Option ℕ
  pub active : Bool

-- `probed` are the calls of drivers' `probe`, with the device, the oldest first.
pub record Platform : Type 0 where
  pub pdevices : ℕ → CompatPlatformDevice
  pub pdrivers : ℕ → CompatPlatformDriver
  pub pdevice_count : ℕ
  pub pdriver_count : ℕ
  pub probed : List (ℕ × ℕ)

pub streq : List ℕ → List ℕ → Bool
streq [] [] = true
streq [] (d ∷ b) = false
streq (c ∷ a) [] = false
streq (c ∷ a) (d ∷ b) = (c == d) && streq a b

module _ (pdev : ℕ → Pdev) (pdrv : ℕ → Pdrv) where
  pub compat_register_platform_device : ℕ → Platform → ℤ × Platform
  compat_register_platform_device ptr s =
      let d : CompatPlatformDevice = record (s.pdevices s.pdevice_count) {
        name = (pdev ptr).name;
        id = 0;
        num_resources = (pdev ptr).num_resources;
        resources = (pdev ptr).resource;
        platform_device_ptr = ptr;
        active = true;
      } in
      if leb max_platform_devices s.pdevice_count then (minus_one, s) else (
        pos 0,
        record s {
          pdevices = update s.pdevices s.pdevice_count d;
          pdevice_count = s.pdevice_count + 1;
        },
      )

  -- The device `i` is probed by the driver, if their names agree.
  abbrev pub match : ℕ → List ℕ → ℕ → Platform → Platform
  match probe name i s =
      let d = s.pdevices i in
      if d.active && streq d.name name
      then record s { probed = s.probed ++ (probe, d.platform_device_ptr) ∷ [] }
      else s

  pub platform_driver_register : ℕ → Platform → ℤ × Platform
  platform_driver_register ptr s =
      let name = (pdrv ptr).name in
      let probe = (pdrv ptr).probe in
      let d : CompatPlatformDriver = record {
        name = name;
        probe = probe;
        remove = none;
        active = true;
      } in
      let t = record s {
        pdrivers = update s.pdrivers s.pdriver_count d;
        pdriver_count = s.pdriver_count + 1;
      } in
      if leb max_platform_drivers s.pdriver_count
      then (minus_one, s)
      else (pos 0, for_range s.pdevice_count 0 (match probe name) t)

  -- The number of the `num`th resource whose flags have all of `type`; `n` are left from the `i`th on.
  pub find_resource : ℕ → ℕ → ℕ → ℕ → ℕ → Option ℕ
  find_resource ptr type num zero i = none
  find_resource ptr type zero (suc n) i =
      if bit_and ((pdev ptr).resource i) type == type
      then some i
      else find_resource ptr type zero n (i + 1)
  find_resource ptr type (suc k) (suc n) i =
      find_resource ptr type (if bit_and ((pdev ptr).resource i) type == type then k else suc k) n
        (i + 1)

  pub platform_get_resource : ℕ → ℕ → ℕ → Option ℕ
  platform_get_resource ptr type num = find_resource ptr type num (pdev ptr).num_resources 0

pub request_irq : ℕ → ℕ → Irq → Irq
request_irq irq_num handler s = irq_enable irq_num (irq_register irq_num handler s)

pub free_irq : ℕ → Irq → Irq
free_irq irq_num s = irq_disable irq_num s
