-- ===== src/Virtio/Input/Devices.antt =====
-- kernel/virtio_input.c: the two devices, how they are told apart and polled.
use dragoon_kernel.Prelude.{
  ℕ, zero, suc, ◌+◌, ◌-◌, Bool, true, false, ◌&&◌, ◌||◌, Option, none, some, List, [], ◌∷◌, ltb,
  leb, ◌==◌, if◌then◌else◌,
}
use dragoon_kernel.Prelude.Int.{ℤ, pos, negsuc, minus_one}
use dragoon_kernel.Virtio.{Virtio, vio_write, virtq_kick, virtio_find_dev}
use dragoon_kernel.Virtio.Setup.{set_queue, virtio_dev_init}
use dragoon_kernel.Virtio.Input.{
  VirtioInputEvent, Keys, Mouse, drain_events, refill, key_ring_pop, process_kbd_event,
  process_tablet_event,
}

-- `kbd_bufs` and `tablet_bufs` are the addresses of the arrays of events.
pub record Vinput : Type 0 where
  pub virtio : Virtio
  pub kbd_dev : Option ℕ
  pub tablet_dev : Option ℕ
  pub keys : Keys
  pub mouse : Mouse
  pub kbd_events : ℕ → VirtioInputEvent
  pub tablet_events : ℕ → VirtioInputEvent
  pub kbd_bufs : ℕ
  pub tablet_bufs : ℕ

-- `drain_events` of a device, if it is there and active.
abbrev pub drain_dev {ℓ} :
    {S : Type ℓ}
    → (VirtioInputEvent → S → S)
    → ℕ
    → (ℕ → VirtioInputEvent)
    → Option ℕ
    → Virtio
    → S
    → Virtio × S
drain_dev handler bufs events none v s = (v, s)
drain_dev handler bufs events (some dev) v s =
    let (count, vq, s') = drain_events handler bufs events ((v.devices dev).queues 0) s in
    let v' = set_queue dev 0 vq v in
    if (v.devices dev).active then (if ltb 0 count then virtq_kick vq v' else v', s') else (v, s)

pub virtio_kbd_poll : Vinput → ℕ × Vinput
virtio_kbd_poll s =
    let (v, keys) = drain_dev process_kbd_event s.kbd_bufs s.kbd_events s.kbd_dev s.virtio s.keys in
    let (key, keys') = key_ring_pop keys in (key, record s { virtio = v; keys = keys' })

pub virtio_mouse_poll : Vinput → (ℤ × ℤ × ℕ) × Vinput
virtio_mouse_poll s =
    let (v, mouse) =
      drain_dev process_tablet_event s.tablet_bufs s.tablet_events s.tablet_dev s.virtio s.mouse in
    ((mouse.mouse_x, mouse.mouse_y, mouse.mouse_btns), record s { virtio = v; mouse = mouse })

-- Fills the first queue of a device and tells the device.
pub refill_event_queue : ℕ → ℕ → Virtio → Virtio
refill_event_queue dev bufs v =
    let vq = refill bufs ((v.devices dev).queues 0) in virtq_kick vq (set_queue dev 0 vq v)

abbrev pub lower : ℕ → ℕ
lower c = if leb 65 c && leb c 90 then c + 32 else c

-- Does a string start with another, but for the case of letters?
pub starts_with : List ℕ → List ℕ → Bool
starts_with h [] = true
starts_with [] (n ∷ needle) = false
starts_with (c ∷ h) (n ∷ needle) = (lower c == lower n) && starts_with h needle

pub str_contains : List ℕ → List ℕ → Bool
str_contains [] needle = false
str_contains (c ∷ h) needle = starts_with (c ∷ h) needle || str_contains h needle

-- "keyboard" and "Keyboard".
abbrev pub keyboard : List ℕ
keyboard = 107 ∷ 101 ∷ 121 ∷ 98 ∷ 111 ∷ 97 ∷ 114 ∷ 100 ∷ []

abbrev pub keyboard_title : List ℕ
keyboard_title = 75 ∷ 101 ∷ 121 ∷ 98 ∷ 111 ∷ 97 ∷ 114 ∷ 100 ∷ []

-- `vio_read` and `vio_read8` are the device's answers, as words and as bytes; `leftover` is the string that
-- stands in `name` when it was not filled.
module _ (vio_read vio_read8 : List (ℕ × ℕ) → ℕ → ℕ) (leftover : List (ℕ × ℕ) → List ℕ) where
  abbrev pub config_read8 : ℕ → ℕ → Virtio → ℕ
  config_read8 base off v = vio_read8 v.writes (base + 256 + off)

  -- The bytes of a string, up to the first zero.
  pub read_name : ℕ → ℕ → ℕ → Virtio → List ℕ
  read_name base zero i v = []
  read_name base (suc n) i v =
      let c = config_read8 base (8 + i) v in
      let rest = read_name base n (i + 1) v in if c == 0 then [] else (c ∷ rest)

  -- The name in a buffer of `max_len` bytes, if the device has one.
  pub query_input_name : ℕ → ℕ → Virtio → Option (List ℕ) × Virtio
  query_input_name base max_len v =
      let t = vio_write base 257 0 (vio_write base 256 1 v) in
      let size = config_read8 base 2 t in
      let n = if ltb size (max_len - 1) then size else max_len - 1 in
      if (size == 0) || ltb 128 size
      then (none, t)
      else (some (read_name base n 0 t), vio_write base 256 0 t)

  -- The device is reset, asked for its name and reset again.
  abbrev pub ask_name : ℕ → Virtio → List ℕ × Virtio
  ask_name base v =
      let t = vio_write base 112 3 (vio_write base 112 1 (vio_write base 112 0 v)) in
      let (name, u) = query_input_name base 64 t in
      (elim name [ none ↦ leftover u.writes | some n ↦ n ], vio_write base 112 0 u)

  -- The loop over the input devices from the `idx`th on, `fuel` at most.
  pub identify : ℕ → ℕ → Vinput → Vinput
  identify zero idx s = s
  identify (suc fuel) idx s = elim (virtio_find_dev 18 idx s.virtio) [
    | none ↦ s
    | some dev ↦
        let (name, v) = ask_name (s.virtio.devices dev).base s.virtio in
        let t = record s { virtio = v } in
        identify fuel (idx + 1) (
          if str_contains name keyboard || str_contains name keyboard_title
          then record t { kbd_dev = some dev }
          else record t { tablet_dev = some dev })
  ]

  -- Brings a device up and gives it its buffers; `none` if that fails.
  abbrev pub start : Option ℕ → ℕ → Virtio → Option ℕ × Virtio
  start none bufs v = (none, v)
  start (some dev) bufs v =
      let (r, t) = virtio_dev_init vio_read dev 1 v in
      elim r [
        | pos zero ↦ (some dev, refill_event_queue dev bufs t)
        | pos (suc _) ↦ (none, t)
        | negsuc _ ↦ (none, t)
      ]

  pub virtio_input_init : Vinput → ℤ × Vinput
  virtio_input_init s =
      let t = identify (s.virtio.num_devices + 1) 0 (record s {
        keys = record (s.keys) { key_ring_head = 0; key_ring_tail = 0; shift_held = false };
        mouse = record { mouse_x = pos 320; mouse_y = pos 240; mouse_btns = 0 };
        kbd_dev = none;
        tablet_dev = none;
      }) in
      let (kbd, v) = start t.kbd_dev t.kbd_bufs t.virtio in
      let (tablet, w) = start t.tablet_dev t.tablet_bufs v in
      let u = record t { virtio = w; kbd_dev = kbd; tablet_dev = tablet } in
      (elim kbd [ some _ ↦ pos 0 | none ↦ elim tablet [ some _ ↦ pos 0 | none ↦ minus_one ] ], u)
