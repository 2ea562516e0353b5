-- ===== src/Virtio/Input.antt =====
-- kernel/virtio_input.c and virtio_input.h: the keyboard and the tablet.
-- The events of a device stand in its buffers, which it fills; each buffer is that of one descriptor.
pub mod KeyRing
pub mod Drain
pub mod Refill
pub mod Pointer
pub mod Devices
mod Tests
use dragoon_kernel.Prelude.{
  ℕ, zero, suc, ◌+◌, ◌-◌, ◌*◌, ◌/◌, ◌%◌, ◌^◌, Bool, true, false, not, ◌&&◌, ◌||◌, Option, none,
  some, List, [], ◌∷◌, update, ltb, leb, ◌==◌, if◌then◌else◌, for_range,
}
use dragoon_kernel.Prelude.Int.{ℤ, pos, negsuc, minus_one, ◌+ℤ◌, ltb_ℤ, int_of, wrap}
use dragoon_kernel.Virtio.{
  Virtq, Virtio, VirtioDev, virtq_push_buf, virtq_pop_used, virtq_has_used, virtq_kick,
}

abbrev pub event_buf_count : ℕ
event_buf_count = 16

abbrev pub key_ring_size : ℕ
key_ring_size = 32

-- `sizeof(struct virtio_input_event)`.
abbrev pub event_size : ℕ
event_size = 8

abbrev pub tablet_abs_max : ℕ
tablet_abs_max = 32767

abbrev pub fb_width : ℕ
fb_width = 640

abbrev pub fb_height : ℕ
fb_height = 480

pub record VirtioInputEvent : Type 0 where
  pub type : ℕ
  pub code : ℕ
  pub value : ℕ

-- What the handlers of events change.
pub record Keys : Type 0 where
  pub key_ring : ℕ → ℕ
  pub key_ring_head : ℕ
  pub key_ring_tail : ℕ
  pub shift_held : Bool

pub record Mouse : Type 0 where
  pub mouse_x : ℤ
  pub mouse_y : ℤ
  pub mouse_btns : ℕ

pub key_ring_push : ℕ → Keys → Keys
key_ring_push key s =
    let next = (s.key_ring_head + 1) % key_ring_size in
    if next == s.key_ring_tail
    then s
    else record s { key_ring = update s.key_ring s.key_ring_head key; key_ring_head = next }

-- `KEY_NONE` is 0.
pub key_ring_pop : Keys → ℕ × Keys
key_ring_pop s = if s.key_ring_head == s.key_ring_tail then (0, s) else (
  s.key_ring s.key_ring_tail,
  record s { key_ring_tail = (s.key_ring_tail + 1) % key_ring_size },
)

-- The tables up to their last entry; 0 where there is none.
abbrev pub entry : List ℕ → ℕ → ℕ
entry [] i = 0
entry (k ∷ table) zero = k
entry (k ∷ table) (suc i) = entry table i

abbrev pub keycode_table : List ℕ
keycode_table =
    0 ∷ 27 ∷ 49 ∷ 50 ∷ 51 ∷ 52 ∷ 53 ∷ 54 ∷ 55 ∷ 56 ∷ 57 ∷ 48 ∷ 45 ∷ 61 ∷ 127 ∷ 9 ∷ 113 ∷ 119 ∷ 101
    ∷ 114 ∷ 116 ∷ 121 ∷ 117 ∷ 105 ∷ 111 ∷ 112 ∷ 91 ∷ 93 ∷ 10 ∷ 0 ∷ 97 ∷ 115 ∷ 100 ∷ 102 ∷ 103 ∷ 104
    ∷ 106 ∷ 107 ∷ 108 ∷ 59 ∷ 39 ∷ 96 ∷ 0 ∷ 92 ∷ 122 ∷ 120 ∷ 99 ∷ 118 ∷ 98 ∷ 110 ∷ 109 ∷ 44 ∷ 46 ∷ 47
    ∷ 0 ∷ 0 ∷ 0 ∷ 32 ∷ 0 ∷ 0 ∷ 0 ∷ 0 ∷ 0 ∷ 0 ∷ 0 ∷ 0 ∷ 0 ∷ 0 ∷ 0 ∷ 0 ∷ 0 ∷ 0 ∷ 0 ∷ 0 ∷ 0 ∷ 0 ∷ 0 ∷ 0
    ∷ 0 ∷ 0 ∷ 0 ∷ 0 ∷ 0 ∷ 0 ∷ 0 ∷ 0 ∷ 0 ∷ 0 ∷ 0 ∷ 0 ∷ 0 ∷ 0 ∷ 0 ∷ 0 ∷ 0 ∷ 0 ∷ 0 ∷ 0 ∷ 0 ∷ 0 ∷ 0 ∷ 0
    ∷ 0 ∷ 128 ∷ 0 ∷ 130 ∷ 131 ∷ 0 ∷ 129 ∷ []

abbrev pub shift_table : List ℕ
shift_table =
    0 ∷ 0 ∷ 33 ∷ 64 ∷ 35 ∷ 36 ∷ 37 ∷ 94 ∷ 38 ∷ 42 ∷ 40 ∷ 41 ∷ 95 ∷ 43 ∷ 0 ∷ 0 ∷ 81 ∷ 87 ∷ 69 ∷ 82
    ∷ 84 ∷ 89 ∷ 85 ∷ 73 ∷ 79 ∷ 80 ∷ 123 ∷ 125 ∷ 0 ∷ 0 ∷ 65 ∷ 83 ∷ 68 ∷ 70 ∷ 71 ∷ 72 ∷ 74 ∷ 75 ∷ 76
    ∷ 58 ∷ 34 ∷ 126 ∷ 0 ∷ 124 ∷ 90 ∷ 88 ∷ 67 ∷ 86 ∷ 66 ∷ 78 ∷ 77 ∷ 60 ∷ 62 ∷ 63 ∷ []

-- The key of a code below 128, or 0.
pub key_of : Bool → ℕ → ℕ
key_of shift_held code =
    if shift_held && not (entry shift_table code == 0)
    then entry shift_table code
    else entry keycode_table code

pub process_kbd_event : VirtioInputEvent → Keys → Keys
process_kbd_event ev s =
    let key = key_of s.shift_held ev.code in
    if not (ev.type == 1)
    then s
    else if (ev.code == 42) || (ev.code == 54)
    then record s { shift_held = not (ev.value == 0) }
    else if (ev.value == 0) || leb 128 ev.code || (key == 0)
    then s
    else key_ring_push key s

-- An absolute coordinate, scaled from 0..32767 to the pixels from 0 to `size - 1`.
abbrev pub scaled : ℕ → ℤ → ℤ
scaled size (negsuc n) = pos 0
scaled size (pos v) =
    let v' = if ltb tablet_abs_max v then tablet_abs_max else v in
    pos (v' * (size - 1) / tablet_abs_max)

-- A coordinate that has moved, brought back to the screen.
abbrev pub on_screen : ℕ → ℤ → ℤ
on_screen size v =
    let v' = if ltb_ℤ v (pos 0) then pos 0 else v in
    if ltb_ℤ v' (pos size) then v' else pos (size - 1)

-- `|= bit` and `&= ~bit` for a button's bit.
abbrev pub set_button : ℕ → Bool → ℕ → ℕ
set_button bit pressed btns =
    if btns / bit % 2 == 1
    then (if pressed then btns else btns - bit)
    else if pressed
    then btns + bit
    else btns

abbrev pub press : VirtioInputEvent → Mouse → Mouse
press ev s =
    let bit = if ev.code == 273 then 2 else if ev.code == 272 then 1 else 0 in
    if bit == 0
    then s
    else record s { mouse_btns = set_button bit (not (ev.value == 0)) s.mouse_btns }

pub process_tablet_event : VirtioInputEvent → Mouse → Mouse
process_tablet_event ev s =
    let val = int_of ev.value in
    if ev.type == 3
    then if ev.code == 0
      then record s { mouse_x = scaled fb_width val }
      else if ev.code == 1
      then record s { mouse_y = scaled fb_height val }
      else s
    else if ev.type == 2
    then if ev.code == 0
      then record s { mouse_x = on_screen fb_width (wrap (s.mouse_x +ℤ val)) }
      else if ev.code == 1
      then record s { mouse_y = on_screen fb_height (wrap (s.mouse_y +ℤ val)) }
      else s
    else if ev.type == 1
    then press ev s
    else s

-- Hands all the buffers from the address `bufs` on to the device.
pub refill : ℕ → Virtq → Virtq
refill bufs vq =
    for_range event_buf_count 0 (λ i vq'. virtq_push_buf (bufs + i * event_size) event_size 2 vq')
      vq

-- How many elements of the used ring are new.
abbrev pub pending : Virtq → ℕ
pending vq = (vq.used.idx + 65536 - vq.last_used_idx) % 65536

module _ {ℓ} {S : Type ℓ} (handler : VirtioInputEvent → S → S) (bufs : ℕ)
    (events : ℕ → VirtioInputEvent) where
  -- One round of `drain_events`: an event is handled and its buffer handed back.
  abbrev pub drain_one : ℕ → ℕ → Virtq → S → Virtq × S
  drain_one id len vq s = (
    virtq_push_buf (bufs + id * event_size) event_size 2 vq,
    if leb event_size len then handler (events id) s else s,
  )

  -- The loop, with the number of rounds made; its first argument bounds them.
  pub drain : ℕ → Virtq → S → ℕ × Virtq × S
  drain zero vq s = (0, vq, s)
  drain (suc fuel) vq s =
      let (popped, vq') = virtq_pop_used vq in
      elim popped [
        | none ↦ (0, vq, s)
        | some (id, len) ↦
            let (vq'', s') = drain_one id len vq' s in
            let (count, vq₁, s₁) = drain fuel vq'' s' in (count + 1, vq₁, s₁)
      ]

  pub drain_events : Virtq → S → ℕ × Virtq × S
  drain_events vq s = drain (pending vq) vq s
