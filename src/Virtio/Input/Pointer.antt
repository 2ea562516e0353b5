-- ===== src/Virtio/Input/Pointer.antt =====
-- The pointer stays on the screen.
use dragoon_kernel.Prelude.{
  ℕ, ◌-◌, ◌*◌, ◌/◌, ◌≡◌, ◌≤◌, ◌<◌, not, Bool, ◌==◌, ltb, if_both, arith, refl, inl, inr, Bool-cases,
}
use dragoon_kernel.Prelude.Int.{ℤ, pos, negsuc, int_of, ◌+ℤ◌, wrap}
use dragoon_kernel.Virtio.Input.{
  VirtioInputEvent, Mouse, process_tablet_event, press, scaled, on_screen, set_button, fb_width,
  fb_height, tablet_abs_max,
}

-- An integer from 0 on and below a bound.
abbrev pub Within : ℕ → ℤ → Type 0
Within size v = (m : ℕ) × (m < size) × (v ≡ pos m)

pub record OnScreen (s : Mouse) : Type 0 where
  pub across : Within fb_width s.mouse_x
  pub down : Within fb_height s.mouse_y
  pub buttons : s.mouse_btns < 4

scaled-across : (v : ℤ) → Within fb_width (scaled fb_width v)
scaled-across (negsuc n) = (0, omega arith, refl)
scaled-across (pos v) = elim (Bool-cases (ltb tablet_abs_max v)) [
  | inl e ↦ (639, omega arith, ground (arith, e))
  | inr e ↦ (v * 639 / tablet_abs_max, ground (arith, e), ground (arith, e))
]

scaled-down : (v : ℤ) → Within fb_height (scaled fb_height v)
scaled-down (negsuc n) = (0, omega arith, refl)
scaled-down (pos v) = elim (Bool-cases (ltb tablet_abs_max v)) [
  | inl e ↦ (479, omega arith, ground (arith, e))
  | inr e ↦ (v * 479 / tablet_abs_max, ground (arith, e), ground (arith, e))
]

on_screen-Within : (size : ℕ) (v : ℤ) → 1 ≤ size → Within size (on_screen size v)
on_screen-Within size (negsuc n) lo = (0, lo, ground arith)
on_screen-Within size (pos v) lo = elim (Bool-cases (ltb v size)) [
  | inl e ↦ (v, ground (arith, e), ground (arith, e))
  | inr e ↦ (size - 1, omega arith, ground (arith, e))
]

set_left-small : (pressed : Bool) (btns : ℕ) → btns < 4 → set_button 1 pressed btns < 4
set_left-small pressed btns lt = ground (arith, lt)

set_right-small : (pressed : Bool) (btns : ℕ) → btns < 4 → set_button 2 pressed btns < 4
set_right-small pressed btns lt = ground (arith, lt)

press-OnScreen : (ev : VirtioInputEvent) (s : Mouse) → OnScreen s → OnScreen (press ev s)
press-OnScreen ev s o = elim (Bool-cases (ev.code == 273)) [
  | inl e ↦ rw e (record {
    across = o.across;
    down = o.down;
    buttons = set_right-small (not (ev.value == 0)) s.mouse_btns o.buttons;
  })
  | inr e ↦ elim (Bool-cases (ev.code == 272)) [
    | inl f ↦
        rw (e, f)
          (record {
            across = o.across;
            down = o.down;
            buttons = set_left-small (not (ev.value == 0)) s.mouse_btns o.buttons;
          })
    | inr f ↦ rw (e, f) o
  ]
]

-- Whatever event the tablet sends, a pointer on the screen of 640 by 480 stays on it, and the buttons
-- stay two bits.
pub process_tablet_event-OnScreen :
    (ev : VirtioInputEvent) (s : Mouse) → OnScreen s → OnScreen (process_tablet_event ev s)
unfolding process_tablet_event
process_tablet_event-OnScreen ev s o =
    let val = int_of ev.value in
    if_both OnScreen (ev.type == 3)
      (if_both OnScreen (ev.code == 0)
        (record { across = scaled-across val; down = o.down; buttons = o.buttons })
        (if_both OnScreen (ev.code == 1)
          (record { across = o.across; down = scaled-down val; buttons = o.buttons }) o))
      (if_both OnScreen (ev.type == 2)
        (if_both OnScreen (ev.code == 0)
          (record {
            across = on_screen-Within fb_width (wrap (s.mouse_x +ℤ val)) (omega arith);
            down = o.down;
            buttons = o.buttons;
          })
          (if_both OnScreen (ev.code == 1)
            (record {
              across = o.across;
              down = on_screen-Within fb_height (wrap (s.mouse_y +ℤ val)) (omega arith);
              buttons = o.buttons;
            })
            o))
        (if_both OnScreen (ev.type == 1) (press-OnScreen ev s o) o))
