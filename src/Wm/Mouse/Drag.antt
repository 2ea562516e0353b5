-- ===== src/Wm/Mouse/Drag.antt =====
-- Mouse events that move windows: the stack is kept, and a title bar stays on the screen.
use dragoon_kernel.Prelude.{
  if_both, ℕ, zero, suc, ◌+◌, ◌≡◌, ◌≢◌, ◌≤◌, Bool, true, false, not, ◌&&◌, if◌then◌else◌, ltb, has,
  arith, refl, ap, sym, subst, ◌∙◌, inl, inr, Bool-cases, Option-cases, some, ℕ_discrete, find_from,
  Distinct, ◌⊎◌, ◌<◌,
}
use dragoon_kernel.Prelude.Int.{ℤ, pos, negsuc, minus_one, ◌-ℤ◌, ◌+ℤ◌, ltb_ℤ}
use dragoon_kernel.Wm.{
  Wm, WmWindow, wm_max_windows, titlebar_h, taskbar_y, start_btn_w, put, wm_focus_window,
}
use dragoon_kernel.Wm.Stack.{stack}
use dragoon_kernel.Wm.Invariant.{IsStacked, is_top}
use dragoon_kernel.Wm.Operations.{wm_focus_window_lem}
use dragoon_kernel.Wm.Mouse.{
  left, clamp_y, drag, click_taskbar, click_window, click_windows, click, on_close, hit, start_drag,
  button_width, wm_handle_mouse,
}

-- States that differ in nothing that the stack and the focus stand on.
pub record Alike (s t : Wm) : Type 0 where
  pub order : stack t ≡ stack s
  pub visible : (i : ℕ) → (t.windows i).visible ≡ (s.windows i).visible
  pub focused : (i : ℕ) → (t.windows i).focused ≡ (s.windows i).focused

pub Alike-IsStacked : (s t : Wm) → Alike s t → IsStacked s → IsStacked t
Alike-IsStacked s t a h = record {
  shows = record {
    visible = λ i.
        ap (λ l. has l i) a.order
        ∙ h.shows.visible i
        ∙ ap (λ b. if ltb i wm_max_windows then b else false) (sym (a.visible i));
    distinct = subst Distinct (sym a.order) h.shows.distinct;
  };
  focus_on_top = λ i v lt.
      a.focused i
      ∙ h.focus_on_top i (sym (a.visible i) ∙ v) lt
      ∙ ap (λ l. is_top l i) (sym a.order);
}

pub put-Alike :
    (i : ℕ) (win : WmWindow) (s : Wm)
    → win.visible ≡ (s.windows i).visible
    → win.focused ≡ (s.windows i).focused
    → Alike s (put i win s)
put-Alike i win s v f = record {
  order = refl;
  visible = λ j. elim (ℕ_discrete i j) [
    | yes here ↦ ground (arith, v, ap (λ k. (s.windows k).visible) here)
    | no other ↦ ground (arith, other)
  ];
  focused = λ j. elim (ℕ_discrete i j) [
    | yes here ↦ ground (arith, f, ap (λ k. (s.windows k).focused) here)
    | no other ↦ ground (arith, other)
  ];
}

pub focus-IsStacked : (id : ℤ) (s : Wm) → IsStacked s → IsStacked (wm_focus_window id s)
focus-IsStacked id s h = elim (wm_focus_window_lem id s h) [
  | inl (_, e) ↦ subst IsStacked (sym e) h
  | inr (_, _, f) ↦ f.stacked
]

drag-Alike : (mx my : ℤ) (released : Bool) (i : ℕ) (s : Wm) → Alike s (drag mx my released i s)
drag-Alike mx my true i s = put-Alike i _ s refl refl
drag-Alike mx my false i s = put-Alike i _ s refl refl

-- The stack is right in the state of a result.
abbrev Stacked : ℤ × Wm → Type 0
Stacked r = IsStacked r.1

click_taskbar-IsStacked :
    (mx : ℤ) (n i : ℕ) (bx : ℤ) (s : Wm) → IsStacked s → IsStacked (click_taskbar mx n i bx s)
unfolding click_taskbar
click_taskbar-IsStacked mx zero i bx s h = h
click_taskbar-IsStacked mx (suc n) i bx s h =
    if_both IsStacked (not (s.windows (s.z_order i)).visible)
      (click_taskbar-IsStacked mx n (i + 1) bx s h)
      (if_both IsStacked
        (not (ltb_ℤ mx bx) && ltb_ℤ mx (bx +ℤ button_width (s.windows (s.z_order i))))
        (focus-IsStacked (pos (s.z_order i)) s h)
        (click_taskbar-IsStacked mx n (i + 1)
          (bx +ℤ button_width (s.windows (s.z_order i)) +ℤ pos 4) s h))

click_window-IsStacked :
    (mx my : ℤ) (id : ℕ) (s : Wm) → IsStacked s → IsStacked (click_window mx my id s).1
unfolding click_window
click_window-IsStacked mx my id s h =
    let t = wm_focus_window (pos id) s in
    let win = t.windows id in
    let kept = focus-IsStacked (pos id) s h in
    if_both Stacked (on_close mx my win) kept (
      if_both Stacked (ltb_ℤ my (win.y +ℤ titlebar_h +ℤ pos 1))
        (Alike-IsStacked t (put id (start_drag mx my win) t)
          (put-Alike id (start_drag mx my win) t refl refl) kept)
        kept)

click_windows-IsStacked :
    (mx my : ℤ) (n : ℕ) (s : Wm) → IsStacked s → IsStacked (click_windows mx my n s).1
unfolding click_windows
click_windows-IsStacked mx my zero s h = h
click_windows-IsStacked mx my (suc n) s h =
    let rest = click_windows-IsStacked mx my n s h in
    let win = s.windows (s.z_order n) in
    if_both Stacked (not win.visible) rest
      (if_both Stacked (not (hit mx my win)) rest (click_window-IsStacked mx my (s.z_order n) s h))

click-IsStacked : (mx my : ℤ) (s : Wm) → IsStacked s → IsStacked (click mx my s).1
unfolding click
click-IsStacked mx my s h =
    if_both Stacked (not (ltb_ℤ my taskbar_y))
      (if_both Stacked (ltb_ℤ mx start_btn_w) h
        (click_taskbar-IsStacked mx s.z_count 0 (start_btn_w +ℤ pos 4) s h))
      (click_windows-IsStacked mx my s.z_count s h)

-- If the stack of shown windows is right, it still is after `wm_handle_mouse`, wherever the pointer
-- and whichever the buttons.
pub wm_handle_mouse-IsStacked :
    (mx my : ℤ) (buttons : ℕ) (s : Wm) → IsStacked s → IsStacked (wm_handle_mouse mx my buttons s).1
unfolding wm_handle_mouse
wm_handle_mouse-IsStacked mx my buttons s h =
    let t = record s { prev_buttons = buttons } in
    let h' =
      Alike-IsStacked s t (record { order = refl; visible = λ i. refl; focused = λ i. refl }) h in
    elim (Option-cases (find_from wm_max_windows 0 (λ i. (t.windows i).dragging))) [
      | inr (i, e) ↦
          rw (e, wm_handle_mouse)
            (Alike-IsStacked t (drag mx my (not (left buttons) && left s.prev_buttons) i t)
              (drag-Alike mx my (not (left buttons) && left s.prev_buttons) i t) h')
      | inl e ↦
          rw (e, wm_handle_mouse)
            (if_both Stacked (not (left buttons && not (left s.prev_buttons))) h'
              (click-IsStacked mx my t h'))
    ]

-- A height `y` for a window that is asked to stand at `d`: there, or at the nearest of 0 and 436.
abbrev pub StandsAt : ℤ → ℤ → Type 0
StandsAt (negsuc n) y = y ≡ pos 0
StandsAt (pos n) y = ((n ≤ 436) × (y ≡ pos n)) ⊎ ((436 < n) × (y ≡ pos 436))

clamp_y-StandsAt : (d : ℤ) → StandsAt d (clamp_y d)
clamp_y-StandsAt (negsuc n) = ground arith
clamp_y-StandsAt (pos n) = elim (Bool-cases (ltb 436 n)) [
  | inl e ↦ inr (ground (arith, e), ground (arith, e))
  | inr e ↦ inl (ground (arith, e), ground (arith, e))
]

-- While the left button is held and a window is being dragged, the first such window follows the
-- pointer: its `x` is the pointer's less the offset at which it was taken, and so is its `y` where
-- that is from 0 to 436, which is 0 if it would be less and 436 if it would be more, so that its title
-- bar stays between the top of the screen and the taskbar; no other window changes.
pub wm_handle_mouse-drag :
    (mx my : ℤ) (buttons : ℕ) (s : Wm) (i : ℕ)
    → find_from wm_max_windows 0 (λ j. (s.windows j).dragging) ≡ some i
    → left buttons ≡ true
    → let (r, t) = wm_handle_mouse mx my buttons s in
      (r ≡ minus_one)
      × ((t.windows i).x ≡ mx -ℤ (s.windows i).drag_ox)
      × StandsAt (my -ℤ (s.windows i).drag_oy) (t.windows i).y
      × ((j : ℕ) → j ≢ i → t.windows j ≡ s.windows j)
unfolding wm_handle_mouse
wm_handle_mouse-drag mx my buttons s i e l =
    rw (e, wm_handle_mouse, l)
      (
        refl,
        ground arith,
        subst (StandsAt (my -ℤ (s.windows i).drag_oy)) (ground arith)
            (clamp_y-StandsAt (my -ℤ (s.windows i).drag_oy)),
        λ j ne. ground (arith, ne),
      )
