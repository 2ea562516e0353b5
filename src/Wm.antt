-- ===== src/Wm.antt =====
-- kernel/wm.c and wm.h: the window manager, without its drawing.
-- The eight windows, the stack of those that are shown (`z_order`, back to front, up to `z_count`), and the
-- page allocator, from which the pixel buffers come. `int`s are integers.
pub mod Stack
pub mod Raise
pub mod Invariant
pub mod Operations
pub mod Destroy
pub mod Queries
pub mod Mouse
mod Tests
use dragoon_kernel.Prelude.{
  ℕ, zero, suc, ◌+◌, ◌-◌, ◌*◌, ◌/◌, ◌%◌, ◌^◌, Bool, true, false, not, ◌&&◌, ◌||◌, Option, none,
  some, List, [], ◌∷◌, update, ltb, leb, ◌==◌, if◌then◌else◌, find_from, for_range, length,
}
use dragoon_kernel.Prelude.Int.{ℤ, pos, negsuc, minus_one, ◌+ℤ◌, ◌-ℤ◌, ltb_ℤ, word_of}
use dragoon_kernel.Mm.{Mm, page_size, pages_alloc, pages_free}

abbrev pub wm_max_windows : ℕ
wm_max_windows = 8

abbrev pub titlebar_h : ℤ
titlebar_h = pos 20

abbrev pub taskbar_h : ℤ
taskbar_h = pos 24

abbrev pub close_btn_w : ℤ
close_btn_w = pos 16

abbrev pub start_btn_w : ℤ
start_btn_w = pos 60

-- `FB_HEIGHT - TASKBAR_H`.
abbrev pub taskbar_y : ℤ
taskbar_y = pos 456

-- A title is its bytes, without the final zero; `content` is `none` where the source has a null pointer.
pub record WmWindow : Type 0 where
  pub x : ℤ
  pub y : ℤ
  pub w : ℤ
  pub h : ℤ
  pub title : List ℕ
  pub content : Option ℕ
  pub content_w : ℤ
  pub content_h : ℤ
  pub visible : Bool
  pub focused : Bool
  pub dragging : Bool
  pub drag_ox : ℤ
  pub drag_oy : ℤ
  pub needs_redraw : Bool

pub record Wm : Type 0 where
  pub windows : ℕ → WmWindow
  pub z_order : ℕ → ℕ
  pub z_count : ℕ
  pub prev_buttons : ℕ
  pub mm : Mm

-- `windows[i] = win`.
abbrev pub put : ℕ → WmWindow → Wm → Wm
put i win s = record s { windows = update s.windows i win }

pub wm_init : Wm → Wm
wm_init s = record s {
  windows =
      for_range wm_max_windows 0
        (λ i ws. update ws i (record (ws i) { visible = false; content = none })) s.windows;
  z_count = 0;
  prev_buttons = 0;
}

-- The number that an `int` names, if it is that of a visible window.
abbrev pub shown : ℤ → Wm → Option ℕ
shown (negsuc n) s = none
shown (pos i) s =
    if leb wm_max_windows i then none else if not (s.windows i).visible then none else some i

-- Where `z_order` holds `id`, if it does.
abbrev pub z_position : ℕ → Wm → Option ℕ
z_position id s = find_from s.z_count 0 (λ i. s.z_order i == id)

-- `for (i = from; i < from + n; i++) z[i] = z[i + 1]`.
pub shift_down : ℕ → ℕ → (ℕ → ℕ) → ℕ → ℕ
shift_down n from z = for_range n from (λ i z'. update z' i (z' (i + 1))) z

abbrev pub unfocus_all : Wm → Wm
unfocus_all s = record s {
  windows =
      for_range wm_max_windows 0 (λ i ws. update ws i (record (ws i) { focused = false }))
        s.windows;
}

-- Moves `id` to the top of the stack, if it stands in it and not there already.
pub raise : ℕ → Wm → Wm
unfolding shift_down
raise id s = elim (z_position id s) [
  | none ↦ s
  | some p ↦
      if ltb p (s.z_count - 1)
      then record s {
        z_order = update (shift_down (s.z_count - 1 - p) p s.z_order) (s.z_count - 1) id;
      }
      else s
]

-- `wm_focus_window` of a visible window.
pub focus : ℕ → Wm → Wm
unfolding raise
focus id s = let t = unfocus_all s in raise id (put id (record (t.windows id) { focused = true }) t)

pub wm_focus_window : ℤ → Wm → Wm
unfolding focus
wm_focus_window id s = elim (shown id s) [ none ↦ s | some i ↦ focus i s ]

-- At most 31 bytes, up to the terminating zero.
pub copy_title : ℕ → List ℕ → List ℕ
copy_title zero title = []
copy_title (suc n) [] = []
copy_title (suc n) (c ∷ title) = if c == 0 then [] else (c ∷ copy_title n title)

abbrev pub buf_size : ℤ → ℤ → ℕ
buf_size w h = word_of w * word_of h * 4 % 2 ^ 64

abbrev pub buf_pages : ℤ → ℤ → ℕ
buf_pages w h = (buf_size w h + page_size - 1) % 2 ^ 64 / page_size

-- `memset(addr, 0, size)` for an address that is a multiple of 8 and a size that is one of 4, on 64-bit words.
abbrev pub clear_bytes : ℕ → ℕ → (ℕ → ℕ) → ℕ → ℕ
clear_bytes addr size memory a =
    if ltb a addr || leb (addr + size) a
    then memory a
    else if a + 4 == addr + size
    then memory a / 2 ^ 32 * 2 ^ 32
    else 0

-- The window `id` with its buffer at `content`, on top of the stack.
abbrev pub opened : ℕ → WmWindow → ℕ → Wm → Wm
opened id win content s =
    let filled = record (s.mm) {
      memory = clear_bytes content (buf_size win.content_w win.content_h) (s.mm.memory);
    } in
    record s {
      windows = update s.windows id (record win {
        content = some content;
        visible = true;
        focused = false;
        dragging = false;
        needs_redraw = true;
      });
      z_order = update s.z_order s.z_count id;
      z_count = s.z_count + 1;
      mm = filled;
    }

-- `wm_create_window` once it has its buffer.
pub show : ℕ → WmWindow → ℕ → Wm → Wm
show id win content s = wm_focus_window (pos id) (opened id win content s)

pub wm_create_window : List ℕ → ℤ → ℤ → ℤ → ℤ → Wm → ℤ × Wm
wm_create_window title x y w h s =
    elim (find_from wm_max_windows 0 (λ i. not (s.windows i).visible)) [
      | none ↦ (minus_one, s)
      | some id ↦
          let (page, mm) = pages_alloc (buf_pages w h) s.mm in
          let win = record (s.windows id) {
            title = copy_title 31 title;
            x = x;
            y = y;
            content_w = w;
            content_h = h;
            w = w +ℤ pos 2;
            h = h +ℤ titlebar_h +ℤ pos 2;
            content = page;
          } in
          elim page [
            | none ↦ (minus_one, put id win (record s { mm = mm }))
            | some content ↦ (pos id, show id win content (record s { mm = mm }))
          ]
    ]

-- The body of the loop that takes `id` out of the stack of `n`, with its flag `found`.
abbrev pub drop_step : ℕ → ℕ → ℕ → Bool × (ℕ → ℕ) → Bool × (ℕ → ℕ)
drop_step id n i (found, z) =
    let found' = if z i == id then true else found in
    (found', if found' && ltb (i + 1) n then update z i (z (i + 1)) else z)

-- `id` is taken out of the stack.
pub unstack : ℕ → Wm → Wm
unstack id s =
    let (found, z) = for_range s.z_count 0 (drop_step id s.z_count) (false, s.z_order) in
    record s { z_order = z; z_count = if found then s.z_count - 1 else s.z_count }

-- The pixel buffer is given back.
abbrev pub free_content : WmWindow → Mm → Mm
free_content win mm = elim win.content [
  | none ↦ mm
  | some content ↦ pages_free content (buf_pages win.content_w win.content_h) mm
]

abbrev pub focus_top : Wm → Wm
focus_top s = if ltb 0 s.z_count then wm_focus_window (pos (s.z_order (s.z_count - 1))) s else s

-- The window `i` gives back its buffer and is no longer visible.
abbrev pub hide : ℕ → Wm → Wm
hide i s =
    let win = s.windows i in
    record s {
      windows =
          update s.windows i (record win { content = none; visible = false; focused = false });
      mm = free_content win s.mm;
    }

pub wm_destroy_window : ℤ → Wm → Wm
wm_destroy_window id s = elim (shown id s) [ none ↦ s | some i ↦ focus_top (unstack i (hide i s)) ]

pub wm_get_content : ℤ → Wm → Option ℕ
wm_get_content id s = elim (shown id s) [ none ↦ none | some i ↦ (s.windows i).content ]

-- The title and size are there whether or not the window is shown.
abbrev pub in_range : ℤ → Option ℕ
in_range (negsuc n) = none
in_range (pos i) = if leb wm_max_windows i then none else some i

pub wm_get_content_w : ℤ → Wm → ℤ
wm_get_content_w id s = elim (in_range id) [ none ↦ pos 0 | some i ↦ (s.windows i).content_w ]

pub wm_get_content_h : ℤ → Wm → ℤ
wm_get_content_h id s = elim (in_range id) [ none ↦ pos 0 | some i ↦ (s.windows i).content_h ]

pub wm_get_window : ℤ → Wm → Option WmWindow
wm_get_window id s = elim (shown id s) [ none ↦ none | some i ↦ some (s.windows i) ]

pub wm_get_focused : Wm → ℤ
wm_get_focused s =
    elim (find_from wm_max_windows 0 (λ i. (s.windows i).visible && (s.windows i).focused)) [
      | none ↦ minus_one
      | some i ↦ pos i
    ]

pub wm_window_count : Wm → ℕ
wm_window_count s =
    for_range wm_max_windows 0 (λ i count. if (s.windows i).visible then count + 1 else count) 0
