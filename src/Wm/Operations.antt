-- ===== src/Wm/Operations.antt =====
-- What creating, destroying and focusing a window do to the stack.
use dragoon_kernel.Prelude.{
  ℕ, ◌≡◌, ◌≢◌, ◌<◌, true, false, not, List, [], ◌∷◌, ◌++◌, has, remove, arith, refl, ap, sym, subst,
  ◌∙◌, ◌⊎◌, inl, inr, Option-cases, none, some, ℕ_discrete, Distinct, Distinct-append, has-append,
  find_from,
}
use dragoon_kernel.Prelude.Int.{ℤ, pos, negsuc, minus_one, ◌+ℤ◌}
use dragoon_kernel.Prelude.Loops.{find_from-some, find_from-none}
use dragoon_kernel.Mm.{Mm, pages_alloc}
use dragoon_kernel.Mm.Alloc.{LacksRun, pages_alloc-LacksRun}
use dragoon_kernel.Wm.Stack.{stack, stack-push}
use dragoon_kernel.Wm.Invariant.{IsShown, IsStacked, Focuses, focus-Focuses}
use dragoon_kernel.Wm.{
  Wm, WmWindow, wm_max_windows, focus, put, show, opened, buf_pages, copy_title, titlebar_h,
  wm_focus_window, wm_create_window, shown,
}

-- `shown` finds a visible window, which the stack holds.
pub shown-has : (id : ℤ) (s : Wm) (i : ℕ) → IsShown s → shown id s ≡ some i → has (stack s) i ≡ true
shown-has (negsuc n) s i h e = absurd (ground (arith, e))
shown-has (pos k) s i h e = ground (arith, e, h.visible i)

pub shown-visible : (s : Wm) (i : ℕ) → IsShown s → has (stack s) i ≡ true → shown (pos i) s ≡ some i
shown-visible s i h m = ground (arith, m, h.visible i)

-- A window that is not shown cannot be focused; one that is comes to the top.
pub wm_focus_window_lem :
    (id : ℤ) (s : Wm)
    → IsStacked s
    → ((shown id s ≡ none) × (wm_focus_window id s ≡ s))
      ⊎ ((i : ℕ) × (shown id s ≡ some i) × Focuses s i (wm_focus_window id s))
unfolding wm_focus_window
wm_focus_window_lem id s h = elim (Option-cases (shown id s)) [
  | inl e ↦ inl (e, ap (λ o. elim o [ none ↦ s | some i ↦ focus i s ]) e)
  | inr (i, e) ↦
      let f = focus-Focuses i s h.shows (shown-has id s i h.shows e) in
      inr (i, e, subst (Focuses s i) (sym (ap (λ o. elim o [ none ↦ s | some i ↦ focus i s ]) e)) f)
]

-- `wm_focus_window` of a window that the stack holds.
pub focus-shown :
    (s : Wm) (i : ℕ) → IsShown s → has (stack s) i ≡ true → Focuses s i (wm_focus_window (pos i) s)
unfolding wm_focus_window
focus-shown s i h m =
    subst (Focuses s i)
      (sym (ap (λ o. elim o [ none ↦ s | some i ↦ focus i s ]) (shown-visible s i h m)))
      (focus-Focuses i s h m)

remove-append : (l : List ℕ) (i : ℕ) → has l i ≡ false → remove i (l ++ i ∷ []) ≡ l
remove-append [] i h = ground arith
remove-append (j ∷ l) i h = ground (arith, remove-append l i (ground arith))

-- A state with the window `id` visible and on the stack, which neither held before.
pub record Pushes (s : Wm) (id : ℕ) (t : Wm) : Type 0 where
  pub pushed : stack t ≡ stack s ++ id ∷ []
  pub now : (t.windows id).visible ≡ true
  pub others : (j : ℕ) → j ≢ id → (t.windows j).visible ≡ (s.windows j).visible

pushed-IsShown :
    (s t : Wm) (id : ℕ)
    → Pushes s id t
    → IsShown s
    → has (stack s) id ≡ false
    → id < wm_max_windows
    → IsShown t
pushed-IsShown s t id p h absent lt = record {
  visible = λ j. ap (λ l. has l j) p.pushed ∙ has-append (stack s) id j ∙ elim (ℕ_discrete id j) [
    | yes here ↦
        ground (arith, p.now, ap (λ k. (t.windows k).visible) here, ap (has (stack s)) here)
    | no other ↦ ground (arith, h.visible j, p.others j (λ e. other (sym e)))
  ];
  distinct = subst Distinct (sym p.pushed) (Distinct-append (stack s) id h.distinct absent);
}

-- Focusing the window on top leaves the stack as it is.
focus_pushed :
    (s t : Wm) (id : ℕ)
    → Pushes s id t
    → IsShown s
    → has (stack s) id ≡ false
    → id < wm_max_windows
    → (stack (wm_focus_window (pos id) t) ≡ stack s ++ id ∷ [])
      × IsStacked (wm_focus_window (pos id) t)
focus_pushed s t id p h absent lt =
    let m : has (stack t) id ≡ true =
      ap (λ l. has l id) p.pushed ∙ has-append (stack s) id id ∙ ground arith in
    let f = focus-shown t id (pushed-IsShown s t id p h absent lt) m in
    (
      f.raised
          ∙ ap (λ l. remove id l ++ id ∷ []) p.pushed
          ∙ ap (λ l. l ++ id ∷ []) (remove-append (stack s) id absent),
      f.stacked,
    )

opened-Pushes :
    (id : ℕ) (win : WmWindow) (content : ℕ) (s : Wm) → Pushes s id (opened id win content s)
opened-Pushes id win content s = record {
  pushed = stack-push s.z_order s.z_count id;
  now = ground arith;
  others = λ j ne. ground (arith, ne);
}

show-stack :
    (id : ℕ) (win : WmWindow) (content : ℕ) (s : Wm)
    → IsShown s
    → has (stack s) id ≡ false
    → id < wm_max_windows
    → (stack (show id win content s) ≡ stack s ++ id ∷ []) × IsStacked (show id win content s)
unfolding show
show-stack id win content s h absent lt =
    focus_pushed s (opened id win content s) id (opened-Pushes id win content s) h absent lt

-- The free window that `wm_create_window` takes is on no stack.
free-absent :
    (s : Wm) (id : ℕ)
    → IsShown s
    → find_from wm_max_windows 0 (λ i. not (s.windows i).visible) ≡ some id
    → (has (stack s) id ≡ false) × (id < wm_max_windows)
free-absent s id h e =
    let f = find_from-some wm_max_windows 0 (λ i. not (s.windows i).visible) id e in
    (ground (arith, h.visible id, f.passes), omega (arith, f.below))

-- A window that is not shown may change without the stack seeing it.
put-IsStacked :
    (s : Wm) (id : ℕ) (win : WmWindow) (mm : Mm)
    → IsStacked s
    → (s.windows id).visible ≡ false
    → win.visible ≡ false
    → IsStacked (put id win (record s { mm = mm }))
put-IsStacked s id win mm h off off' = record {
  shows = record {
    visible = λ j. elim (ℕ_discrete id j) [
      | yes here ↦ ground (arith, h.shows.visible j, ap (λ k. (s.windows k).visible) here)
      | no other ↦ ground (arith, h.shows.visible j)
    ];
    distinct = h.shows.distinct;
  };
  focus_on_top = λ j v lt. elim (ℕ_discrete id j) [
    | yes here ↦ absurd (ground (arith, v, here))
    | no other ↦ ground (arith, v, h.focus_on_top j)
  ];
}

-- What `wm_create_window` promises of its result.
pub data Creates (s : Wm) (n : ℕ) : ℤ × Wm → Type 0 where
  failed :
      (s' : Wm)
      → ((i : ℕ) → i < wm_max_windows → (s.windows i).visible ≡ true) ⊎ LacksRun n s.mm
      → stack s' ≡ stack s
      → IsStacked s'
      → Creates s n (minus_one, s')
  created :
      (id : ℕ) (s' : Wm)
      → id < wm_max_windows
      → has (stack s) id ≡ false
      → stack s' ≡ stack s ++ id ∷ []
      → IsStacked s'
      → Creates s n (pos id, s')

-- If the stack of shown windows is right (it holds each visible window once, and of the visible
-- windows exactly its top has the focus), `wm_create_window` fails only when all 8 windows are
-- visible, or the buffer's size, computed in 64 bits, takes no page, takes more pages than there are,
-- or takes more than are free in a row, and then the stack is as before; otherwise the window it
-- returns is in range, was not on the stack, and is now on top of it. The stack is right afterwards in
-- either case.
pub wm_create_window_lem :
    (title : List ℕ) (x y w h : ℤ) (s : Wm)
    → IsStacked s
    → Creates s (buf_pages w h) (wm_create_window title x y w h s)
unfolding wm_create_window
wm_create_window_lem title x y w h s i =
    elim (Option-cases (find_from wm_max_windows 0 (λ j. not (s.windows j).visible))) [
      | inl e ↦
          rw (e, wm_create_window)
            (failed s
              (inl (λ j lt.
                ground
                  (arith, find_from-none wm_max_windows 0 (λ k. not (s.windows k).visible) e j)))
              refl i)
      | inr (id, e) ↦
          let (absent, lt) = free-absent s id i.shows e in
          let off : (s.windows id).visible ≡ false = ground (
            arith,
            (find_from-some wm_max_windows 0 (λ j. not (s.windows j).visible) id e).passes,
          ) in
          let (page, mm) = pages_alloc (buf_pages w h) s.mm in
          let win = record (s.windows id) {
            title = copy_title 31 title;
            x = x;
            y = y;
            content_w = w;
            content_h = h;
            w = w +ℤ pos 2;
            h = h +ℤ titlebar_h +ℤ pos 2;
            content = page;
          } in
          elim (Option-cases page) [
            | inl f ↦
                rw (e, wm_create_window, f)
                  (failed (put id win (record s { mm = mm }))
                    (inr (pages_alloc-LacksRun (buf_pages w h) s.mm f)) refl
                    (put-IsStacked s id win mm i off off))
            | inr (content, f) ↦
                let (up, stacked) =
                  show-stack id win content (record s { mm = mm })
                    (record { visible = i.shows.visible; distinct = i.shows.distinct }) absent lt in
                rw (e, wm_create_window, f)
                  (created id (show id win content (record s { mm = mm })) lt absent up stacked)
          ]
    ]
