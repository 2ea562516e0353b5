-- ===== src/Wm/Invariant.antt =====
-- The windows, the stack and the focus, under each operation.
use dragoon_kernel.Prelude.{
  ℕ, ◌≡◌, ◌<◌, none, update, Bool, true, false, List, [], ◌∷◌, ◌++◌, ◌==◌, if◌then◌else◌, ltb, has,
  remove, update, update_self, arith, refl, ap, sym, subst, ◌∙◌, for_range, ℕ_discrete, Distinct,
  Distinct-append, Distinct-remove, has-append, has-remove,
}
use dragoon_kernel.Prelude.Loops.{for_range_inv}
use dragoon_kernel.Wm.Raise.{raise-stack}
use dragoon_kernel.Wm.Stack.{stack}
use dragoon_kernel.Wm.{Wm, WmWindow, wm_init, wm_max_windows, unfocus_all, raise, focus, put}

-- Is `i` the last of a list?
abbrev pub is_top : List ℕ → ℕ → Bool
is_top [] i = false
is_top (x ∷ []) i = x == i
is_top (x ∷ y ∷ l) i = is_top (y ∷ l) i

is_top-append : (l : List ℕ) (x i : ℕ) → is_top (l ++ x ∷ []) i ≡ (x == i)
is_top-append [] x i = refl
is_top-append (y ∷ []) x i = refl
is_top-append (y ∷ z ∷ l) x i = is_top-append (z ∷ l) x i

-- The stack holds the visible windows, each once.
pub record IsShown (s : Wm) : Type 0 where
  pub visible :
      (i : ℕ) → has (stack s) i ≡ (if ltb i wm_max_windows then (s.windows i).visible else false)
  pub distinct : Distinct (stack s)

-- Moreover the window on top, and no other visible one, has the focus.
pub record IsStacked (s : Wm) : Type 0 where
  pub shows : IsShown s
  pub focus_on_top :
      (i : ℕ)
      → (s.windows i).visible ≡ true
      → i < wm_max_windows
      → (s.windows i).focused ≡ is_top (stack s) i

unfocused :
    (ws : ℕ → WmWindow) (j : ℕ)
    → for_range wm_max_windows 0 (λ i ws'. update ws' i (record (ws' i) { focused = false })) ws j
      ≡ (if ltb j wm_max_windows then record (ws j) { focused = false } else ws j)
unfocused ws =
    for_range_inv
      (λ i ws'. (j : ℕ) → ws' j ≡ (if ltb j i then record (ws j) { focused = false } else ws j))
      (λ i ws'. update ws' i (record (ws' i) { focused = false })) wm_max_windows 0 wm_max_windows
      ws (omega arith)
      (λ i ws' lo hi h j. elim (ℕ_discrete i j) [
        | yes here ↦ rw (← here) (ground (arith, h i))
        | no other ↦ ground (arith, h j)
      ])
      (λ j. ground arith)

raise-windows : (id : ℕ) (s : Wm) → (raise id s).windows ≡ s.windows
unfolding raise
raise-windows id s = ground arith

abbrev lit : ℕ → Wm → Wm
lit id s = let t = unfocus_all s in put id (record (t.windows id) { focused = true }) t

lit-visible : (id : ℕ) (s : Wm) (j : ℕ) → ((lit id s).windows j).visible ≡ (s.windows j).visible
lit-visible id s j = elim (ℕ_discrete id j) [
  | yes here ↦ rw (← here) (ground (arith, ap (λ w. w.visible) (unfocused s.windows id)))
  | no other ↦ ground (arith, ap (λ w. w.visible) (unfocused s.windows j))
]

lit-focused :
    (id : ℕ) (s : Wm) (j : ℕ) → j < wm_max_windows → ((lit id s).windows j).focused ≡ (id == j)
lit-focused id s j lt = elim (ℕ_discrete id j) [
  | yes here ↦ rw (← here) (ground arith)
  | no other ↦ ground (arith, ap (λ w. w.focused) (unfocused s.windows j))
]

-- What `focus` does to the windows and the stack.
pub record Focuses (s : Wm) (id : ℕ) (s' : Wm) : Type 0 where
  pub raised : stack s' ≡ remove id (stack s) ++ id ∷ []
  pub kept : (j : ℕ) → (s'.windows j).visible ≡ (s.windows j).visible
  pub stacked : IsStacked s'

focus-stack :
    (id : ℕ) (s : Wm)
    → has (stack s) id ≡ true
    → stack (focus id s) ≡ remove id (stack s) ++ id ∷ []
unfolding focus
focus-stack id s m = raise-stack id (lit id s) m

focus-visible : (id : ℕ) (s : Wm) (j : ℕ) → ((focus id s).windows j).visible ≡ (s.windows j).visible
unfolding focus
focus-visible id s j = ap (λ ws. (ws j).visible) (raise-windows id (lit id s)) ∙ lit-visible id s j

focus-focused :
    (id : ℕ) (s : Wm) (j : ℕ) → j < wm_max_windows → ((focus id s).windows j).focused ≡ (id == j)
unfolding focus
focus-focused id s j lt =
    ap (λ ws. (ws j).focused) (raise-windows id (lit id s)) ∙ lit-focused id s j lt

relit :
    (b : Bool) (w : WmWindow)
    → record (if b then record w { focused = false } else w) { focused = true }
      ≡ record w { focused = true }
relit true w = refl
relit false w = refl

-- The window that gets the focus changes in nothing else.
pub focus-window :
    (id : ℕ) (s : Wm) → (focus id s).windows id ≡ record (s.windows id) { focused = true }
unfolding focus
focus-window id s =
    ap (λ ws. ws id) (raise-windows id (lit id s))
    ∙ update_self (unfocus_all s).windows (record ((unfocus_all s).windows id) { focused = true })
        id
    ∙ ap {A = WmWindow} {B = WmWindow} (λ w. record w { focused = true }) (unfocused s.windows id)
    ∙ relit (ltb id wm_max_windows) (s.windows id)

-- The list that `focus` leaves holds what it held.
has-raised :
    (l : List ℕ) (id j : ℕ)
    → Distinct l
    → has l id ≡ true
    → has (remove id l ++ id ∷ []) j ≡ has l j
has-raised l id j d m = elim (ℕ_discrete id j) [
  | yes here ↦ ground (arith, has-append (remove id l) id j, has-remove l id j d, ap (has l) here)
  | no other ↦ ground (arith, has-append (remove id l) id j, has-remove l id j d)
]

Distinct-raised : (l : List ℕ) (id : ℕ) → Distinct l → Distinct (remove id l ++ id ∷ [])
Distinct-raised l id d =
    Distinct-append (remove id l) id (Distinct-remove l id d) (ground (arith, has-remove l id id d))

pub focus-Focuses :
    (id : ℕ) (s : Wm) → IsShown s → has (stack s) id ≡ true → Focuses s id (focus id s)
focus-Focuses id s h m = record {
  raised = up;
  kept = focus-visible id s;
  stacked = record {
    shows = record {
      visible = λ i.
          ap (λ l. has l i) up
          ∙ has-raised (stack s) id i h.distinct m
          ∙ h.visible i
          ∙ ap (λ b. if ltb i wm_max_windows then b else false) (sym (focus-visible id s i));
      distinct = subst Distinct (sym up) (Distinct-raised (stack s) id h.distinct);
    };
    focus_on_top = λ i v lt.
        focus-focused id s i lt
        ∙ sym (ap (λ l. is_top l i) up ∙ is_top-append (remove id (stack s)) id i);
  };
}
  where
    up : stack (focus id s) ≡ remove id (stack s) ++ id ∷ []
    up = focus-stack id s m

init-stack : (s : Wm) → stack (wm_init s) ≡ []
unfolding wm_init
init-stack s = refl

pub init-hidden : (s : Wm) (i : ℕ) → i < wm_max_windows → ((wm_init s).windows i).visible ≡ false
unfolding wm_init
init-hidden s i lt =
    for_range_inv (λ n ws. (j : ℕ) → j < n → (ws j).visible ≡ false)
      (λ n ws. update ws n (record (ws n) { visible = false; content = none })) wm_max_windows 0
      wm_max_windows s.windows (omega arith) (λ n ws lo hi h j l. ground (arith, h j))
      (λ j l. absurd (omega arith)) i lt

-- At first no window is shown.
pub wm_init-IsStacked : (s : Wm) → IsStacked (wm_init s)
wm_init-IsStacked s = record {
  shows = record {
    visible = λ i. ap (λ l. has l i) (init-stack s) ∙ ground (arith, init-hidden s i);
    distinct = subst Distinct (sym (init-stack s)) (ground arith);
  };
  focus_on_top = λ i v lt. absurd (ground (arith, v, init-hidden s i lt));
}
