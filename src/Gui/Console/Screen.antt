-- ===== src/Gui/Console/Screen.antt =====
-- kernel/gui.c: the rows of the terminal as a list of lines.
use dragoon_kernel.Prelude.{
  ℕ, zero, suc, ◌+◌, ◌≡◌, ◌<◌, ◌≤◌, ◌≢◌, true, false, ◌&&◌, List, [], ◌∷◌, ◌++◌, arith, refl, ap,
  ◌∙◌, ℕ_discrete, update, ltb, ◌==◌, if◌then◌else◌, for_range, update_self,
}
use dragoon_kernel.Prelude.Loops.{for_range_inv}
use dragoon_kernel.Gui.Console.{
  Terminal, term_clear, set_char, clear_row, copy_row_up, term_scroll, put_chars, clip, text_at,
  term_cols,
}

abbrev pub Buffer : Type 0
Buffer = ℕ → ℕ → ℕ

-- The line that a row shows.
abbrev pub line : (ℕ → ℕ) → List ℕ
line = text_at term_cols 0

abbrev pub rows : Buffer → ℕ → ℕ → List (List ℕ)
rows buf i zero = []
rows buf i (suc n) = line (buf i) ∷ rows buf (i + 1) n

-- The lines above the row that comes next.
abbrev pub screen : Terminal → List (List ℕ)
screen t = rows t.term_buf 0 t.term_row

pub text_ext :
    (n c : ℕ) (p q : ℕ → ℕ)
    → ((j : ℕ) → c ≤ j → j < c + n → p j ≡ q j)
    → text_at n c p ≡ text_at n c q
unfolding text_at
text_ext zero c p q h = refl
text_ext (suc n) c p q h =
    let here = h c (omega arith) (omega arith) in
    let rest = text_ext n (c + 1) p q (λ j lo hi. h j (omega arith) (omega arith)) in
    ap (λ x. if x == 0 then [] else x ∷ text_at n (c + 1) p) here
    ∙ ap (λ l. if q c == 0 then [] else q c ∷ l) rest

-- The cells before `c` are not written.
put_chars-before :
    (room c : ℕ) (s : List ℕ) (cells : ℕ → ℕ) (j : ℕ) → j < c → put_chars room c s cells j ≡ cells j
unfolding put_chars
put_chars-before zero c s cells j h = ground arith
put_chars-before (suc room) c [] cells j h = ground arith
put_chars-before (suc room) c (x ∷ s) cells j h =
    let rest = put_chars-before room (c + 1) s (update cells c x) j (omega arith) in
    ground (arith, rest)

-- What is written is read again.
pub text_at-put_chars :
    (room c : ℕ) (s : List ℕ) (cells : ℕ → ℕ)
    → text_at room c (put_chars room c s cells) ≡ clip room s
unfolding put_chars text_at clip
text_at-put_chars zero c s cells = refl
text_at-put_chars (suc room) c [] cells = ground arith
text_at-put_chars (suc room) c (x ∷ s) cells = elim (ℕ_discrete x 0) [
  | yes z ↦ rw z (ground arith)
  | no nz ↦
      let ih = text_at-put_chars room (c + 1) s (update cells c x) in
      let here : put_chars room (c + 1) s (update cells c x) c ≡ x =
        put_chars-before room (c + 1) s (update cells c x) c (omega arith)
        ∙ update_self cells x c in
      let no : (x == 0) ≡ false = ground (arith, nz) in rw (no, here, ih, no) refl
]

pub rows_ext :
    (p q : Buffer) (i j n : ℕ)
    → ((k : ℕ) → k < n → line (p (i + k)) ≡ line (q (j + k)))
    → rows p i n ≡ rows q j n
rows_ext p q i j zero h = refl
rows_ext p q i j (suc n) h =
    let first : line (p i) ≡ line (q j) =
      ap (λ k. line (p k)) (omega arith) ∙ h 0 (omega arith) ∙ ap (λ k. line (q k)) (omega arith) in
    let rest = rows_ext p q (i + 1) (j + 1) n (λ k lt.
      ap (λ m. line (p m)) (omega arith)
      ∙ h (k + 1) (omega arith)
      ∙ ap (λ m. line (q m)) (omega arith)) in
    ap (λ l. l ∷ rows p (i + 1) n) first ∙ ap (λ l. line (q j) ∷ l) rest

pub rows-snoc : (p : Buffer) (i n : ℕ) → rows p i (suc n) ≡ rows p i n ++ line (p (i + n)) ∷ []
rows-snoc p i zero = ap (λ k. line (p k) ∷ []) (omega arith)
rows-snoc p i (suc n) =
    ap (λ l. line (p i) ∷ l)
      (rows-snoc p (i + 1) n ∙ ap (λ k. rows p (i + 1) n ++ line (p k) ∷ []) (omega arith))

-- One row is copied from the next.
copy_row_up-cells :
    (r : ℕ) (buf : Buffer) (j c : ℕ)
    → c < 61
    → copy_row_up r buf j c ≡ (if j == r then buf (r + 1) c else buf j c)
copy_row_up-cells r buf j c lt =
    for_range_inv
      (λ k b. (j c : ℕ) → b j c ≡ (if (j == r) && ltb c k then buf (r + 1) c else buf j c))
      (λ k b. set_char r k (b (r + 1) k) b) 61 0 61 buf (omega arith)
      (λ k b lo hi h j c. elim (ℕ_discrete r j) [
        | no other ↦ ground (arith, h j c, other)
        | yes here ↦ elim (ℕ_discrete k c) [
          | no apart ↦ rw (← here) (ground (arith, h r c, apart))
          | yes same ↦ rw (← here, ← same) (ground (arith, h (r + 1) k))
        ]
      ])
      (λ j c. ground arith) j c
    ∙ ground (arith, lt)

-- So the rows go up by one.
scrolled_up :
    (buf : Buffer) (j c : ℕ)
    → c < 61
    → for_range 19 0 copy_row_up buf j c ≡ (if ltb j 19 then buf (j + 1) c else buf j c)
scrolled_up buf j c lt =
    for_range_inv (λ r b. (j c : ℕ) → c < 61 → b j c ≡ (if ltb j r then buf (j + 1) c else buf j c))
      copy_row_up 19 0 19 buf (omega arith)
      (λ r b lo hi h j c lt. copy_row_up-cells r b j c lt ∙ elim (ℕ_discrete r j) [
        | yes here ↦ rw (← here) (ground (arith, h (r + 1) c lt))
        | no other ↦ ground (arith, h j c lt, other)
      ])
      (λ j c lt. ground arith) j c lt

pub clear_row-other : (r : ℕ) (buf : Buffer) (j c : ℕ) → j ≢ r → clear_row r buf j c ≡ buf j c
clear_row-other r buf j c ne =
    for_range_inv (λ k b. b j c ≡ buf j c) (λ k b. set_char r k 0 b) 61 0 61 buf (omega arith)
      (λ k b lo hi h. ground (arith, h, ne)) refl

-- After a scroll the lines are those from the second on.
pub scroll_lem :
    (t : Terminal)
    → ((term_scroll t).term_row ≡ 19) × (rows (term_scroll t).term_buf 0 19 ≡ rows t.term_buf 1 19)
unfolding term_scroll
scroll_lem t = (
  refl,
  rows_ext (clear_row 19 (for_range 19 0 copy_row_up t.term_buf)) t.term_buf 0 1 19 (λ k lt.
      text_ext 60 0 (clear_row 19 (for_range 19 0 copy_row_up t.term_buf) (0 + k))
        (t.term_buf (1 + k))
        (λ c lo hi.
          clear_row-other 19 (for_range 19 0 copy_row_up t.term_buf) (0 + k) c (omega arith)
          ∙ scrolled_up t.term_buf (0 + k) c (omega arith)
          ∙ shift k c lt)),
)
  where
    shift :
        (k c : ℕ)
        → k < 19
        → (if ltb (0 + k) 19 then t.term_buf (0 + k + 1) c else t.term_buf (0 + k) c)
          ≡ t.term_buf (1 + k) c
    shift k c lt =
        let e : 0 + k + 1 ≡ 1 + k = omega arith in
        let small : ltb (0 + k) 19 ≡ true = ground (arith, lt) in rw (small, e) refl

clear_row-cell : (r : ℕ) (buf : Buffer) → clear_row r buf r 0 ≡ 0
clear_row-cell r buf =
    for_range_inv (λ k b. 0 < k → b r 0 ≡ 0) (λ k b. set_char r k 0 b) 61 0 61 buf (omega arith)
      (λ k b lo hi h pos. elim (ℕ_discrete k 0) [
        | yes first ↦ rw first (ground arith)
        | no later ↦ let ih = h (omega (arith, later)) in ground (arith, ih, later)
      ])
      (λ pos. absurd (omega arith)) (omega arith)

-- Every row of a cleared terminal is empty.
pub term_clear-empty : (t : Terminal) (r : ℕ) → r < 20 → line ((term_clear t).term_buf r) ≡ []
unfolding term_clear text_at
term_clear-empty t r lt = let z = cleared r lt in ground (arith, z)
  where
    cleared : (r : ℕ) → r < 20 → for_range 20 0 clear_row t.term_buf r 0 ≡ 0
    cleared =
        for_range_inv (λ k b. (r : ℕ) → r < k → b r 0 ≡ 0) clear_row 20 0 20 t.term_buf
          (omega arith)
          (λ k b lo hi h r lt. elim (ℕ_discrete r k) [
            | yes here ↦ rw here (clear_row-cell k b)
            | no other ↦ clear_row-other k b r 0 other ∙ h r (omega (arith, lt, other))
          ])
          (λ r lt. absurd (omega arith))

-- A list of at most `n` lines, with empty ones behind it.
abbrev pub padded : ℕ → List (List ℕ) → List (List ℕ)
padded zero l = l
padded (suc n) [] = [] ∷ padded n []
padded (suc n) (x ∷ l) = x ∷ padded n l

-- If the rows from the `n`th on are empty, all `m` rows are the first `n` and empty ones.
pub rows-padded :
    (p : Buffer) (i n m : ℕ)
    → n ≤ m
    → ((r : ℕ) → i + n ≤ r → r < i + m → line (p r) ≡ [])
    → rows p i m ≡ padded m (rows p i n)
rows-padded p i zero zero le h = refl
rows-padded p i (suc n) zero le h = absurd (omega arith)
rows-padded p i zero (suc m) le h =
    ap (λ l. l ∷ rows p (i + 1) m) (h i (omega arith) (omega arith))
    ∙ ap (λ l. [] ∷ l)
        (rows-padded p (i + 1) zero m (omega arith) (λ r lo hi. h r (omega arith) (omega arith)))
rows-padded p i (suc n) (suc m) le h =
    ap (λ l. line (p i) ∷ l)
      (rows-padded p (i + 1) n m (omega arith) (λ r lo hi. h r (omega arith) (omega arith)))
