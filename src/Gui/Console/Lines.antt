-- ===== src/Gui/Console/Lines.antt =====
-- kernel/gui.c: the terminal shows the last twenty lines that were put.
use dragoon_kernel.Prelude.{
  ℕ, zero, suc, ◌+◌, ◌≡◌, ◌<◌, ◌≤◌, true, false, List, [], ◌∷◌, ◌++◌, map, arith, refl, sym, ap,
  ◌∙◌, update, leb, if◌then◌else◌, length, inl, inr, Bool-cases, update_self, update_ne,
}
use dragoon_kernel.Gui.Console.{
  Terminal, term_clear, term_scroll, put_line_at, put_chars, term_putline, clip,
}
use dragoon_kernel.Gui.Console.Screen.{
  Buffer, line, rows, screen, rows_ext, rows-snoc, rows-padded, padded, term_clear-empty,
  text_at-put_chars, scroll_lem,
}

-- The last `n` of a list.
abbrev pub last {ℓ} : {A : Type ℓ} → ℕ → List A → List A
last n [] = []
last n (x ∷ l) = if leb (suc (length l)) n then x ∷ l else last n l

module _ {ℓ} {A : Type ℓ} where
  length-append : (l k : List A) → length (l ++ k) ≡ length l + length k
  length-append [] k = omega arith
  length-append (x ∷ l) k = omega (arith, length-append l k)

  last_self : (n : ℕ) (l : List A) → length l ≤ n → last n l ≡ l
  last_self n [] h = refl
  last_self n (x ∷ l) h = ground (arith, h)

  -- What the first lines lose, they would lose in any case.
  last-append : (n : ℕ) (l k : List A) → last n (last n l ++ k) ≡ last n (l ++ k)
  last-append n [] k = refl
  last-append n (x ∷ l) k = elim (Bool-cases (leb (suc (length l)) n)) [
    | inl e ↦ rw e refl
    | inr e ↦
        let longer : leb (suc (length (l ++ k))) n ≡ false = ground (arith, e, length-append l k) in
        rw (e, longer) (last-append n l k)
  ]

append-nil {ℓ} : {A : Type ℓ} (l : List A) → l ++ [] ≡ l
append-nil [] = refl
append-nil (x ∷ l) = ap (λ k. x ∷ k) (append-nil l)

append-cons {ℓ} : {A : Type ℓ} (l : List A) (x : A) (k : List A) → (l ++ x ∷ []) ++ k ≡ l ++ x ∷ k
append-cons [] x k = refl
append-cons (y ∷ l) x k = ap (λ m. y ∷ m) (append-cons l x k)

length-rows : (p : Buffer) (i n : ℕ) → length (rows p i n) ≡ n
length-rows p i zero = refl
length-rows p i (suc n) = ap suc (length-rows p (i + 1) n)

-- A line in a terminal that has room for it.
put_line_at-screen :
    (s : List ℕ) (t : Terminal) → screen (put_line_at s t) ≡ screen t ++ clip 60 s ∷ []
put_line_at-screen s t =
    let cells = put_chars 60 0 s (t.term_buf t.term_row) in
    let buf = update t.term_buf t.term_row cells in
    let next : 0 + t.term_row ≡ t.term_row = omega arith in
    let n : t.term_row + 1 ≡ suc t.term_row = omega arith in
    ap (rows buf 0) n
    ∙ rows-snoc buf 0 t.term_row
    ∙ ap (λ l. l ++ line (buf (0 + t.term_row)) ∷ [])
        (rows_ext buf t.term_buf 0 0 t.term_row (λ k lt.
          ap line (update_ne t.term_buf cells t.term_row (0 + k) (λ e. omega (arith, e, lt)))))
    ∙ ap (λ x. rows t.term_buf 0 t.term_row ++ x ∷ [])
        (ap (λ i. line (buf i)) next
          ∙ ap line (update_self t.term_buf cells t.term_row)
          ∙ text_at-put_chars 60 0 s (t.term_buf t.term_row))

-- A line is put below the others; the first is lost where there are twenty.
term_putline-screen :
    (s : List ℕ) (t : Terminal)
    → t.term_row ≤ 20
    → (screen (term_putline s t) ≡ last 20 (screen t ++ clip 60 s ∷ []))
      × ((term_putline s t).term_row ≤ 20)
unfolding term_putline
term_putline-screen s t h = elim (Bool-cases (leb 20 t.term_row)) [
  | inr e ↦ rw e (
    put_line_at-screen s t
        ∙ sym (last_self 20 (screen t ++ clip 60 s ∷ []) (omega (arith, room e, one_more s t))),
    omega (arith, room e),
  )
  | inl e ↦ rw e (full (omega (arith, h, no_room e)))
]
  where
    room : leb 20 t.term_row ≡ false → t.term_row < 20
    room e = ground (arith, e)

    no_room : leb 20 t.term_row ≡ true → 20 ≤ t.term_row
    no_room e = ground (arith, e)

    one_more : (s : List ℕ) (t : Terminal) → length (screen t ++ clip 60 s ∷ []) ≡ t.term_row + 1
    one_more s t =
        omega
          (arith, length-append (screen t) (clip 60 s ∷ []), length-rows t.term_buf 0 t.term_row)

    full :
        t.term_row ≡ 20
        → (screen (put_line_at s (term_scroll t)) ≡ last 20 (screen t ++ clip 60 s ∷ []))
          × ((put_line_at s (term_scroll t)).term_row ≤ 20)
    full e =
        let (r, moved) = scroll_lem t in
        let u = term_scroll t in
        let below = rows t.term_buf 1 19 ++ clip 60 s ∷ [] in
        let twenty : length below ≡ 20 = omega (
          arith,
          length-append (rows t.term_buf 1 19) (clip 60 s ∷ []),
          length-rows t.term_buf 1 19,
        ) in
        let long : leb (suc (length below)) 20 ≡ false = ground (arith, twenty) in
        (
          put_line_at-screen s u
              ∙ ap (λ n. rows u.term_buf 0 n ++ clip 60 s ∷ []) r
              ∙ ap (λ l. l ++ clip 60 s ∷ []) moved
              ∙ sym (last_self 20 below (omega (arith, twenty)))
              ∙ sym (ap (λ b. if b then line (t.term_buf 0) ∷ below else last 20 below) long)
              ∙ sym (ap (λ n. last 20 (rows t.term_buf 0 n ++ clip 60 s ∷ [])) e),
          omega (arith, r),
        )

pub put_lines : List (List ℕ) → Terminal → Terminal
put_lines [] t = t
put_lines (s ∷ l) t = put_lines l (term_putline s t)

put_lines-screen :
    (l : List (List ℕ)) (t : Terminal)
    → t.term_row ≤ 20
    → screen (put_lines l t) ≡ last 20 (screen t ++ map (clip 60) l)
unfolding put_lines
put_lines-screen [] t h =
    sym (last_self 20 (screen t) (omega (arith, h, length-rows t.term_buf 0 t.term_row)))
    ∙ ap (last 20) (sym (append-nil (screen t)))
put_lines-screen (s ∷ l) t h =
    let (e, h') = term_putline-screen s t h in
    put_lines-screen l (term_putline s t) h'
    ∙ ap (λ k. last 20 (k ++ map (clip 60) l)) e
    ∙ last-append 20 (screen t ++ clip 60 s ∷ []) (map (clip 60) l)
    ∙ ap (last 20) (append-cons (screen t) (clip 60 s) (map (clip 60) l))

-- The rows that are still to come are empty.
record IsBlank (t : Terminal) : Type 0 where
  within : t.term_row ≤ 20
  blank : (r : ℕ) → t.term_row ≤ r → r < 20 → line (t.term_buf r) ≡ []

put_line_at-blank :
    (s : List ℕ) (t : Terminal)
    → ((r : ℕ) → t.term_row ≤ r → r < 20 → line (t.term_buf r) ≡ [])
    → (r : ℕ) → t.term_row + 1 ≤ r
    → r < 20
    → line ((put_line_at s t).term_buf r) ≡ []
put_line_at-blank s t h r lo hi =
    ap line (
      update_ne t.term_buf (put_chars 60 0 s (t.term_buf t.term_row)) t.term_row r
        (λ e. omega (arith, e, lo)))
    ∙ h r (omega arith) hi

term_putline-IsBlank : (s : List ℕ) (t : Terminal) → IsBlank t → IsBlank (term_putline s t)
unfolding term_putline
term_putline-IsBlank s t h = record {
  within = unfold term_putline in (term_putline-screen s t h.within).1;
  blank = elim (Bool-cases (leb 20 t.term_row)) [
    | inr e ↦ rw e (put_line_at-blank s t h.blank)
    | inl e ↦ rw e (λ r lo hi. absurd (let (at, _) = scroll_lem t in omega (arith, at, lo, hi)))
  ];
}

put_lines-IsBlank : (l : List (List ℕ)) (t : Terminal) → IsBlank t → IsBlank (put_lines l t)
unfolding put_lines
put_lines-IsBlank [] t h = h
put_lines-IsBlank (s ∷ l) t h = put_lines-IsBlank l (term_putline s t) (term_putline-IsBlank s t h)

term_clear-IsBlank : (t : Terminal) → IsBlank (term_clear t)
term_clear-IsBlank t = record {
  within = unfold term_clear in omega arith;
  blank = λ r lo hi. term_clear-empty t r hi;
}

-- After any lines have been put to a cleared terminal, its 20 rows show the last 20 of them in their
-- order, each cut off at its first zero and after 60 bytes, and behind these, where there are fewer,
-- empty rows.
pub put_lines_lem :
    (l : List (List ℕ)) (t : Terminal)
    → rows (put_lines l (term_clear t)).term_buf 0 20 ≡ padded 20 (last 20 (map (clip 60) l))
put_lines_lem l t =
    let u = put_lines l (term_clear t) in
    let b = put_lines-IsBlank l (term_clear t) (term_clear-IsBlank t) in
    rows-padded u.term_buf 0 u.term_row 20 b.within
      (λ r lo hi. b.blank r (omega arith) (omega arith))
    ∙ ap (padded 20) (unfold term_clear in put_lines-screen l (term_clear t) (omega arith))
