-- ===== src/Tetris/Lines.antt =====
-- Full rows go, the others keep their order, and as many empty rows come in at the top.
use dragoon_kernel.Prelude.{
  ℕ, zero, suc, ◌+◌, ◌≡◌, ◌≤◌, ◌<◌, Bool, true, not, ◌&&◌, List, [], ◌∷◌, ◌++◌, ◌==◌, if◌then◌else◌,
  arith, ap, ltb, refl, false, Bool-cases, inl, ◌*◌, ◌∙◌, sym, inr,
}
use dragoon_kernel.Tetris.{board_w, all_below, row_full, drop_row, clear_from, clear_lines, board_h}

-- The cells of a row from the column `c` on.
abbrev pub cells : (ℕ → ℕ) → ℕ → ℕ → List ℕ
cells row c zero = []
cells row c (suc n) = row c ∷ cells row (c + 1) n

abbrev pub row : (ℕ → ℕ → ℕ) → ℕ → List ℕ
row board r = cells (board r) 0 board_w

-- The rows below `n`, the last first.
abbrev pub rows : (ℕ → ℕ → ℕ) → ℕ → List (List ℕ)
rows board zero = []
rows board (suc r) = row board r ∷ rows board r

abbrev pub is_full : List ℕ → Bool
is_full [] = true
is_full (v ∷ l) = not (v == 0) && is_full l

abbrev pub open_rows : List (List ℕ) → List (List ℕ)
open_rows [] = []
open_rows (l ∷ ls) = if is_full l then open_rows ls else (l ∷ open_rows ls)

abbrev pub full_rows : List (List ℕ) → ℕ
full_rows [] = 0
full_rows (l ∷ ls) = if is_full l then full_rows ls + 1 else full_rows ls

-- `n` empty rows.
abbrev pub blanks : ℕ → List (List ℕ)
blanks zero = []
blanks (suc n) = cells (λ c. 0) 0 board_w ∷ blanks n

row_full-is_full : (board : ℕ → ℕ → ℕ) (r : ℕ) → row_full board r ≡ is_full (row board r)
unfolding row_full all_below
row_full-is_full board r = ground arith

drop_row-above :
    (r : ℕ) (board : ℕ → ℕ → ℕ) (j : ℕ) → j < r → row (drop_row r board) (suc j) ≡ row board j
unfolding drop_row
drop_row-above r board j lt = ground (arith, lt)

drop_row-top : (r : ℕ) (board : ℕ → ℕ → ℕ) → row (drop_row r board) 0 ≡ cells (λ c. 0) 0 board_w
unfolding drop_row
drop_row-top r board = ground arith

-- The rows from the dropped one up.
drop_row-rows :
    (r n : ℕ) (board : ℕ → ℕ → ℕ)
    → n ≤ r
    → rows (drop_row r board) (suc n) ≡ rows board n ++ blanks 1
drop_row-rows r zero board le = ap (λ l. l ∷ []) (drop_row-top r board)
drop_row-rows r (suc n) board le =
    ground (arith, drop_row-above r board n (omega arith), drop_row-rows r n board (omega arith))

blanks_under : (ls : List (List ℕ)) (k : ℕ) → (ls ++ blanks 1) ++ blanks k ≡ ls ++ blanks (k + 1)
blanks_under [] k = let e : k + 1 ≡ suc k = omega arith in rw e refl
blanks_under (l ∷ ls) k = ap (λ m. l ∷ m) (blanks_under ls k)

open_rows-blank : (ls : List (List ℕ)) → open_rows (ls ++ blanks 1) ≡ open_rows ls ++ blanks 1
open_rows-blank [] = refl
open_rows-blank (l ∷ ls) = ground (arith, open_rows-blank ls)

full_rows-blank : (ls : List (List ℕ)) → full_rows (ls ++ blanks 1) ≡ full_rows ls
full_rows-blank [] = refl
full_rows-blank (l ∷ ls) = ground (arith, full_rows-blank ls)

-- The rows from `n` on are left alone.
drop_row-below :
    (r : ℕ) (board : ℕ → ℕ → ℕ) (j : ℕ) → r < j → row (drop_row r board) j ≡ row board j
unfolding drop_row
drop_row-below r board zero lt = absurd (omega arith)
drop_row-below r board (suc j) lt = let ge : ltb j r ≡ false = ground arith in rw ge refl

clear_from-below :
    (fuel n : ℕ) (board : ℕ → ℕ → ℕ) (j : ℕ)
    → n ≤ j
    → row (clear_from fuel n board).1 j ≡ row board j
unfolding clear_from
clear_from-below zero n board j le = refl
clear_from-below (suc fuel) zero board j le = refl
clear_from-below (suc fuel) (suc r) board j le = elim (Bool-cases (row_full board r)) [
  | inl e ↦
      rw (e, clear_from)
        (clear_from-below fuel (suc r) (drop_row r board) j le
          ∙ drop_row-below r board j (omega arith))
  | inr e ↦ rw (e, clear_from) (clear_from-below fuel r board j (omega arith))
]

-- How many rows went, and what the rows below `n` are then.
pub record Clears (board : ℕ → ℕ → ℕ) (n : ℕ) (res : ℕ × (ℕ → ℕ → ℕ)) : Type 0 where
  pub count : res.0 ≡ full_rows (rows board n)
  pub left : rows res.1 n ≡ open_rows (rows board n) ++ blanks res.0

clear_from-Clears :
    (fuel n : ℕ) (board : ℕ → ℕ → ℕ)
    → n + full_rows (rows board n) ≤ fuel
    → Clears board n (clear_from fuel n board)
unfolding clear_from
clear_from-Clears zero zero board le = record { count = refl; left = refl }
clear_from-Clears zero (suc n) board le = absurd (omega arith)
clear_from-Clears (suc fuel) zero board le = record { count = refl; left = refl }
clear_from-Clears (suc fuel) (suc r) board le = elim (Bool-cases (row_full board r)) [
  | inl e ↦
      let f : is_full (row board r) ≡ true = sym (row_full-is_full board r) ∙ e in
      let shifted = drop_row-rows r r board (omega arith) in
      let fewer : full_rows (rows (drop_row r board) (suc r)) ≡ full_rows (rows board r) =
        ap full_rows shifted ∙ full_rows-blank (rows board r) in
      let all : full_rows (rows board (suc r)) ≡ full_rows (rows board r) + 1 =
        ap (λ b. if b then full_rows (rows board r) + 1 else full_rows (rows board r)) f in
      let ih = clear_from-Clears fuel (suc r) (drop_row r board) (omega (arith, le, fewer, all)) in
      let k = (clear_from fuel (suc r) (drop_row r board)).0 in
      rw (e, clear_from)
        (record {
          count = ap (λ m. m + 1) (ih.count ∙ fewer) ∙ sym all;
          left =
              ih.left
              ∙ ap (λ ls. open_rows ls ++ blanks k) shifted
              ∙ ap (λ ls. ls ++ blanks k) (open_rows-blank (rows board r))
              ∙ blanks_under (open_rows (rows board r)) k
              ∙ ap
                  (λ b.
                    (if b
                      then open_rows (rows board r)
                      else (row board r ∷ open_rows (rows board r)))
                    ++ blanks (k + 1))
                  (sym f);
        })
  | inr e ↦
      let f : is_full (row board r) ≡ false = sym (row_full-is_full board r) ∙ e in
      let all : full_rows (rows board (suc r)) ≡ full_rows (rows board r) =
        ap (λ b. if b then full_rows (rows board r) + 1 else full_rows (rows board r)) f in
      let ih = clear_from-Clears fuel r board (omega (arith, le, all)) in
      let b' = (clear_from fuel r board).1 in
      let k = (clear_from fuel r board).0 in
      rw (e, clear_from)
        (record {
          count = ih.count ∙ sym all;
          left =
              ap (λ l. l ∷ rows b' r) (clear_from-below fuel r board r (omega arith))
              ∙ ap (λ ls. row board r ∷ ls) ih.left
              ∙ ap
                  (λ b.
                    (if b
                      then open_rows (rows board r)
                      else (row board r ∷ open_rows (rows board r)))
                    ++ blanks k)
                  (sym f);
        })
]

full_rows-le : (board : ℕ → ℕ → ℕ) (n : ℕ) → full_rows (rows board n) ≤ n
full_rows-le board zero = omega arith
full_rows-le board (suc n) = ground (arith, full_rows-le board n)

-- `clear_lines` returns how many of the 20 rows are full; the board it leaves has the other rows in
-- their order, with as many empty rows above them.
pub clear_lines_lem : (board : ℕ → ℕ → ℕ) → Clears board board_h (clear_lines board)
unfolding clear_lines
clear_lines_lem board =
    clear_from-Clears (2 * board_h) board_h board (omega (arith, full_rows-le board board_h))
