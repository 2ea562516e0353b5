-- ===== src/Printf/Decimal.antt =====
-- The decimal digits of a word.
use native.Mathlib.Nat.{pow-suc}
use dragoon_kernel.Prelude.{
  subst, sym, if◌then◌else◌, ℕ, zero, suc, ◌+◌, ◌*◌, ◌/◌, ◌%◌, ◌^◌, ◌<◌, ◌≡◌, List, [], ◌∷◌, arith,
  ap, ◌∙◌, Bool-cases, inl, inr, ◌==◌,
}
use dragoon_kernel.Printf.{digits_of, unsigned_digits}

-- The number that digits stand for, the highest first, behind the number `val`.
abbrev pub read : ℕ → List ℕ → ℕ
read val [] = val
read val (d ∷ ds) = read (val * 10 + d) ds

digits_of-read :
    (fuel val : ℕ) (found : List ℕ)
    → val < 2 ^ fuel
    → read 0 (digits_of fuel 10 val found) ≡ read val found
unfolding digits_of
digits_of-read zero val found h = let e : 0 ≡ val = omega arith in ap (λ v. read v found) e
digits_of-read (suc fuel) val found h =
    let ih = digits_of-read fuel (val / 10) (val % 10 ∷ found) (omega (arith, pow-suc 2 fuel)) in
    let whole : val / 10 * 10 + val % 10 ≡ val = omega arith in
    elim (Bool-cases (val == 0)) [
      | inl z ↦ let e : 0 ≡ val = ground (arith, z) in rw z (ap (λ v. read v found) e)
      | inr n ↦ rw n (ih ∙ ap (λ v. read v found) whole)
    ]

-- The decimal digits that are printed for a number below 2^64, read from the highest on, give the
-- number back: the 64 rounds of the model are enough.
pub unsigned_digits-read : (val : ℕ) → val < 2 ^ 64 → read 0 (unsigned_digits val 10) ≡ val
unfolding unsigned_digits
unsigned_digits-read val h = elim (Bool-cases (val == 0)) [
  | inl z ↦
      subst (λ b. read 0 (if b then 0 ∷ [] else digits_of 64 10 val []) ≡ val) (sym z)
        (ground (arith, z))
  | inr n ↦
      subst (λ b. read 0 (if b then 0 ∷ [] else digits_of 64 10 val []) ≡ val) (sym n)
        (digits_of-read 64 val [] h)
]
