-- ===== src/Vm/Asid.antt =====
-- The ASID bitmap of kernel/vm.c: 256 bits in bytes. ASID 0 is the kernel's, and the answer when
-- none is left.
use Prim.Native.Nat.{bit_and, bit_or}
use dragoon_kernel.Prelude.{
  ℕ, find_from, Bool, update, if◌then◌else◌, ◌≡◌, ◌-◌, ◌<◌, not, ltb, ◌/◌, ◌^◌, ◌%◌, ◌==◌, ◌&&◌,
  inl, true, false, arith, Option-cases, inr, ◌⊎◌, not-false, not-true, none, some, refl,
}
use dragoon_kernel.Prelude.Loops.{find_from-some, find_from-none}
use dragoon_kernel.Bits.{
  nth_bit, nth_bit-cases, pow_pos, bit_and-pow, nth_bit-or_self, nth_bit-or_ne, bit_or-lt,
  nth_bit-clear_self, nth_bit-clear_ne, bit_and-clear-lt,
}

abbrev pub asid_max : ℕ
asid_max = 256

-- `asid_bitmap[i / 8] & (1 << (i % 8))`, read as a truth value.
unfoldable pub asid_used : (ℕ → ℕ) → ℕ → Bool
asid_used bm i = not (bit_and (bm (i / 8)) (2 ^ (i % 8)) == 0)

asid_set : ℕ → (ℕ → ℕ) → ℕ → ℕ
asid_set i bm = update bm (i / 8) (bit_or (bm (i / 8)) (2 ^ (i % 8)))

unfoldable pub asid_alloc : (ℕ → ℕ) → ℕ × (ℕ → ℕ)
unfolding asid_set
asid_alloc bm = elim (find_from (asid_max - 1) 1 (λ i. not (asid_used bm i))) [
  | none ↦ (0, bm)
  | some i ↦ (i, asid_set i bm)
]

unfoldable pub asid_free : ℕ → (ℕ → ℕ) → ℕ → ℕ
asid_free asid bm =
    if ltb 0 asid && ltb asid asid_max
    then update bm (asid / 8) (bit_and (bm (asid / 8)) (2 ^ 8 - 1 - 2 ^ (asid % 8)))
    else bm

abbrev pub IsBytes : (ℕ → ℕ) → Type 0
IsBytes bm = (i : ℕ) → bm i < 2 ^ 8

used-nth : (bm : ℕ → ℕ) (i : ℕ) → asid_used bm i ≡ (nth_bit (i % 8) (bm (i / 8)) == 1)
unfolding asid_used
used-nth bm i = elim (nth_bit-cases (i % 8) (bm (i / 8))) [
  | inl e ↦ rw (bit_and-pow, e) (ground arith)
  | inr e ↦ rw (bit_and-pow, e) (ground (arith, pow_pos (i % 8)))
]

-- Taking an ASID marks that one and no other.
asid_set-used :
    (bm : ℕ → ℕ) (i j : ℕ) → asid_used (asid_set i bm) j ≡ (if i == j then true else asid_used bm j)
unfolding asid_set
asid_set-used bm i j =
    rw (used-nth, used-nth)
      (ground
        (arith, nth_bit-or_self (i % 8) (bm (i / 8)), nth_bit-or_ne (i % 8) (j % 8) (bm (i / 8))))

-- On a bitmap of bytes, `asid_free` takes back the ASID it is given, if that is from 1 to 255, and no
-- other.
pub asid_free_lem :
    (bm : ℕ → ℕ) (i j : ℕ)
    → IsBytes bm
    → asid_used (asid_free i bm) j
      ≡ (if ltb 0 i && ltb i asid_max && i == j then false else asid_used bm j)
unfolding asid_free
asid_free_lem bm i j w =
    rw (used-nth, used-nth)
      (ground (
        arith,
        nth_bit-clear_self 8 (i % 8) (bm (i / 8)) (omega arith) (w (i / 8)),
        nth_bit-clear_ne 8 (i % 8) (bm (i / 8)) (omega arith) (w (i / 8)) (j % 8),
      ))

asid_set-IsBytes : (bm : ℕ → ℕ) (i : ℕ) → IsBytes bm → IsBytes (asid_set i bm)
unfolding asid_set
asid_set-IsBytes bm i w j =
    ground (arith, w j, bit_or-lt 8 (i % 8) (bm (i / 8)) (omega arith) (w (i / 8)))

pub asid_free-IsBytes : (bm : ℕ → ℕ) (i : ℕ) → IsBytes bm → IsBytes (asid_free i bm)
unfolding asid_free
asid_free-IsBytes bm i w j =
    ground (arith, w j, bit_and-clear-lt 8 (i % 8) (bm (i / 8)) (omega arith) (w (i / 8)))

-- Either every ASID from 1 on is taken, and the answer is ASID 0 and nothing changes; or the answer
-- is the lowest free one, which is marked, and no other is.
abbrev pub GrantsAsid : (ℕ → ℕ) → ℕ × (ℕ → ℕ) → Type 0
GrantsAsid bm r =
    ((r ≡ (0, bm)) × ((i : ℕ) → 0 < i → i < asid_max → asid_used bm i ≡ true))
    ⊎ ((0 < r.0)
        × (r.0 < asid_max)
        × (asid_used bm r.0 ≡ false)
        × ((i : ℕ) → 0 < i → i < r.0 → asid_used bm i ≡ true)
        × ((j : ℕ) → asid_used r.1 j ≡ (if r.0 == j then true else asid_used bm j))
        × IsBytes r.1)

-- On a bitmap of bytes, `asid_alloc` answers with ASID 0 only when all others are taken, and then
-- changes nothing; otherwise with the lowest free one from 1 on, which it marks, and no other; the
-- bitmap stays one of bytes.
pub asid_alloc_lem : (bm : ℕ → ℕ) → IsBytes bm → GrantsAsid bm (asid_alloc bm)
unfolding asid_alloc
asid_alloc_lem bm w = elim (Option-cases (find_from (asid_max - 1) 1 (λ i. not (asid_used bm i)))) [
  | inl e ↦
      rw (e, asid_alloc)
        (inl (refl, λ i lo hi. not-false (find_from-none 255 1 _ e i lo (omega arith))))
  | inr (i, e) ↦
      let found = find_from-some 255 1 _ i e in
      rw (e, asid_alloc)
        (inr (
          found.from,
          omega (arith, found.below),
          not-true found.passes,
          λ j lo hi. not-false (found.least j lo hi),
          λ j. asid_set-used bm i j,
          asid_set-IsBytes bm i w,
        ))
]
