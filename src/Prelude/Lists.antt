-- ===== src/Prelude/Lists.antt =====
-- Lists measured by native numbers, and lists of distinct numbers.
use Prim.Native.Nat.{ℕ, suc, ◌<◌, ◌≤◌}
use mathlib.Core.Path.{◌≡◌, refl, ap}
use native.Mathlib.Decide.{ℕ_discrete}
use mathlib.Core.Bool.{Bool, true, false}
use mathlib.Core.List.{List, [], ◌∷◌, ◌++◌}
use native.Mathlib.Omega.{arith}
use dragoon_kernel.Prelude.Tests.{◌==◌, if◌then◌else◌}
use dragoon_kernel.Prelude.Count.{count_below, count_below_add, count_below-le, count_below-eq-zero}

module _ {ℓ} {A : Type ℓ} where
  abbrev pub length : List A → ℕ
  length [] = 0
  length (x ∷ xs) = suc (length xs)

abbrev pub has : List ℕ → ℕ → Bool
has [] i = false
has (j ∷ l) i = if j == i then true else has l i

abbrev pub Distinct : List ℕ → Type 0
Distinct [] = Unit {0}
Distinct (i ∷ l) = (has l i ≡ false) × Distinct l

abbrev pub remove : ℕ → List ℕ → List ℕ
remove i [] = []
remove i (j ∷ l) = if j == i then l else (j ∷ remove i l)

pub has-append : (l : List ℕ) (i j : ℕ) → has (l ++ i ∷ []) j ≡ (if has l j then true else i == j)
has-append [] i j = ground arith
has-append (k ∷ l) i j = ground (arith, has-append l i j)

pub Distinct-append : (l : List ℕ) (i : ℕ) → Distinct l → has l i ≡ false → Distinct (l ++ i ∷ [])
Distinct-append [] i d h = ground arith
Distinct-append (k ∷ l) i d h =
    (ground (arith, has-append l i k), Distinct-append l i d.1 (ground arith))

pub has-remove :
    (l : List ℕ) (i j : ℕ) → Distinct l → has (remove i l) j ≡ (if i == j then false else has l j)
has-remove [] i j d = ground arith
has-remove (k ∷ l) i j d = ground (arith, has-remove l i j d.1)

pub Distinct-remove : (l : List ℕ) (i : ℕ) → Distinct l → Distinct (remove i l)
Distinct-remove [] i d = ground arith
Distinct-remove (k ∷ l) i d = ground (arith, has-remove l i k d.1, Distinct-remove l i d.1)

-- As many distinct numbers stand below a bound as the list is long.
pub count-has :
    (n : ℕ) (l : List ℕ)
    → Distinct l
    → ((i : ℕ) → has l i ≡ true → i < n)
    → count_below n (has l) ≡ length l
count-has n [] d h = count_below-eq-zero n (has []) (λ j lt. ground arith)
count-has n (k ∷ l) d h = ground (
  arith,
  count_below_add n (has l) (has (k ∷ l)) k (h k (ground arith)) d.0 (ground arith)
      (λ j lt ne. ground arith),
  count-has n l d.1 (λ i m. h i (ground arith)),
)

pub length-le-bound :
    (n : ℕ) (l : List ℕ) → Distinct l → ((i : ℕ) → has l i ≡ true → i < n) → length l ≤ n
length-le-bound n l d h = omega (arith, count-has n l d h, count_below-le n (has l))

-- The numbers of a list that pass a test.
abbrev pub keep : (ℕ → Bool) → List ℕ → List ℕ
keep p [] = []
keep p (j ∷ l) = if p j then j ∷ keep p l else keep p l

pub keep_ext :
    (p r : ℕ → Bool) (l : List ℕ) → ((j : ℕ) → has l j ≡ true → p j ≡ r j) → keep p l ≡ keep r l
keep_ext p r [] h = refl
keep_ext p r (j ∷ l) h =
    ground (arith, keep_ext p r l (λ i m. h i (ground arith)), h j (ground arith))

pub has-keep :
    (p : ℕ → Bool) (l : List ℕ) (i : ℕ) → has (keep p l) i ≡ (if p i then has l i else false)
has-keep p [] i = ground arith
has-keep p (j ∷ l) i = elim (ℕ_discrete j i) [
  | yes here ↦ rw here (ground (arith, has-keep p l i))
  | no other ↦ ground (arith, has-keep p l i)
]

pub remove_absent : (l : List ℕ) (i : ℕ) → has l i ≡ false → remove i l ≡ l
remove_absent [] i h = refl
remove_absent (j ∷ l) i h = ground (arith, remove_absent l i)

-- To stop keeping `i` is to remove it.
pub keep-remove :
    (p r : ℕ → Bool) (i : ℕ) (l : List ℕ)
    → Distinct l
    → p i ≡ true
    → ((j : ℕ) → r j ≡ (if i == j then false else p j))
    → keep r l ≡ remove i (keep p l)
keep-remove p r i [] d e h = refl
keep-remove p r i (j ∷ l) d e h = elim (ℕ_discrete i j) [
  | yes here ↦
      ground
        (arith, ap p here, h j, keep_ext r p l (λ m b. ground (arith, h m, d.0, ap (has l) here)))
  | no other ↦ ground (arith, h j, keep-remove p r i l d.1 e h)
]

-- Nothing is lost when everything is kept.
pub keep-true : (p : ℕ → Bool) (l : List ℕ) → ((j : ℕ) → has l j ≡ true → p j ≡ true) → keep p l ≡ l
keep-true p [] h = refl
keep-true p (j ∷ l) h =
    ground (arith, keep-true p l (λ i m. h i (ground arith)), h j (ground arith))
