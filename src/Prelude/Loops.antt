-- ===== src/Prelude/Loops.antt =====
-- Counted loops: `for (i = start; i < start + n; i++)`.
use Prim.Native.Nat.{ℕ, zero, suc, ◌+◌, ◌≤◌, ◌<◌}
use mathlib.Core.Path.{◌≡◌}
use mathlib.Core.Logic.{inl, inr}
use mathlib.Core.Bool.{Bool, true, false}
use mathlib.Core.Option.{Option, none, some}
use native.Mathlib.Omega.{arith}
use native.Mathlib.Decide.{ℕ_discrete}
use dragoon_kernel.Prelude.Tests.{Bool-cases}

-- The first index of `i, …, i + n - 1` that passes the test: a loop that ends by `break` or `return`.
unfoldable pub find_from : ℕ → ℕ → (ℕ → Bool) → Option ℕ
find_from zero i p = none
find_from (suc n) i p = elim (p i) [ true ↦ some i | false ↦ find_from n (i + 1) p ]

-- What the scan says of the index that it returns, and of those that it passed over.
pub record IsFirst (n i : ℕ) (p : ℕ → Bool) (k : ℕ) : Type 0 where
  pub from : i ≤ k
  pub below : k < i + n
  pub passes : p k ≡ true
  pub least : (j : ℕ) → i ≤ j → j < k → p j ≡ false

pub find_from-some : (n i : ℕ) (p : ℕ → Bool) (k : ℕ) → find_from n i p ≡ some k → IsFirst n i p k
unfolding find_from
find_from-some zero i p k e = ground arith
find_from-some (suc n) i p k e = elim (Bool-cases (p i)) [
  | inl hit ↦ ground arith
  | inr miss ↦ ground (arith, skipped miss (find_from-some n (i + 1) p k))
]
  where
    skipped :
        p i ≡ false
        → (find_from n (i + 1) p ≡ some k → IsFirst n (i + 1) p k)
        → find_from n (i + 1) p ≡ some k
        → IsFirst (suc n) i p k
    skipped miss ih f = record {
      from = omega (arith, (ih f).from);
      below = omega (arith, (ih f).below);
      passes = (ih f).passes;
      least = λ j lo hi. elim (ℕ_discrete i j) [
        | yes here ↦ rw (← here) miss
        | no past ↦ (ih f).least j (omega arith) hi
      ];
    }

pub find_from-none :
    (n i : ℕ) (p : ℕ → Bool) → find_from n i p ≡ none → (j : ℕ) → i ≤ j → j < i + n → p j ≡ false
unfolding find_from
find_from-none zero i p e j lo hi = absurd (omega arith)
find_from-none (suc n) i p e j lo hi = elim (Bool-cases (p i)) [
  | inl hit ↦ ground arith
  | inr miss ↦ elim (ℕ_discrete i j) [
    | yes here ↦ rw (← here) miss
    | no past ↦ find_from-none n (i + 1) p (rest miss) j (omega arith) (omega arith)
  ]
]
  where
    rest : p i ≡ false → find_from n (i + 1) p ≡ none
    rest miss = ground arith

-- The body is run for `start`, `start + 1` and so on, as often as the first number says.
unfoldable pub for_range {ℓ} : {S : Type ℓ} → ℕ → ℕ → (ℕ → S → S) → S → S
for_range zero start step now = now
for_range (suc rounds) start step now = for_range rounds (start + 1) step (step start now)

-- What holds at the start and is kept by each round holds at the end.
pub for_range_inv {ℓ κ} :
    {S : Type ℓ} (Holds : ℕ → S → Type κ) (step : ℕ → S → S) (rounds start end : ℕ) (now : S)
    → start + rounds ≡ end
    → ((at : ℕ) (s : S) → start ≤ at → at < end → Holds at s → Holds (at + 1) (step at s))
    → Holds start now
    → Holds end (for_range rounds start step now)
unfolding for_range
for_range_inv Holds step zero start end now sum kept first =
    let met : start ≡ end = omega arith in rw (← met) first
for_range_inv Holds step (suc rounds) start end now sum kept first =
    let second = kept start now (omega arith) (omega arith) first in
    for_range_inv Holds step rounds (start + 1) end (step start now) (omega arith)
      (λ at s from below. kept at s (omega arith) below) second

-- The last round of a loop, taken off.
pub for_range-suc {ℓ} :
    {S : Type ℓ} (body : ℕ → S → S) (n i j : ℕ) (s : S)
    → i + n ≡ j
    → for_range (suc n) i body s ≡ body j (for_range n i body s)
unfolding for_range
for_range-suc body zero i j s e = let e' : i ≡ j = omega arith in rw e'
for_range-suc body (suc n) i j s e = for_range-suc body n (i + 1) j (body i s) (omega arith)
