-- ===== src/Mm/Zeroing.antt =====
-- What the zeroing loops of `page_alloc` and `pages_alloc` leave in memory.
use dragoon_kernel.Prelude.Loops.{for_range_inv}
use dragoon_kernel.Mm.{zero_words, ℕ, update}
use dragoon_kernel.Prelude.{refl, ℕ, ◌<◌, ◌≤◌, ◌+◌, ◌*◌, update, ◌≡◌, arith, ◌≢◌}

record IsZeroed (m : ℕ → ℕ) (addr k : ℕ) (m' : ℕ → ℕ) : Type 0 where
  inside : (j : ℕ) → j < k → m' (addr + 8 * j) ≡ 0
  outside : (a : ℕ) → ((j : ℕ) → j < k → addr + 8 * j ≢ a) → m' a ≡ m a

zero_words-IsZeroed : (m : ℕ → ℕ) (addr n : ℕ) → IsZeroed m addr n (zero_words addr n m)
unfolding zero_words
zero_words-IsZeroed m addr n =
    for_range_inv (IsZeroed m addr) (λ j t. update t (addr + 8 * j) 0) n 0 n m (omega arith) step
      (record { inside = λ j lt. absurd (omega arith); outside = λ a h. refl })
  where
    step :
        (k : ℕ) (t : ℕ → ℕ)
        → 0 ≤ k
        → k < n
        → IsZeroed m addr k t
        → IsZeroed m addr (k + 1) (update t (addr + 8 * k) 0)
    step k t lo hi z = record {
      inside = λ j lt. ground (arith, z.inside j);
      outside = λ a h. ground (arith, h k (omega arith), z.outside a (λ j lt. h j (omega arith)));
    }

pub zero_words-inside : (m : ℕ → ℕ) (addr n j : ℕ) → j < n → zero_words addr n m (addr + 8 * j) ≡ 0
zero_words-inside m addr n j = (zero_words-IsZeroed m addr n).inside j

pub zero_words-outside :
    (m : ℕ → ℕ) (addr n a : ℕ) → ((j : ℕ) → j < n → addr + 8 * j ≢ a) → zero_words addr n m a ≡ m a
zero_words-outside m addr n a = (zero_words-IsZeroed m addr n).outside a
