-- ===== src/Bytewise.antt =====
-- kernel/mm.c, its end: memcpy, memset and memcmp. Here memory is a family of bytes.
pub mod Copies
mod Tests
use dragoon_kernel.Prelude.{ℕ, zero, suc, ◌+◌, ◌%◌, ◌==◌, if◌then◌else◌, update, ◌^◌}
use dragoon_kernel.Prelude.Int.{ℤ, pos, ◌-ℤ◌}

-- `while (n--) *d++ = *s++`.
pub memcpy : ℕ → ℕ → ℕ → (ℕ → ℕ) → ℕ → ℕ
memcpy d s zero m = m
memcpy d s (suc n) m = memcpy (d + 1) (s + 1) n (update m d (m s))

-- `while (n--) *p++ = (u8)c`.
pub memset : ℕ → ℕ → ℕ → (ℕ → ℕ) → ℕ → ℕ
memset p c zero m = m
memset p c (suc n) m = memset (p + 1) c n (update m p (c % 2 ^ 8))

pub memcmp : ℕ → ℕ → ℕ → (ℕ → ℕ) → ℤ
memcmp a b zero m = pos 0
memcmp a b (suc n) m =
    let rest = memcmp (a + 1) (b + 1) n m in if m a == m b then rest else pos (m a) -ℤ pos (m b)
