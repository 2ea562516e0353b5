-- ===== src/Bytewise/Tests.antt =====
-- The theorem on memcpy at concrete bytes.
use dragoon_kernel.Prelude.{ℕ, ◌*◌, ◌%◌, arith, inl}
use dragoon_kernel.Bytewise.{memcpy}
use dragoon_kernel.Bytewise.Copies.{Copied, memcpy_lem}

abbrev bytes : ℕ → ℕ
bytes a = a * a % 256

memcpy_lem_example : Copied 10 12 5 bytes (memcpy 10 12 5 bytes)
memcpy_lem_example = memcpy_lem 10 12 5 bytes (inl (omega arith))
