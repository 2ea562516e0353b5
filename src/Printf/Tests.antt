-- ===== src/Printf/Tests.antt =====
-- kernel/printf.c, tried on a number.
use dragoon_kernel.Prelude.{◌≡◌, arith}
use dragoon_kernel.Printf.{unsigned_digits}
use dragoon_kernel.Printf.Decimal.{read, unsigned_digits-read}

unsigned_digits-read_example : read 0 (unsigned_digits 4096 10) ≡ 4096
unsigned_digits-read_example = unsigned_digits-read 4096 (omega arith)
