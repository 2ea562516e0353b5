-- ===== src/Vm/Tests.antt =====
-- The ASIDs of kernel/vm.c, tried on a bitmap.
use dragoon_kernel.Prelude.{ℕ, ◌≡◌, ◌==◌, if◌then◌else◌, refl, arith, find_from}
use dragoon_kernel.Vm.Asid.{asid_used, asid_alloc, IsBytes}

-- ASIDs 0 to 9 are taken.
abbrev ten_taken : ℕ → ℕ
ten_taken i = if i == 0 then 255 else if i == 1 then 3 else 0

ten_taken-IsBytes : IsBytes ten_taken
ten_taken-IsBytes i = ground arith

lowest_asid : (asid_alloc ten_taken).0 ≡ 10
unfolding asid_alloc asid_used find_from
lowest_asid = refl
