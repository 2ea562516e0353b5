-- ===== src/Fb/Tests.antt =====
-- Runs of the frame buffer's driver, and its theorems at concrete values.
use dragoon_kernel.Prelude.{ℕ, ◌≡◌, arith, none, [], ◌∷◌, ◌==◌, if◌then◌else◌}
use dragoon_kernel.Fb.{Fb, fw_cfg_find_file}
use dragoon_kernel.Fb.Directory.{big_word, lookup, fw_cfg_find_file_lem}

-- One file, with the selector 34 and a name of the letter "e".
abbrev machine : ℕ → ℕ → ℕ
machine selector o = if o == 3 then 1 else if o == 9 then 34 else if o == 12 then 101 else 0

abbrev start : Fb
start = record {
  selector = 0;
  offset = 7;
  fb_buffer = none;
  dma = record { control = 0; length = 0; address = 0 };
  cfg = record { addr = 0; fourcc = 0; flags = 0; width = 0; height = 0; stride = 0 };
  writes = [];
  mm = record { page_bitmap = λ _. 0; total_pages = 32768; used_pages = 0; memory = λ _. 0 };
}

fw_cfg_find_file_lem_example :
    (fw_cfg_find_file machine (101 ∷ []) start).0 ≡ lookup machine (101 ∷ []) (big_word machine 0) 0
fw_cfg_find_file_lem_example =
    fw_cfg_find_file_lem machine (λ o. ground arith) (101 ∷ []) start (omega arith)
