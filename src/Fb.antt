-- ===== src/Fb.antt =====
-- kernel/fb.c: the frame buffer, which the device ramfb shows. The device that hands out the configuration of the
-- machine, fw_cfg, is a file of bytes for each selector (`files`). A call of `fw_cfg_read` reads on where the last one ended.
pub mod Bytes
pub mod Directory
mod Tests
use dragoon_kernel.Prelude.{
  ℕ, zero, suc, ◌+◌, ◌-◌, ◌*◌, ◌/◌, ◌%◌, ◌^◌, Bool, true, false, ◌&&◌, ◌||◌, not, Option, none,
  some, List, [], ◌∷◌, ◌==◌, if◌then◌else◌,
}
use dragoon_kernel.Prelude.Int.{ℤ, pos, negsuc, minus_one}
use dragoon_kernel.Mm.{Mm, page_size, pages_alloc}

abbrev pub fw_cfg_dma : ℕ
fw_cfg_dma = 0x09020010

abbrev pub fw_cfg_signature : ℕ
fw_cfg_signature = 0

abbrev pub fw_cfg_file_dir : ℕ
fw_cfg_file_dir = 0x19

abbrev pub drm_format_xrgb8888 : ℕ
drm_format_xrgb8888 = 0x34325258

abbrev pub screen_width : ℕ
screen_width = 640

abbrev pub screen_height : ℕ
screen_height = 480

abbrev pub fb_stride : ℕ
fb_stride = screen_width * 4

abbrev pub fb_size : ℕ
fb_size = fb_stride * screen_height

-- The parts that the source joins by `|` have no bit in common, so they are added.
pub bswap16 : ℕ → ℕ
bswap16 v = v / 2 ^ 8 + v % 2 ^ 8 * 2 ^ 8

pub bswap32 : ℕ → ℕ
bswap32 v =
    v / 2 ^ 24 % 2 ^ 8
    + v / 2 ^ 16 % 2 ^ 8 * 2 ^ 8
    + v / 2 ^ 8 % 2 ^ 8 * 2 ^ 16
    + v % 2 ^ 8 * 2 ^ 24

pub bswap64 : ℕ → ℕ
unfolding bswap32
bswap64 v = bswap32 (v % 2 ^ 32) * 2 ^ 32 + bswap32 (v / 2 ^ 32 % 2 ^ 32)

-- `struct fw_cfg_dma_access` and `struct ramfb_cfg`, as words in memory.
pub record FwCfgDmaAccess : Type 0 where
  pub control : ℕ
  pub length : ℕ
  pub address : ℕ

pub record RamfbCfg : Type 0 where
  pub addr : ℕ
  pub fourcc : ℕ
  pub flags : ℕ
  pub width : ℕ
  pub height : ℕ
  pub stride : ℕ

-- `selector` and `offset` are the state of fw_cfg; `writes` are those to its registers of DMA, the newest first.
pub record Fb : Type 0 where
  pub selector : ℕ
  pub offset : ℕ
  pub fb_buffer : Option ℕ
  pub dma : FwCfgDmaAccess
  pub cfg : RamfbCfg
  pub writes : List (ℕ × ℕ)
  pub mm : Mm

abbrev pub fw_cfg_select : ℕ → Fb → Fb
fw_cfg_select selector s = record s { selector = selector; offset = 0 }

-- `files sel off` is the byte at the place `off` of the file `sel`.
module _ (files : ℕ → ℕ → ℕ) where
  pub fw_cfg_read : ℕ → Fb → List ℕ × Fb
  fw_cfg_read zero s = ([], s)
  fw_cfg_read (suc n) s =
      let (rest, t) = fw_cfg_read n (record s { offset = s.offset + 1 }) in
      (files s.selector s.offset ∷ rest, t)

  -- The byte `i` of what has been read.
  abbrev pub byte : List ℕ → ℕ → ℕ
  byte [] i = 0
  byte (x ∷ l) zero = x
  byte (x ∷ l) (suc i) = byte l i

  -- The word and the half word at a place of what has been read: the machine is little-endian.
  abbrev pub half_at : List ℕ → ℕ → ℕ
  half_at l i = byte l i + byte l (i + 1) * 2 ^ 8

  abbrev pub word_at : List ℕ → ℕ → ℕ
  word_at l i =
      byte l i + byte l (i + 1) * 2 ^ 8 + byte l (i + 2) * 2 ^ 16 + byte l (i + 3) * 2 ^ 24

  -- Does the name in the entry begin with all of `name`? The entry's name starts behind 8 bytes.
  abbrev pub begins : List ℕ → ℕ → List ℕ → Bool
  begins entry i [] = true
  begins entry i (c ∷ name) = if byte entry i == c then begins entry (i + 1) name else false

  -- The loop over the entries that are left, of 64 bytes each.
  pub find_entry : List ℕ → ℕ → Fb → ℤ × Fb
  unfolding fw_cfg_read bswap16
  find_entry name zero s = (minus_one, s)
  find_entry name (suc count) s =
      let (entry, t) = fw_cfg_read 64 s in
      elim (begins entry 8 name) [
        | true ↦ (pos (bswap16 (half_at entry 4)), t)
        | false ↦ find_entry name count t
      ]

  pub fw_cfg_find_file : List ℕ → Fb → ℤ × Fb
  unfolding fw_cfg_read bswap32 find_entry
  fw_cfg_find_file name s =
      let (count_be, t) = fw_cfg_read 4 (fw_cfg_select fw_cfg_file_dir s) in
      find_entry name (bswap32 (word_at count_be 0)) t

  -- `src_addr`, `dma_at`: where the linker puts the configuration and `dma`. `done`: does the device finish in time?
  pub fw_cfg_dma_write : ℕ → ℕ → Bool → ℕ → ℕ → Fb → ℤ × Fb
  unfolding bswap32 bswap64
  fw_cfg_dma_write src_addr dma_at done selector len s =
      let t = record s {
        dma = record {
          control = bswap32 (selector * 2 ^ 16 + 24);
          length = bswap32 len;
          address = bswap64 src_addr;
        };
        writes =
            (fw_cfg_dma + 4, bswap32 (dma_at % 2 ^ 32))
            ∷ (fw_cfg_dma, bswap32 (dma_at / 2 ^ 32 % 2 ^ 32))
            ∷ s.writes;
      } in
      (if done then pos 0 else minus_one, t)

  -- "etc/ramfb".
  abbrev pub ramfb_name : List ℕ
  ramfb_name = 101 ∷ 116 ∷ 99 ∷ 47 ∷ 114 ∷ 97 ∷ 109 ∷ 102 ∷ 98 ∷ []

  -- The buffer is at `buf`.
  pub configure : ℕ → ℕ → Bool → ℕ → ℕ → Fb → ℤ × Fb
  unfolding bswap32 bswap64 fw_cfg_dma_write
  configure src_addr dma_at done selector buf s =
      fw_cfg_dma_write src_addr dma_at done selector 28 (record s {
        fb_buffer = some buf;
        cfg = record {
          addr = bswap64 buf;
          fourcc = bswap32 drm_format_xrgb8888;
          flags = 0;
          width = bswap32 screen_width;
          height = bswap32 screen_height;
          stride = bswap32 fb_stride;
        };
      })

  abbrev pub fb_pages : ℕ
  fb_pages = (fb_size + page_size - 1) / page_size

  pub fb_init : ℕ → ℕ → Bool → Fb → ℤ × Fb
  unfolding fw_cfg_read fw_cfg_find_file configure
  fb_init src_addr dma_at done s =
      let (sig, t) = fw_cfg_read 4 (fw_cfg_select fw_cfg_signature s) in
      let (found, u) = fw_cfg_find_file ramfb_name t in
      let (page, mm) = pages_alloc fb_pages u.mm in
      if not (byte sig 0 == 81) || not (byte sig 3 == 85) then (minus_one, t) else (elim found [
        | negsuc n ↦ (minus_one, u)
        | pos selector ↦ elim page [
          | none ↦ (minus_one, record u { fb_buffer = none; mm = mm })
          | some buf ↦ configure src_addr dma_at done selector buf (record u { mm = mm })
        ]
      ])
