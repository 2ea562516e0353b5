-- ===== src/Fb/Directory.antt =====
-- kernel/fb.c: the search through the directory of fw_cfg, against the directory as a whole.
use dragoon_kernel.Prelude.{
  ℕ, zero, suc, ◌+◌, ◌*◌, ◌≡◌, ◌<◌, Bool, true, false, List, [], ◌∷◌, arith, refl, ap, ◌∙◌, ◌==◌,
  if◌then◌else◌, length, ◌^◌, ◌≤◌, find_from, Bool-cases, none, inl, some, inr, Option, sym,
}
use dragoon_kernel.Fb.{
  Fb, fw_cfg_read, fw_cfg_file_dir, byte, ℤ, bswap16, bswap32, find_entry, begins, minus_one, pos,
  fw_cfg_find_file, fw_cfg_select, word_at,
}

module _ (files : ℕ → ℕ → ℕ) where
  -- The bytes of the directory.
  abbrev dir : ℕ → ℕ
  dir = files fw_cfg_file_dir

  -- Does the name of the entry `i` begin with `name`?
  abbrev pub is_named : List ℕ → ℕ → ℕ → Bool
  is_named [] i j = true
  is_named (c ∷ name) i j = if dir (4 + 64 * i + j) == c then is_named name i (j + 1) else false

  -- What `read` says of the bytes it returns.
  record Reads (n : ℕ) (s : Fb) (r : List ℕ × Fb) : Type 0 where
    bytes : (i : ℕ) → i < n → byte files r.0 i ≡ files s.selector (s.offset + i)
    same : r.1.selector ≡ s.selector
    ahead : r.1.offset ≡ s.offset + n

  read_lem : (n : ℕ) (s : Fb) → Reads n s (fw_cfg_read files n s)
  unfolding fw_cfg_read
  read_lem zero s = record {
    bytes = λ i lt. absurd (omega arith);
    same = refl;
    ahead = omega arith;
  }
  read_lem (suc n) s =
      let t = record s { offset = s.offset + 1 } in
      let r = read_lem n t in
      record { bytes = λ i lt. at_byte t r i lt; same = r.same; ahead = r.ahead ∙ omega arith }
    where
      at_byte :
          (t : Fb)
          → Reads n
              (record s { offset = s.offset + 1 })
              (fw_cfg_read files n (record s { offset = s.offset + 1 }))
          → (i : ℕ) → i < suc n
          → byte files
              (files s.selector s.offset
                ∷ (fw_cfg_read files n (record s { offset = s.offset + 1 })).0)
              i
            ≡ files s.selector (s.offset + i)
      at_byte t r zero lt = ap (files s.selector) (omega arith)
      at_byte t r (suc i) lt = r.bytes i (omega arith) ∙ ap (files s.selector) (omega arith)

  -- The entry that has been read is as the directory has it.
  begins-is_named :
      (entry : List ℕ) (k j : ℕ) (name : List ℕ)
      → ((i : ℕ) → i < 64 → byte files entry i ≡ dir (4 + 64 * k + i))
      → j + length name ≤ 64
      → begins files entry j name ≡ is_named name k j
  begins-is_named entry k j [] h fits = refl
  begins-is_named entry k j (c ∷ name) h fits =
      ap (λ b. if b == c then begins files entry (j + 1) name else false)
        (h j (omega (arith, fits)))
      ∙ ap (λ b. if dir (4 + 64 * k + j) == c then b else false)
          (begins-is_named entry k (j + 1) name h (omega (arith, fits)))

  -- Numbers in the directory have their high byte first.
  abbrev pub big_half : ℕ → ℕ
  big_half o = dir o * 2 ^ 8 + dir (o + 1)

  abbrev pub big_word : ℕ → ℕ
  big_word o = dir o * 2 ^ 24 + dir (o + 1) * 2 ^ 16 + dir (o + 2) * 2 ^ 8 + dir (o + 3)

  abbrev pub selector_of : Option ℕ → ℤ
  selector_of none = minus_one
  selector_of (some i) = pos (big_half (4 + 64 * i + 4))

  -- The selector of the first entry, among so many from the entry `k` on, with such a name; or -1.
  abbrev pub lookup : List ℕ → ℕ → ℕ → ℤ
  lookup name count k = selector_of (find_from count k (λ i. is_named name i 8))

  -- The first entry is the one, or is passed over.
  first_of :
      (name : List ℕ) (count k : ℕ) (b : Bool)
      → is_named name k 8 ≡ b
      → find_from (suc count) k (λ i. is_named name i 8)
        ≡ (if b then some k else find_from count (k + 1) (λ i. is_named name i 8))
  unfolding find_from
  first_of name count k true e =
      ap
        (λ b. elim b as (λ _. Option ℕ) [
          | true ↦ some k
          | false ↦ find_from count (k + 1) (λ i. is_named name i 8)
        ])
        e
  first_of name count k false e =
      ap
        (λ b. elim b as (λ _. Option ℕ) [
          | true ↦ some k
          | false ↦ find_from count (k + 1) (λ i. is_named name i 8)
        ])
        e

  module _ (bytes : (o : ℕ) → dir o < 256) where
    half_word : (x y : ℕ) → x < 256 → y < 256 → bswap16 (x + y * 2 ^ 8) ≡ x * 2 ^ 8 + y
    half_word x y hx hy = unfold bswap16 in omega arith

    whole_word :
        (x y z w : ℕ)
        → x < 256
        → y < 256
        → z < 256
        → w < 256
        → bswap32 (x + y * 2 ^ 8 + z * 2 ^ 16 + w * 2 ^ 24)
          ≡ x * 2 ^ 24 + y * 2 ^ 16 + z * 2 ^ 8 + w
    whole_word x y z w hx hy hz hw = unfold bswap32 in omega arith

    find_entry_lem :
        (name : List ℕ) (count k : ℕ) (s : Fb)
        → 8 + length name ≤ 64
        → s.selector ≡ fw_cfg_file_dir
        → s.offset ≡ 4 + 64 * k
        → (find_entry files name count s).0 ≡ lookup name count k
    unfolding find_entry find_from
    find_entry_lem name zero k s fits sel off = refl
    find_entry_lem name (suc count) k s fits sel off =
        let r = read_lem 64 s in
        let entry = (fw_cfg_read files 64 s).0 in
        let read : (i : ℕ) → i < 64 → byte files entry i ≡ dir (4 + 64 * k + i) =
          λ i lt. r.bytes i lt ∙ ap (λ f. files f (s.offset + i)) sel ∙ ap (λ o. dir (o + i)) off in
        let named = begins-is_named entry k 8 name read fits in
        elim (Bool-cases (is_named name k 8)) [
          | inl y ↦
              let hit : begins files entry 8 name ≡ true = named ∙ y in
              rw (hit, find_entry)
                (ap pos (
                    ap (λ x. bswap16 (x + byte files entry 5 * 2 ^ 8)) (read 4 (omega arith))
                    ∙ ap (λ x. bswap16 (dir (4 + 64 * k + 4) + x * 2 ^ 8)) (read 5 (omega arith))
                    ∙ half_word (dir (4 + 64 * k + 4)) (dir (4 + 64 * k + 5)) (bytes _) (bytes _)
                    ∙ ap (λ o. dir (4 + 64 * k + 4) * 2 ^ 8 + dir o) (omega arith))
                  ∙ sym (ap selector_of (first_of name count k true y)))
          | inr n ↦
              let miss : begins files entry 8 name ≡ false = named ∙ n in
              rw (miss, find_entry)
                (find_entry_lem name count (k + 1) (fw_cfg_read files 64 s).1 fits (r.same ∙ sel)
                    (r.ahead ∙ omega (arith, off))
                  ∙ sym (ap selector_of (first_of name count k false n)))
        ]

    -- If the directory of fw_cfg consists of bytes and the name has at most 56 of them,
    -- `fw_cfg_find_file`, which reads the directory byte by byte, answers the selector of the first
    -- entry whose name begins with the name that is looked for, taken from its place in the directory
    -- with the high byte first, among as many entries as the directory's first four bytes say; and -1
    -- if there is none.
    pub fw_cfg_find_file_lem :
        (name : List ℕ) (s : Fb)
        → length name ≤ 56
        → (fw_cfg_find_file files name s).0 ≡ lookup name (big_word 0) 0
    unfolding fw_cfg_find_file
    fw_cfg_find_file_lem name s fits =
        let start = fw_cfg_select fw_cfg_file_dir s in
        let r = read_lem 4 start in
        let read = (fw_cfg_read files 4 start).0 in
        find_entry_lem name (bswap32 (word_at files read 0)) 0 (fw_cfg_read files 4 start).1
          (omega (arith, fits)) r.same r.ahead
        ∙ ap (λ n. lookup name n 0)
            (ap
                (λ x. bswap32 (
                  x
                  + byte files read 1 * 2 ^ 8
                  + byte files read 2 * 2 ^ 16
                  + byte files read 3 * 2 ^ 24))
                (r.bytes 0 (omega arith))
              ∙ ap
                  (λ x.
                    bswap32
                      (dir 0 + x * 2 ^ 8 + byte files read 2 * 2 ^ 16 + byte files read 3 * 2 ^ 24))
                  (r.bytes 1 (omega arith))
              ∙ ap (λ x. bswap32 (dir 0 + dir 1 * 2 ^ 8 + x * 2 ^ 16 + byte files read 3 * 2 ^ 24))
                  (r.bytes 2 (omega arith))
              ∙ ap (λ x. bswap32 (dir 0 + dir 1 * 2 ^ 8 + dir 2 * 2 ^ 16 + x * 2 ^ 24))
                  (r.bytes 3 (omega arith))
              ∙ whole_word (dir 0) (dir 1) (dir 2) (dir 3) (bytes 0) (bytes 1) (bytes 2) (bytes 3))
