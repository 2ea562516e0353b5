-- ===== src/Input/Tests.antt =====
-- kernel/input.c, tried on the keys up, a and enter.
use dragoon_kernel.Prelude.{[], ◌∷◌, ◌≡◌, arith, refl}
use dragoon_kernel.Input.Arrows.{keys, bytes_of, keys_of, up, letter, return, keys-bytes_of}

keys-bytes_of_example :
    keys 0 (bytes_of (up ∷ letter 97 ∷ return ∷ [])) ≡ keys_of (up ∷ letter 97 ∷ return ∷ [])
keys-bytes_of_example =
    keys-bytes_of (up ∷ letter 97 ∷ return ∷ [])
      (ground arith, ground arith, ground arith, ground arith, ground arith, ground arith, refl)
