-- ===== src/Virtio/Finding.antt =====
-- The `index`th device of a kind.
use dragoon_kernel.Prelude.{
  ℕ, zero, suc, ◌+◌, ◌≡◌, ◌≤◌, ◌<◌, Bool, true, false, Option, none, some, ◌==◌, if◌then◌else◌,
  arith, ap, ◌∙◌, inl, inr, Bool-cases,
}
use dragoon_kernel.Prelude.Count.{count_below}
use dragoon_kernel.Virtio.{Virtio, find_dev, virtio_find_dev}

-- Is the `i`th device of the kind?
abbrev pub is_kind : ℕ → Virtio → ℕ → Bool
is_kind device_id s i = (s.devices i).device_id == device_id

count-suc :
    (p : ℕ → Bool) (i : ℕ) (b : Bool)
    → p i ≡ b
    → count_below (i + 1) p ≡ count_below i p + (if b then 1 else 0)
unfolding count_below
count-suc p i true e =
    let s : i + 1 ≡ suc i = omega arith in ap (λ n. count_below n p) s ∙ ground (arith, e)
count-suc p i false e =
    let s : i + 1 ≡ suc i = omega arith in ap (λ n. count_below n p) s ∙ ground (arith, e)

-- Among the `n` devices from `i` on, before which there are `m` of the kind.
abbrev pub FindsFrom : ℕ → ℕ → ℕ → ℕ → Virtio → Option ℕ → Type 0
FindsFrom device_id k n i s none =
    count_below (i + n) (is_kind device_id s) ≤ count_below i (is_kind device_id s) + k
FindsFrom device_id k n i s (some j) =
    (j < i + n)
    × (is_kind device_id s j ≡ true)
    × (count_below j (is_kind device_id s) ≡ count_below i (is_kind device_id s) + k)

FindsFrom-step :
    (device_id k l n i : ℕ) (s : Virtio) (o : Option ℕ)
    → count_below (i + 1) (is_kind device_id s) + l ≡ count_below i (is_kind device_id s) + k
    → FindsFrom device_id l n (i + 1) s o
    → FindsFrom device_id k (suc n) i s o
FindsFrom-step device_id k l n i s none e f =
    let a : i + suc n ≡ i + 1 + n = omega arith in rw a (omega (arith, f, e))
FindsFrom-step device_id k l n i s (some j) e (lt, on, c) = (omega arith, on, c ∙ e)

find_dev-FindsFrom :
    (device_id k n i : ℕ) (s : Virtio) → FindsFrom device_id k n i s (find_dev device_id k n i s)
unfolding find_dev
find_dev-FindsFrom device_id k zero i s = let e : i + 0 ≡ i = omega arith in rw e (omega arith)
find_dev-FindsFrom device_id zero (suc n) i s = elim (Bool-cases (is_kind device_id s i)) [
  | inl e ↦ rw e (omega arith, e, omega arith)
  | inr e ↦ rw e (
      FindsFrom-step device_id 0 0 n i s _
        (omega (arith, count-suc (is_kind device_id s) i false e))
        (find_dev-FindsFrom device_id 0 n (i + 1) s))
]
find_dev-FindsFrom device_id (suc k) (suc n) i s = elim (Bool-cases (is_kind device_id s i)) [
  | inl e ↦ rw e (
      FindsFrom-step device_id (suc k) k n i s _
        (omega (arith, count-suc (is_kind device_id s) i true e))
        (find_dev-FindsFrom device_id k n (i + 1) s))
  | inr e ↦ rw e (
      FindsFrom-step device_id (suc k) (suc k) n i s _
        (omega (arith, count-suc (is_kind device_id s) i false e))
        (find_dev-FindsFrom device_id (suc k) n (i + 1) s))
]

-- What the search for the `index`th device of a kind answers.
abbrev pub Finds : ℕ → ℕ → Virtio → Option ℕ → Type 0
Finds device_id index s none = count_below s.num_devices (is_kind device_id s) ≤ index
Finds device_id index s (some j) =
    (j < s.num_devices)
    × (is_kind device_id s j ≡ true)
    × (count_below j (is_kind device_id s) ≡ index)

from_start :
    (device_id index : ℕ) (s : Virtio) (o : Option ℕ)
    → FindsFrom device_id index s.num_devices 0 s o
    → Finds device_id index s o
unfolding count_below
from_start device_id index s none f =
    let e : 0 + s.num_devices ≡ s.num_devices = omega arith in
    omega (arith, f, ap (λ n. count_below n (is_kind device_id s)) e)
from_start device_id index s (some j) (lt, on, c) =
    let e : 0 + index ≡ index = omega arith in (omega arith, on, c ∙ e)

-- `virtio_find_dev` answers with a device of the kind before which there are `index` of that kind, and
-- with none only when there are at most `index` in all.
pub virtio_find_dev_lem :
    (device_id index : ℕ) (s : Virtio) → Finds device_id index s (virtio_find_dev device_id index s)
unfolding virtio_find_dev
virtio_find_dev_lem device_id index s =
    from_start device_id index s (find_dev device_id index s.num_devices 0 s)
      (find_dev-FindsFrom device_id index s.num_devices 0 s)
