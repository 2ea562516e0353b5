-- ===== src/Virtio/Setup/Layout.antt =====
-- The parts of a new queue: where they lie, and that all its descriptors are free.
use dragoon_kernel.Prelude.{
  ℕ, zero, suc, ◌+◌, ◌*◌, ◌%◌, ◌≡◌, ◌≤◌, ◌<◌, arith, refl, inl, inr, List, [], ◌∷◌, has, Distinct,
  Bool-cases, true, ◌==◌, ◌≢◌,
}
use dragoon_kernel.Mm.{page_size, page_addr, max_pages}
use dragoon_kernel.Virtio.{virtq_size, Virtq}
use dragoon_kernel.Virtio.Queue.{Chain, IsOwned}
use dragoon_kernel.Virtio.Setup.{
  free_descs, new_queue, legacy_used_offset, legacy_pages, modern_used_addr,
}

-- `i, i + 1, …`, `n` numbers.
abbrev pub up_from : ℕ → ℕ → List ℕ
up_from i zero = []
up_from i (suc n) = i ∷ up_from (i + 1) n

pub has-up_from : (i n j : ℕ) → has (up_from i n) j ≡ true → (i ≤ j) × (j < i + n)
has-up_from i zero j m = absurd (ground (arith, m))
has-up_from i (suc n) j m = elim (Bool-cases (i == j)) [
  | inl e ↦ ground (arith, e)
  | inr e ↦
      let (lo, hi) = has-up_from (i + 1) n j (ground (arith, m, e)) in (omega arith, omega arith)
]

pub up_from-has : (i n j : ℕ) → i ≤ j → j < i + n → has (up_from i n) j ≡ true
up_from-has i zero j lo hi = absurd (omega arith)
up_from-has i (suc n) j lo hi = elim (Bool-cases (i == j)) [
  | inl e ↦ ground (arith, e)
  | inr e ↦
      let ne : i ≢ j = ground (arith, e) in
      ground (arith, up_from-has (i + 1) n j (omega (arith, ne, lo)) (omega (arith, hi)))
]

Distinct-up_from : (i n : ℕ) → Distinct (up_from i n)
Distinct-up_from i zero = ground arith
Distinct-up_from i (suc n) = (
  elim (Bool-cases (has (up_from (i + 1) n) i)) [
    | inl e ↦ absurd (omega (arith, has-up_from (i + 1) n i e))
    | inr e ↦ e
  ],
  Distinct-up_from (i + 1) n,
)

Chain-free_descs : (size i n : ℕ) → i + suc n ≡ size → Chain (free_descs size) i (up_from i (suc n))
Chain-free_descs size i zero e = (refl, ground (arith, e))
Chain-free_descs size i (suc n) e =
    let step : (free_descs size i).next ≡ i + 1 = ground (arith, e) in
    (refl, rw step (Chain-free_descs size (i + 1) n (omega arith)))

-- The parts of a queue lie one behind the other in the pages from `addr` on.
pub record IsLaidOut (vq : Virtq) (addr pages : ℕ) : Type 0 where
  pub at_start : vq.desc_addr ≡ addr
  pub aligned : addr % page_size ≡ 0
  pub descs : vq.desc_addr + vq.num * 16 ≤ vq.avail_addr
  pub avails : vq.avail_addr + (4 + vq.num * 2) ≤ vq.used_addr
  pub used_aligned : vq.used_addr % 4 ≡ 0
  pub useds : vq.used_addr + (4 + vq.num * 8) ≤ addr + pages * page_size

pub record IsFresh (vq : Virtq) (n addr pages : ℕ) : Type 0 where
  pub size : vq.num ≡ n
  pub laid_out : IsLaidOut vq addr pages
  pub all_free : IsOwned vq (up_from 0 n)
  pub unseen : vq.last_used_idx ≡ 0
  pub unused : vq.used.idx ≡ 0

new_queue-IsOwned :
    (desc_addr avail_addr used_addr n base q : ℕ)
    → 1 ≤ n
    → n ≤ virtq_size
    → IsOwned (new_queue desc_addr avail_addr used_addr n base q) (up_from 0 n)
new_queue-IsOwned desc_addr avail_addr used_addr zero base q lo hi = absurd (omega arith)
new_queue-IsOwned desc_addr avail_addr used_addr (suc n) base q lo hi = record {
  chain = Chain-free_descs (suc n) 0 n (omega arith);
  distinct = Distinct-up_from 0 (suc n);
  below = λ i m. omega (arith, has-up_from 0 (suc n) i m);
  small = omega arith;
}

pub legacy-IsFresh :
    (i n base q : ℕ)
    → 1 ≤ n
    → n ≤ virtq_size
    → i + legacy_pages n ≤ max_pages
    → IsFresh
        (new_queue
          (page_addr i)
          (page_addr i + n * 16)
          (page_addr i + legacy_used_offset n)
          n
          base
          q)
        n
        (page_addr i)
        (legacy_pages n)
legacy-IsFresh i n base q lo hi fits = record {
  size = omega arith;
  laid_out = record {
    at_start = refl;
    aligned = omega arith;
    descs = omega arith;
    avails = omega arith;
    used_aligned = omega arith;
    useds = omega arith;
  };
  all_free =
      new_queue-IsOwned (page_addr i) (page_addr i + n * 16) (page_addr i + legacy_used_offset n) n
        base q lo hi;
  unseen = refl;
  unused = refl;
}

pub modern-IsFresh :
    (i n base q : ℕ)
    → 1 ≤ n
    → n ≤ virtq_size
    → i + 1 ≤ max_pages
    → IsFresh
        (new_queue (page_addr i) (page_addr i + n * 16) (modern_used_addr (page_addr i) n) n base q)
        n
        (page_addr i)
        1
modern-IsFresh i n base q lo hi fits = record {
  size = omega arith;
  laid_out = record {
    at_start = refl;
    aligned = omega arith;
    descs = omega arith;
    avails = omega arith;
    used_aligned = omega arith;
    useds = omega arith;
  };
  all_free =
      new_queue-IsOwned (page_addr i) (page_addr i + n * 16) (modern_used_addr (page_addr i) n) n
        base q lo hi;
  unseen = refl;
  unused = refl;
}
