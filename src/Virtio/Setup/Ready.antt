-- ===== src/Virtio/Setup/Ready.antt =====
-- What setting up a queue results in.
use dragoon_kernel.Prelude.{ℕ, ◌+◌, ◌≡◌, ◌≤◌, List, Option, none, some, ◌==◌, if◌then◌else◌}
use dragoon_kernel.Prelude.Int.{ℤ, pos, minus_one}
use dragoon_kernel.Mm.{page_addr, is_free, max_pages}
use dragoon_kernel.Mm.Runs.{Broken, IsRun}
use dragoon_kernel.Mm.Accounting.{IsCounted}
use dragoon_kernel.Mm.Alloc.{IsGranted}
use dragoon_kernel.Virtio.{Virtio, vio_write}
use dragoon_kernel.Virtio.Setup.{legacy_pages, queue_room}
use dragoon_kernel.Virtio.Setup.Layout.{IsFresh}

module _ (vio_read : List (ℕ × ℕ) → ℕ → ℕ) where
  -- The size that the device offers, once queue `q` is selected.
  abbrev pub offered : ℕ → ℕ → ℕ → Virtio → Option ℕ
  offered dev q size s =
      let base = (s.devices dev).base in queue_room vio_read base size (vio_write base 48 q s)

  -- The outcomes, where a queue of `n` takes `pages n` pages: the first that are free in a row.
  pub data SetsUp (dev q size : ℕ) (pages : ℕ → ℕ) (s : Virtio) : ℤ × Virtio → Type 0 where
    no_queue : (t : Virtio) → offered dev q size s ≡ none → SetsUp dev q size pages s (minus_one, t)
    no_memory :
        (t : Virtio) (n : ℕ)
        → offered dev q size s ≡ some n
        → ((a : ℕ) → a + pages n ≤ max_pages → Broken (is_free s.mm) (pages n) a)
        → SetsUp dev q size pages s (minus_one, t)
    ready :
        (t : Virtio) (n i : ℕ)
        → offered dev q size s ≡ some n
        → 1 ≤ n
        → n ≤ size
        → IsRun (is_free s.mm) (pages n) max_pages i
        → IsGranted s.mm i (pages n) t.mm
        → IsFresh ((t.devices dev).queues q) n (page_addr i) (pages n)
        → IsCounted t.mm
        → SetsUp dev q size pages s (pos 0, t)

  -- The pages that a queue of `n` takes.
  abbrev pub queue_pages : ℕ → Virtio → ℕ → ℕ
  queue_pages dev s = if (s.devices dev).version == 1 then legacy_pages else (λ n. 1)
