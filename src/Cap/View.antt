-- ===== src/Cap/View.antt =====
-- The pool as its clients see it: a partial map from capability ids to what they grant.
use dragoon_kernel.Prelude.{
  ℕ, Option, ◌<◌, arith, ◌≡◌, true, false, none, ◌↔◌, if◌then◌else◌, some, ◌⊎◌, ◌==◌, refl,
  Option-cases, find_from, inl, not-false, inr, update, ap,
}
use dragoon_kernel.Prelude.Int.{ℤ, pos, negsuc, minus_one}
use dragoon_kernel.Prelude.Loops.{for_range_inv, find_from-some, find_from-none}
use dragoon_kernel.Cap.{
  Capability, CapPool, Payload, cap_none, cap_pool_size, slot_free, cap_init, cap_alloc,
  cap_destroy, drop_reference, cap_lookup, cap_check,
}

-- What a client can learn of an id: the type and the payload.
pub record Grant : Type 0 where
  pub type : ℕ
  pub payload : Payload

abbrev pub grant : Capability → Grant
grant c = record { type = c.type; payload = c.payload }

abbrev pub view : CapPool → ℕ → Option Grant
view s i = if s.cap_pool_used i then some (grant (s.cap_pool i)) else none

-- A used slot has one reference, a free slot has none and no type.
pub record IsPooled (s : CapPool) : Type 0 where
  pub held : (i : ℕ) → i < cap_pool_size → s.cap_pool_used i ≡ true → (s.cap_pool i).refcount ≡ 1
  pub vacant :
      (i : ℕ)
      → i < cap_pool_size
      → s.cap_pool_used i ≡ false
      → ((s.cap_pool i).type ≡ cap_none) × ((s.cap_pool i).refcount ≡ 0)

record IsReset (k : ℕ) (s : CapPool) : Type 0 where
  unused : (i : ℕ) → i < k → s.cap_pool_used i ≡ false
  typeless : (i : ℕ) → i < k → ((s.cap_pool i).type ≡ cap_none) × ((s.cap_pool i).refcount ≡ 0)

cap_init-IsReset : (s : CapPool) → IsReset cap_pool_size (cap_init s)
unfolding cap_init
cap_init-IsReset s =
    for_range_inv IsReset _ cap_pool_size 0 cap_pool_size s (omega arith)
      (λ k t lo hi h. record {
        unused = λ i lt. ground (arith, h.unused i);
        typeless = λ i lt. ground (arith, h.typeless i);
      })
      (record { unused = λ i lt. absurd (omega arith); typeless = λ i lt. absurd (omega arith) })

-- `cap_init` leaves a pool in good order in which no id in range grants anything.
pub cap_init_lem :
    (s : CapPool) (i : ℕ) → i < cap_pool_size → IsPooled (cap_init s) × (view (cap_init s) i ≡ none)
cap_init_lem s i lt = (
  record {
    held = λ j l e. ground (arith, (cap_init-IsReset s).unused j);
    vacant = λ j l e. (cap_init-IsReset s).typeless j l;
  },
  ground (arith, (cap_init-IsReset s).unused i),
)

cap_alloc-some :
    (c : Capability) (s : CapPool) (i : ℕ)
    → find_from cap_pool_size 0 (slot_free s) ≡ some i
    → cap_alloc c s ≡ (
      pos i,
      record s {
        cap_pool = update s.cap_pool i (record c { refcount = 1 });
        cap_pool_used = update s.cap_pool_used i true;
      },
    )
unfolding cap_alloc
cap_alloc-some c s i e = rw (e, cap_alloc)

-- Either every id grants something, and the call fails and changes nothing; or the call returns the
-- lowest id that grants nothing, and from then on that id, and no other, grants what was asked for.
abbrev pub Grants : Capability → CapPool → ℤ × CapPool → Type 0
Grants c s r =
    ((r ≡ (minus_one, s)) × ((i : ℕ) → i < cap_pool_size → s.cap_pool_used i ≡ true))
    ⊎ ((i : ℕ) × (r.0 ≡ pos i)
        × (i < cap_pool_size)
        × (view s i ≡ none)
        × ((j : ℕ) → j < i → s.cap_pool_used j ≡ true)
        × ((j : ℕ) → view r.1 j ≡ (if i == j then some (grant c) else view s j))
        × IsPooled r.1)

-- On a pool in good order `cap_alloc` fails only when every id grants something, and then changes
-- nothing; otherwise it returns the lowest id that grants nothing, and from then on that id, and no
-- other, grants what was asked for; the pool stays in good order.
pub cap_alloc_lem : (c : Capability) (s : CapPool) → IsPooled s → Grants c s (cap_alloc c s)
cap_alloc_lem c s w = elim (Option-cases (find_from cap_pool_size 0 (slot_free s))) [
  | inl e ↦ inl (
    unfold cap_alloc in rw (e, cap_alloc),
    λ i lt. not-false (find_from-none cap_pool_size 0 (slot_free s) e i (omega arith) lt),
  )
  | inr (i, e) ↦
      let found = find_from-some cap_pool_size 0 (slot_free s) i e in
      let filled = cap_alloc-some c s i e in
      inr (
        i,
        ap (λ r. r.0) filled,
        found.below,
        ground (arith, found.passes),
        λ j lt. not-false (found.least j (omega arith) lt),
        λ j. rw filled (ground arith),
        rw filled (record {
          held = λ k l u. ground (arith, w.held k);
          vacant = λ k l u. ground (arith, w.vacant k);
        }),
      )
]

-- On a pool in good order, destroying the id of a granted capability returns 0 and takes that grant
-- away and no other; the pool stays in good order.
pub cap_destroy_lem :
    (i j : ℕ) (s : CapPool)
    → IsPooled s
    → i < cap_pool_size
    → s.cap_pool_used i ≡ true
    → ((cap_destroy (pos i) s).0 ≡ pos 0)
      × (view (cap_destroy (pos i) s).1 j ≡ (if i == j then none else view s j))
      × IsPooled (cap_destroy (pos i) s).1
unfolding cap_destroy drop_reference
cap_destroy_lem i j s w lt u = (
  ground arith,
  ground (arith, w.held i),
  record {
    held = λ k l e. ground (arith, w.held i, w.held k);
    vacant = λ k l e. ground (arith, w.held i, w.vacant k);
  },
)

-- An id that `cap_lookup` finds nothing at is refused by `cap_destroy`, and by `cap_check` whatever
-- the type; the pool is unchanged.
pub cap_refused :
    (id : ℤ) (s : CapPool) (t : ℕ)
    → cap_lookup id s ≡ none
    → (cap_destroy id s ≡ (minus_one, s)) × (cap_check id t s ≡ minus_one)
unfolding cap_lookup cap_destroy cap_check
cap_refused (negsuc n) s t e = (refl, refl)
cap_refused (pos i) s t e = (ground arith, ground arith)

-- `cap_check` accepts a number from 0 on exactly when it is in range and grants the type.
pub cap_check_lem :
    (i t : ℕ) (s : CapPool)
    → (cap_check (pos i) t s ≡ pos 0)
      ↔ ((i < cap_pool_size) × (s.cap_pool_used i ≡ true) × ((s.cap_pool i).type ≡ t))
unfolding cap_check cap_lookup
cap_check_lem i t s = (λ e. ground arith, λ h. ground arith)

-- On a pool in good order, the id of a granted capability that is destroyed once cannot be destroyed
-- again: the second call returns -1 and changes nothing.
pub cap_destroy_twice :
    (i : ℕ) (s : CapPool)
    → IsPooled s
    → i < cap_pool_size
    → s.cap_pool_used i ≡ true
    → cap_destroy (pos i) (cap_destroy (pos i) s).1 ≡ (minus_one, (cap_destroy (pos i) s).1)
unfolding cap_destroy drop_reference
cap_destroy_twice i s w lt u = ground (arith, w.held i)
