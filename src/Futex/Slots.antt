-- ===== src/Futex/Slots.antt =====
-- The table of futexes.
use dragoon_kernel.Prelude.{
  ℕ, List, [], ◌≡◌, ◌≢◌, ◌<◌, true, false, none, some, find_from, arith, refl, Option-cases, inl,
  inr, not-false, not-true, Option, ℕ_discrete, update, subst, sym,
}
use dragoon_kernel.Prelude.Loops.{find_from-some, find_from-none}
use dragoon_kernel.Kernel.{Kernel}
use dragoon_kernel.WaitQueue.Invariant.{IsQueued}
use dragoon_kernel.WaitQueue.Chain.{Chain}
use dragoon_kernel.Futex.{futex_max, find_slot, slot_has, slot_free, open_slot}

-- An address has one active slot at most, and nobody waits at an inactive one.
pub record IsTable (line : ℕ → List ℕ) (k : Kernel) : Type 0 where
  pub queued : IsQueued line k
  pub one_slot :
      (i j : ℕ)
      → i < futex_max
      → j < futex_max
      → slot_has k (k.ftable i).addr i ≡ true
      → slot_has k (k.ftable i).addr j ≡ true
      → i ≡ j
  pub vacant : (i : ℕ) → i < futex_max → (k.ftable i).active ≡ false → line i ≡ []

-- No slot is found, when all are taken by other addresses; or the slot found is the address's, and the
-- table and the waiting tasks are as they were but for it.
abbrev pub Finds : (ℕ → List ℕ) → ℕ → Kernel → Option ℕ × Kernel → Type 0
Finds line addr k (none, k') =
    (k' ≡ k)
    × ((i : ℕ) → i < futex_max → ((k.ftable i).active ≡ true) × (slot_has k addr i ≡ false))
Finds line addr k (some i, k') =
    (i < futex_max)
    × (slot_has k' addr i ≡ true)
    × IsTable line k'
    × ((j : ℕ) → i ≢ j → k'.ftable j ≡ k.ftable j)

opened :
    (line : ℕ → List ℕ) (addr i : ℕ) (k : Kernel)
    → IsTable line k
    → i < futex_max
    → (k.ftable i).active ≡ false
    → ((j : ℕ) → j < futex_max → slot_has k addr j ≡ false)
    → IsTable line (open_slot addr i k)
opened line addr i k t l free fresh = record {
  queued = record {
    chained = λ q. elim (ℕ_discrete i q) [
      | yes here ↦ rw (← here, t.vacant i l free) (ground arith)
      | no other ↦
          (let head' : update k.head i none q ≡ k.head q = ground (arith, other) in
            subst (λ h. Chain k.wq_pool h (line q)) (sym head') (t.queued.chained q))
    ];
    distinct = t.queued.distinct;
    in_pool = t.queued.in_pool;
    in_use = t.queued.in_use;
    owned = t.queued.owned;
    covered = t.queued.covered;
  };
  one_slot = λ a b la lb ha hb. ground (arith, t.one_slot a b la lb, fresh a la, fresh b lb);
  vacant = λ j lj h. ground (arith, t.vacant j lj);
}

-- With the table of futexes in good order, `find_slot` that may create a slot fails only when all 16
-- are active for other addresses, and then changes nothing; otherwise it answers with the slot of the
-- address, the table stays in good order, so that each address has one slot, and the other slots are
-- as they were.
pub find_slot_lem :
    (line : ℕ → List ℕ) (addr : ℕ) (k : Kernel)
    → IsTable line k
    → Finds line addr k (find_slot addr true k)
unfolding find_slot
find_slot_lem line addr k t = elim (Option-cases (find_from futex_max 0 (slot_has k addr))) [
  | inr (i, e) ↦
      let found = find_from-some futex_max 0 (slot_has k addr) i e in
      rw (e, find_slot) (found.below, found.passes, t, λ j ne. refl)
  | inl e ↦ elim (Option-cases (find_from futex_max 0 (slot_free k))) [
    | inl full ↦
        rw (e, full, find_slot)
          (
            refl,
            λ i l. (
              not-false (find_from-none futex_max 0 (slot_free k) full i (omega arith) l),
              find_from-none futex_max 0 (slot_has k addr) e i (omega arith) l,
            ),
          )
    | inr (i, f) ↦
        let found = find_from-some futex_max 0 (slot_free k) i f in
        rw (e, f, find_slot)
          (
            found.below,
            ground arith,
            opened line addr i k t found.below (not-true found.passes)
                (λ j l. find_from-none futex_max 0 (slot_has k addr) e j (omega arith) l),
            λ j ne. ground arith,
          )
  ]
]
