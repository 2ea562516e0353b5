-- ===== src/Futex/Wake.antt =====
-- `futex_wake`: who is woken, and what becomes of the slot.
use dragoon_kernel.Prelude.{
  ℕ, List, [], ◌∷◌, ◌≡◌, ◌<◌, Bool, true, false, none, some, arith, refl, update, ap, ◌⊎◌, inl, inr,
  find_from, Option-cases, Option, ◌∙◌, not, subst, sym,
}
use dragoon_kernel.Prelude.Int.{ℤ}
use dragoon_kernel.Prelude.Loops.{find_from-some, find_from-none}
use dragoon_kernel.Kernel.{Kernel}
use dragoon_kernel.WaitQueue.Invariant.{IsQueued}
use dragoon_kernel.WaitQueue.Chain.{Chain}
use dragoon_kernel.Futex.Slots.{IsTable}
use dragoon_kernel.Futex.Waking.{
  drop, IsQuiet, Same-IsQueued, WokeUpTo, wake_up_to-WokeUpTo, wake_up_to-ftable,
}
use dragoon_kernel.Futex.{
  Meddlers, slot_has, set_slot, find_slot, futex_wake, futex_max, bound_of, maybe_free_slot,
  wake_up_to,
}

abbrev pub is_empty : List ℕ → Bool
is_empty [] = true
is_empty (x ∷ l) = false

-- Nobody was woken, as the address has no slot; or the longest waiting of those at its slot were woken,
-- at most `count`; the others still wait, and the slot stays active only for them.
abbrev pub Wakes : (ℕ → List ℕ) → ℕ → ℤ → Kernel → ℕ × Kernel → Type 0
Wakes line addr count k r =
    ((r ≡ (0, k)) × ((i : ℕ) → i < futex_max → slot_has k addr i ≡ false))
    ⊎ ((s : ℕ) × (slot_has k addr s ≡ true)
        × WokeUpTo line s (line s) (bound_of count) 0 k r
        × IsTable (update line s (drop (bound_of count) (line s))) r.1
        × ((r.1.ftable s).active ≡ not (is_empty (drop (bound_of count) (line s)))))

retable :
    (line : ℕ → List ℕ) (s : ℕ) (l : List ℕ) (k k' : Kernel) (active : Bool)
    → IsTable line k
    → s < futex_max
    → k'.ftable ≡ k.ftable
    → (k.ftable s).active ≡ true
    → active ≡ not (is_empty l)
    → IsQueued (update line s l) k'
    → IsTable (update line s l) (set_slot s (record (k'.ftable s) { active = active }) k')
retable line s l k k' active t lt same was now w = record {
  queued = record {
    chained = w.chained;
    distinct = w.distinct;
    in_pool = w.in_pool;
    in_use = w.in_use;
    owned = w.owned;
    covered = w.covered;
  };
  one_slot = λ i j li lj hi hj.
      ground
        (arith, ap (λ f. f i) same, ap (λ f. f j) same, ap (λ f. f s) same, t.one_slot i j li lj);
  vacant = λ j lj h. ground (arith, ap (λ f. f j) same, t.vacant j lj);
}

freed_slot :
    (line : ℕ → List ℕ) (s : ℕ) (l : List ℕ) (k k' : Kernel)
    → IsTable line k
    → s < futex_max
    → k'.ftable ≡ k.ftable
    → (k.ftable s).active ≡ true
    → IsQueued (update line s l) k'
    → IsTable (update line s l) (maybe_free_slot s k')
      × (((maybe_free_slot s k').ftable s).active ≡ not (is_empty l))
unfolding maybe_free_slot
freed_slot line s [] k k' t lt same active w =
    let head' : k'.head s ≡ none = subst (Chain k'.wq_pool (k'.head s)) here (w.chained s) in
    rw (head', maybe_free_slot) (retable line s [] k k' false t lt same active refl w, ground arith)
  where
    here : update line s [] s ≡ []
    here = ground arith
freed_slot line s (x ∷ l) k k' t lt same active w =
    let head' : k'.head s ≡ some x = (subst (Chain k'.wq_pool (k'.head s)) here (w.chained s)).0 in
    rw (head', maybe_free_slot)
      (
        record {
          queued = w;
          one_slot = λ i j li lj hi hj.
              ground (arith, ap (λ f. f i) same, ap (λ f. f j) same, t.one_slot i j li lj);
          vacant = λ j lj h. ground (arith, ap (λ f. f j) same, active, t.vacant j lj);
        },
        ground (arith, ap (λ f. f s) same, active),
      )
  where
    here : update line s (x ∷ l) s ≡ x ∷ l
    here = ground arith

slot_active : (k : Kernel) (addr i : ℕ) → slot_has k addr i ≡ true → (k.ftable i).active ≡ true
slot_active k addr i h = ground arith

maybe_free_slot-tasks : (i : ℕ) (k : Kernel) → (maybe_free_slot i k).tasks ≡ k.tasks
unfolding maybe_free_slot
maybe_free_slot-tasks i k = ground arith

-- `futex_wake` after its search.
abbrev wake_found : Meddlers → ℤ → Option ℕ × Kernel → ℕ × Kernel
wake_found o count found = elim found.0 [
  | none ↦ (0, found.1)
  | some slot ↦
      let (woken, k) = wake_up_to o (bound_of count) slot (bound_of count) 0 found.1 in
      (woken, maybe_free_slot slot (o.before_lock k))
]

not_found :
    (addr : ℕ) (k : Kernel)
    → find_from futex_max 0 (slot_has k addr) ≡ none
    → find_slot addr false k ≡ (none, k)
unfolding find_slot
not_found addr k e = rw (e, find_slot) refl

found_at :
    (addr s : ℕ) (k : Kernel)
    → find_from futex_max 0 (slot_has k addr) ≡ some s
    → find_slot addr false k ≡ (some s, k)
unfolding find_slot
found_at addr s k e = rw (e, find_slot) refl

futex_wake-found :
    (o : Meddlers) (addr : ℕ) (count : ℤ) (k : Kernel)
    → futex_wake o addr count k ≡ wake_found o count (find_slot addr false k)
unfolding futex_wake
futex_wake-found o addr count k = refl

-- With the table of futexes in good order, and others that leave the queues, the futexes and the tasks
-- alone in the moments in which no lock is held, `futex_wake` wakes nobody and changes nothing if the
-- address has no slot; otherwise it takes the longest waiting of the address out of the queue, as many
-- as asked for or as wait, makes those of their tasks that are blocked ready, returns how many it took
-- out, keeps the others in their order, gives the slot back exactly when nobody is left, and leaves
-- the table in good order.
pub futex_wake_lem :
    (o : Meddlers) (line : ℕ → List ℕ) (addr : ℕ) (count : ℤ) (k : Kernel)
    → IsQuiet o
    → IsTable line k
    → Wakes line addr count k (futex_wake o addr count k)
futex_wake_lem o line addr count k quiet t =
    elim (Option-cases (find_from futex_max 0 (slot_has k addr))) [
      | inl e ↦
          subst (Wakes line addr count k)
            (sym (futex_wake-found o addr count k ∙ ap (wake_found o count) (not_found addr k e)))
            (inl (refl, λ i l. find_from-none futex_max 0 (slot_has k addr) e i (omega arith) l))
      | inr (s, e) ↦
          let found = find_from-some futex_max 0 (slot_has k addr) s e in
          let n = bound_of count in
          let woke =
            wake_up_to-WokeUpTo o quiet n s n 0 n (line s) line k t.queued refl (omega arith)
              (omega arith) in
          let woken = (wake_up_to o n s n 0 k).1 in
          let back = quiet.before_lock woken in
          let queued =
            Same-IsQueued (update line s (drop n (line s))) woken (o.before_lock woken) back
              woke.queued in
          let (table, stays) =
            freed_slot line s (drop n (line s)) k (o.before_lock woken) t found.below
              (back.slots ∙ wake_up_to-ftable o quiet n s n 0 k) (slot_active k addr s found.passes)
              queued in
          subst (Wakes line addr count k)
            (sym (futex_wake-found o addr count k ∙ ap (wake_found o count) (found_at addr s k e)))
            (inr (
              s,
              found.passes,
              record {
                count = woke.count;
                queued = table.queued;
                tasks = maybe_free_slot-tasks s (o.before_lock woken) ∙ back.tasks ∙ woke.tasks;
              },
              table,
              stays,
            ))
    ]
