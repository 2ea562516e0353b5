-- ===== src/WaitQueue/Chain.antt =====
-- The linked lists of the pool, and the loops that walk them.
use dragoon_kernel.Prelude.{
  has, Distinct, remove, length, ℕ, zero, suc, none, some, true, false, [], ◌∷◌, Option, List, Bool,
  ◌≡◌, if◌then◌else◌, ◌≤◌, ◌==◌, arith, subst, ◌++◌, ◌<◌, ℕ_discrete, ==_iff, ◌≢◌, ap,
}
use dragoon_kernel.Kernel.{WqEntry}

abbrev pub opt_eq : Option ℕ → ℕ → Bool
opt_eq none i = false
opt_eq (some j) i = j == i

-- `while (wq_pool[cur].next >= 0) cur = wq_pool[cur].next;` with fuel.
unfoldable pub last_of : ℕ → (ℕ → WqEntry) → ℕ → ℕ
last_of zero pool cur = cur
last_of (suc fuel) pool cur = elim (pool cur).next [ none ↦ cur | some i ↦ last_of fuel pool i ]

-- `while (prev >= 0 && wq_pool[prev].next != idx) prev = wq_pool[prev].next;` with fuel.
unfoldable pub find_prev : ℕ → (ℕ → WqEntry) → ℕ → Option ℕ → Option ℕ
find_prev zero pool idx prev = none
find_prev (suc fuel) pool idx none = none
find_prev (suc fuel) pool idx (some prev) = elim (opt_eq (pool prev).next idx) [
  | true ↦ some prev
  | false ↦ find_prev fuel pool idx (pool prev).next
]

-- From `at` the links run through exactly these entries, and end.
abbrev pub Chain : (ℕ → WqEntry) → Option ℕ → List ℕ → Type 0
Chain pool from [] = from ≡ none
Chain pool from (i ∷ l) = (from ≡ some i) × Chain pool (pool i).next l

-- A chain reads the links of its own entries only.
pub Chain-ext :
    (p q : ℕ → WqEntry) (from : Option ℕ) (l : List ℕ)
    → ((i : ℕ) → has l i ≡ true → (p i).next ≡ (q i).next)
    → Chain p from l
    → Chain q from l
Chain-ext p q from [] h c = c
Chain-ext p q from (i ∷ l) h c = (
  c.0,
  Chain-ext p q (q i).next l (λ j m. h j (ground arith))
      (subst (λ n. Chain p n l) (h i (ground arith)) c.1),
)

-- The walk to the last entry ends by its test, at an entry of the chain, given fuel for its length.
pub last_of-Chain :
    (fuel : ℕ) (p : ℕ → WqEntry) (i : ℕ) (l : List ℕ)
    → Chain p (p i).next l
    → length l ≤ fuel
    → ((p (last_of fuel p i)).next ≡ none) × (has (i ∷ l) (last_of fuel p i) ≡ true)
unfolding last_of
last_of-Chain zero p i [] c h = (c, ground arith)
last_of-Chain zero p i (j ∷ l) c h = absurd (omega arith)
last_of-Chain (suc fuel) p i [] c h = ground arith
last_of-Chain (suc fuel) p i (j ∷ l) c h = ground (arith, last_of-Chain fuel p j l c.1)

-- Linking a new entry behind the last one appends it to the chain.
pub append-Chain :
    (fuel : ℕ) (p q : ℕ → WqEntry) (i idx : ℕ) (l : List ℕ)
    → Chain p (p i).next l
    → Distinct (i ∷ l)
    → has (i ∷ l) idx ≡ false
    → (p idx).next ≡ none
    → length l ≤ fuel
    → ((j : ℕ) → (q j).next ≡ (if last_of fuel p i == j then some idx else (p j).next))
    → Chain q (q i).next (l ++ idx ∷ [])
unfolding last_of
append-Chain zero p q i idx [] c d n e h u = (ground (arith, u i), ground (arith, u idx))
append-Chain zero p q i idx (j ∷ l) c d n e h u = absurd (omega arith)
append-Chain (suc fuel) p q i idx [] c d n e h u = (ground (arith, u i), ground (arith, u idx))
append-Chain (suc fuel) p q i idx (j ∷ l) c d n e h u = (
  ground (arith, u i, last_of-Chain fuel p j l c.1),
  append-Chain fuel p q j idx l c.1 d.1 (ground arith) e (omega arith) (λ m. ground (arith, u m)),
)

-- The walk to the entry before `idx` finds it, given fuel for the chain, and linking past `idx` there
-- takes `idx` out of the chain.
pub remove-Chain :
    (fuel : ℕ) (p : ℕ → WqEntry) (i idx : ℕ) (l : List ℕ)
    → Chain p (p i).next l
    → Distinct (i ∷ l)
    → has l idx ≡ true
    → length l < fuel
    → (prev : ℕ) × (find_prev fuel p idx (some i) ≡ some prev)
      × (has (i ∷ l) prev ≡ true)
      × ((q : ℕ → WqEntry)
          → ((j : ℕ) → (q j).next ≡ (if prev == j then (p idx).next else (p j).next))
          → Chain q (q i).next (remove idx l))
unfolding find_prev
remove-Chain zero p i idx l c d m h = absurd (omega arith)
remove-Chain (suc fuel) p i idx [] c d m h = absurd (ground arith)
remove-Chain (suc fuel) p i idx (j ∷ l) c d m h = elim (ℕ_discrete j idx) [
  | yes here ↦ (i, ground arith, ground arith, λ q u. unlinked here q u)
  | no past ↦
      let (prev, e, b, f) = remove-Chain fuel p j idx l c.1 d.1 (ground arith) (omega arith) in
      (
        prev,
        ground arith,
        ground arith,
        λ q u. rw (other past) (ground (arith, u i, b, d.0), f q u),
      )
]
  where
    hit : j ≡ idx → (j == idx) ≡ true
    hit here = (==_iff j idx).1 here

    other : j ≢ idx → (j == idx) ≡ false
    other past = ground arith

    unlinked :
        j ≡ idx
        → (q : ℕ → WqEntry) → ((m : ℕ) → (q m).next ≡ (if i == m then (p idx).next else (p m).next))
        → Chain q (q i).next (remove idx (j ∷ l))
    unlinked here q u = rw (hit here) (
        subst (λ n. Chain q n l) (ground (arith, u i, ap (λ m. (p m).next) here))
          (Chain-ext p q (p j).next l (λ n b. ground (arith, u n, d.0)) c.1))
