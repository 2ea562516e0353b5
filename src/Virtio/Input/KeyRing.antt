-- ===== src/Virtio/Input/KeyRing.antt =====
-- The ring of keys is a queue of at most 31.
use dragoon_kernel.Prelude.{
  ℕ, zero, suc, ◌+◌, ◌-◌, ◌%◌, ◌≡◌, ◌<◌, true, false, List, [], ◌∷◌, ◌++◌, ◌==◌, ltb, if◌then◌else◌,
  length, update, arith, refl, ap, sym, ◌∙◌, inl, inr, Bool-cases, ◌⊎◌,
}
use dragoon_kernel.Virtio.Input.{Keys, key_ring_size, key_ring_push, key_ring_pop}

-- `n` keys from the index `i` on.
abbrev pub from_ring : (ℕ → ℕ) → ℕ → ℕ → List ℕ
from_ring ring i zero = []
from_ring ring i (suc n) = ring i ∷ from_ring ring ((i + 1) % key_ring_size) n

-- How many keys the ring holds, and which, oldest first.
abbrev pub held : Keys → ℕ
held s = (s.key_ring_head + key_ring_size - s.key_ring_tail) % key_ring_size

abbrev pub keys : Keys → List ℕ
keys s = from_ring s.key_ring s.key_ring_tail (held s)

pub record InRing (s : Keys) : Type 0 where
  pub head : s.key_ring_head < key_ring_size
  pub tail : s.key_ring_tail < key_ring_size

length-from_ring : (ring : ℕ → ℕ) (i n : ℕ) → length (from_ring ring i n) ≡ n
length-from_ring ring i zero = refl
length-from_ring ring i (suc n) = ap suc (length-from_ring ring ((i + 1) % key_ring_size) n)

-- A key written behind the last.
from_ring-update :
    (ring : ℕ → ℕ) (key n i j : ℕ)
    → i < key_ring_size
    → n < key_ring_size
    → (i + n) % key_ring_size ≡ j
    → from_ring (update ring j key) i (suc n) ≡ from_ring ring i n ++ key ∷ []
from_ring-update ring key zero i j lt small e = ground (arith, e)
from_ring-update ring key (suc n) i j lt small e =
    let rest =
      from_ring-update ring key n ((i + 1) % key_ring_size) j (omega arith) (omega arith)
        (omega (arith, e)) in
    ground (arith, rest, e)

key_ring_push_lem :
    (key : ℕ) (s : Keys)
    → InRing s
    → InRing (key_ring_push key s)
      × (keys (key_ring_push key s)
          ≡ (if ltb (length (keys s)) 31 then keys s ++ key ∷ [] else keys s))
unfolding key_ring_push
key_ring_push_lem key s r =
    elim (Bool-cases ((s.key_ring_head + 1) % key_ring_size == s.key_ring_tail)) [
      | inl full ↦
          let n : held s ≡ 31 = ground (arith, full, r.head, r.tail) in
          let e : ltb (length (keys s)) 31 ≡ false =
            ap (λ m. ltb m 31) (length-from_ring s.key_ring s.key_ring_tail (held s) ∙ n) ∙ refl in
          rw full (r, sym (ap (λ b. if b then keys s ++ key ∷ [] else keys s) e))
      | inr space ↦
          let n : held s < 31 = ground (arith, space, r.head, r.tail) in
          let m : ((s.key_ring_head + 1) % key_ring_size + key_ring_size - s.key_ring_tail)
                % key_ring_size
              ≡ suc (held s) =
            ground (arith, space, r.head, r.tail) in
          let e : ltb (length (keys s)) 31 ≡ true =
            ap (λ m. ltb m 31) (length-from_ring s.key_ring s.key_ring_tail (held s))
            ∙ ground (arith, n) in
          rw space (
            record { head = omega arith; tail = r.tail },
            ap (from_ring (update s.key_ring s.key_ring_head key) s.key_ring_tail) m
                ∙ from_ring-update s.key_ring key (held s) s.key_ring_tail s.key_ring_head r.tail
                    (omega (arith, n)) (omega (arith, r.head, r.tail))
                ∙ sym (ap (λ b. if b then keys s ++ key ∷ [] else keys s) e),
          )
    ]

key_ring_pop_lem :
    (s : Keys)
    → InRing s
    → InRing (key_ring_pop s).1
      × ((((key_ring_pop s).0 ≡ 0) × (keys s ≡ []) × ((key_ring_pop s).1 ≡ s))
          ⊎ (keys s ≡ (key_ring_pop s).0 ∷ keys (key_ring_pop s).1))
unfolding key_ring_pop
key_ring_pop_lem s r = elim (Bool-cases (s.key_ring_head == s.key_ring_tail)) [
  | inl none_left ↦
      let n : held s ≡ 0 = ground (arith, none_left, r.head, r.tail) in
      rw none_left (r, inl (refl, ap (from_ring s.key_ring s.key_ring_tail) n, refl))
  | inr some_left ↦
      let n : held s
          ≡ suc (
              (s.key_ring_head + key_ring_size - (s.key_ring_tail + 1) % key_ring_size)
              % key_ring_size) =
        ground (arith, some_left, r.head, r.tail) in
      rw some_left (
        record { head = r.head; tail = omega arith },
        inr (ap (from_ring s.key_ring s.key_ring_tail) n),
      )
]

-- The ring of keys is a queue: a push puts the key behind the others, unless there are 31, and a pop
-- takes the oldest, or answers 0 when there is none.
pub key_ring_lem :
    (key : ℕ) (s : Keys)
    → InRing s
    → (InRing (key_ring_push key s)
        × (keys (key_ring_push key s)
            ≡ (if ltb (length (keys s)) 31 then keys s ++ key ∷ [] else keys s)))
      × InRing (key_ring_pop s).1
      × ((((key_ring_pop s).0 ≡ 0) × (keys s ≡ []) × ((key_ring_pop s).1 ≡ s))
          ⊎ (keys s ≡ (key_ring_pop s).0 ∷ keys (key_ring_pop s).1))
key_ring_lem key s r =
    let (in_ring, popped) = key_ring_pop_lem s r in (key_ring_push_lem key s r, in_ring, popped)
