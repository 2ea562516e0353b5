-- ===== src/Virtio/Queue.antt =====
-- The descriptors of a queue: each is on the free list or with the device.
use dragoon_kernel.Prelude.{
  ℕ, ◌+◌, ◌%◌, ◌^◌, ◌≡◌, ◌≢◌, ◌<◌, true, false, some, List, [], ◌∷◌, ◌==◌, has, Distinct, arith,
  refl, ap, sym, subst, ◌⊎◌, inl, inr,
}
use dragoon_kernel.Virtio.{
  Virtq, VirtqDesc, no_desc, virtq_push_buf, virtq_pop_used, virtq_has_used, next_used, lend,
  take_back,
}

-- The descriptors that follow each other from `h` on are those of a list.
abbrev pub Chain : (ℕ → VirtqDesc) → ℕ → List ℕ → Type 0
Chain desc h [] = h ≡ no_desc
Chain desc h (i ∷ l) = (h ≡ i) × Chain desc (desc i).next l

pub record IsOwned (vq : Virtq) (free : List ℕ) : Type 0 where
  pub chain : Chain vq.desc vq.free_head free
  pub distinct : Distinct free
  pub below : (i : ℕ) → has free i ≡ true → i < vq.num
  pub small : vq.num < no_desc

Chain-ext :
    (desc desc' : ℕ → VirtqDesc) (l : List ℕ) (h : ℕ)
    → ((i : ℕ) → has l i ≡ true → desc' i ≡ desc i)
    → Chain desc h l
    → Chain desc' h l
Chain-ext desc desc' [] h same c = c
Chain-ext desc desc' (i ∷ l) h same c = (
  c.0,
  Chain-ext desc desc' l (desc' i).next (λ j m. same j (ground (arith, m)))
      (subst (λ d. Chain desc (d.next) l) (sym (same i (ground arith))) c.1),
)

-- What `virtq_push_buf` does with a descriptor `i` at the head of the free list.
pub record Lends (vq : Virtq) (buf len flags i : ℕ) (free : List ℕ) (vq' : Virtq) : Type 0 where
  pub owned : IsOwned vq' free
  pub told : vq'.avail.ring (vq.avail.idx % vq.num) ≡ i
  pub count : vq'.avail.idx ≡ (vq.avail.idx + 1) % 2 ^ 16
  pub address : (vq'.desc i).addr ≡ buf
  pub room : (vq'.desc i).len ≡ len
  pub mode : (vq'.desc i).flags ≡ flags
  pub others : (j : ℕ) → j ≢ i → vq'.desc j ≡ vq.desc j
  pub used : vq'.used ≡ vq.used
  pub seen : vq'.last_used_idx ≡ vq.last_used_idx
  pub same_num : vq'.num ≡ vq.num

pub push_none :
    (buf len flags : ℕ) (vq : Virtq) → vq.free_head ≡ no_desc → virtq_push_buf buf len flags vq ≡ vq
unfolding virtq_push_buf
push_none buf len flags vq e = ground (arith, e)

lend-Lends :
    (buf len flags i : ℕ) (l : List ℕ) (vq : Virtq)
    → IsOwned vq (i ∷ l)
    → Lends vq buf len flags i l (lend buf len flags i vq)
lend-Lends buf len flags i l vq o = record {
  owned = record {
    chain =
        Chain-ext vq.desc (lend buf len flags i vq).desc l (vq.desc i).next
          (λ j m. ground (arith, m, o.distinct.0)) o.chain.1;
    distinct = o.distinct.1;
    below = λ j m. o.below j (ground (arith, m));
    small = o.small;
  };
  told = ground arith;
  count = refl;
  address = ground arith;
  room = ground arith;
  mode = ground arith;
  others = λ j other. ground (arith, other);
  used = refl;
  seen = refl;
  same_num = refl;
}

push_head :
    (buf len flags i : ℕ) (l : List ℕ) (vq : Virtq)
    → IsOwned vq (i ∷ l)
    → virtq_push_buf buf len flags vq ≡ lend buf len flags i vq
unfolding virtq_push_buf
push_head buf len flags i l vq o =
    let lt = o.below i (ground arith) in
    let ne : (vq.free_head == no_desc) ≡ false = ground (arith, o.chain.0, lt, o.small) in
    rw ne (ap (λ h. lend buf len flags h vq) o.chain.0)

-- With a descriptor free, the push takes it.
pub push_head_lem :
    (buf len flags i : ℕ) (l : List ℕ) (vq : Virtq)
    → IsOwned vq (i ∷ l)
    → Lends vq buf len flags i l (virtq_push_buf buf len flags vq)
push_head_lem buf len flags i l vq o =
    subst (Lends vq buf len flags i l) (sym (push_head buf len flags i l vq o))
      (lend-Lends buf len flags i l vq o)

-- Pushing a buffer lends the first free descriptor, or does nothing where none is free.
pub virtq_push_buf_lem :
    (buf len flags : ℕ) (vq : Virtq) (free : List ℕ)
    → IsOwned vq free
    → ((free ≡ []) × (virtq_push_buf buf len flags vq ≡ vq))
      ⊎ ((i : ℕ) × (l : List ℕ) × (free ≡ i ∷ l)
          × Lends vq buf len flags i l (virtq_push_buf buf len flags vq))
virtq_push_buf_lem buf len flags vq [] o = inl (refl, push_none buf len flags vq o.chain)
virtq_push_buf_lem buf len flags vq (i ∷ l) o =
    inr (i, l, refl, push_head_lem buf len flags i l vq o)

pub record Returns (vq : Virtq) (free : List ℕ) (vq' : Virtq) : Type 0 where
  pub owned : IsOwned vq' ((next_used vq).id ∷ free)
  pub seen : vq'.last_used_idx ≡ (vq.last_used_idx + 1) % 2 ^ 16
  pub address : (i : ℕ) → (vq'.desc i).addr ≡ (vq.desc i).addr
  pub used : vq'.used ≡ vq.used
  pub avail : vq'.avail ≡ vq.avail
  pub same_num : vq'.num ≡ vq.num

take_back-Returns :
    (vq : Virtq) (free : List ℕ)
    → IsOwned vq free
    → (next_used vq).id < vq.num
    → has free (next_used vq).id ≡ false
    → Returns vq free (take_back (next_used vq).id vq)
take_back-Returns vq free o lt busy =
    let id = (next_used vq).id in
    let head : (((take_back id vq).desc id).next) ≡ vq.free_head = ground arith in
    record {
      owned = record {
        chain = (
          omega (arith, lt, o.small),
          Chain-ext vq.desc (take_back id vq).desc free ((take_back id vq).desc id).next
              (λ j m. ground (arith, m, busy))
              (subst (λ h. Chain vq.desc h free) (sym head) o.chain),
        );
        distinct = (busy, o.distinct);
        below = λ j m. ground (arith, m, lt, o.below j);
        small = o.small;
      };
      seen = refl;
      address = λ i. ground arith;
      used = refl;
      avail = refl;
      same_num = refl;
    }

-- Popping the next used element gives its descriptor back to the free ones.
pub virtq_pop_used_lem :
    (vq : Virtq) (free : List ℕ)
    → IsOwned vq free
    → virtq_has_used vq ≡ true
    → (next_used vq).id < vq.num
    → has free (next_used vq).id ≡ false
    → ((virtq_pop_used vq).0 ≡ some ((next_used vq).id, (next_used vq).len))
      × Returns vq free (virtq_pop_used vq).1
unfolding virtq_pop_used
virtq_pop_used_lem vq free o some_used lt busy =
    rw some_used (refl, take_back-Returns vq free o lt busy)
