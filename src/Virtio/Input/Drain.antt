-- ===== src/Virtio/Input/Drain.antt =====
-- Draining a device's events: each is handled once, in order, and its buffer goes back to the device.
use dragoon_kernel.Prelude.{
  ℕ, suc, ◌+◌, ◌*◌, ◌%◌, ◌^◌, ◌≡◌, ◌<◌, true, false, List, has, arith, ap, sym, ◌∙◌, ℕ_discrete,
  subst, if◌then◌else◌, zero, leb, refl,
}
use dragoon_kernel.Virtio.{
  Virtq, VirtqUsedElem, virtq_push_buf, virtq_pop_used, virtq_has_used, next_used,
}
use dragoon_kernel.Virtio.Queue.{IsOwned, push_head_lem, virtq_pop_used_lem}
use dragoon_kernel.Virtio.Input.{VirtioInputEvent, event_size, pending, drain, drain_events}

-- The `k`th new element of the used ring.
abbrev pub seen : Virtq → ℕ → VirtqUsedElem
seen vq k = vq.used.ring ((vq.last_used_idx + k) % 2 ^ 16 % vq.num)

-- A queue with the buffers from `bufs` on: the descriptors on loan hold each its own buffer.
pub record IsLoaned (bufs : ℕ) (free : List ℕ) (vq : Virtq) : Type 0 where
  pub owned : IsOwned vq free
  pub paired : (i : ℕ) → i < vq.num → has free i ≡ false → (vq.desc i).addr ≡ bufs + i * event_size
  pub last_bound : vq.last_used_idx < 2 ^ 16
  pub idx_bound : vq.used.idx < 2 ^ 16

-- What the device may put on the used ring: descriptors that it has on loan.
abbrev pub Honest : List ℕ → Virtq → Type 0
Honest free vq =
    (k : ℕ) → k < pending vq → ((seen vq k).id < vq.num) × (has free (seen vq k).id ≡ false)

-- A round of the loop.
abbrev pub round : ℕ → Virtq → Virtq
round bufs vq =
    virtq_push_buf (bufs + (next_used vq).id * event_size) event_size 2 (virtq_pop_used vq).1

pub record Advances (bufs : ℕ) (free : List ℕ) (vq vq' : Virtq) : Type 0 where
  pub loaned : IsLoaned bufs free vq'
  pub num : vq'.num ≡ vq.num
  pub used : vq'.used ≡ vq.used
  pub last : vq'.last_used_idx ≡ (vq.last_used_idx + 1) % 2 ^ 16

round-Advances :
    (bufs : ℕ) (free : List ℕ) (vq : Virtq)
    → IsLoaned bufs free vq
    → virtq_has_used vq ≡ true
    → (next_used vq).id < vq.num
    → has free (next_used vq).id ≡ false
    → Advances bufs free vq (round bufs vq)
round-Advances bufs free vq l more lt busy =
    let id = (next_used vq).id in
    let (_, r) = virtq_pop_used_lem vq free l.owned more lt busy in
    let p =
      push_head_lem (bufs + id * event_size) event_size 2 id free (virtq_pop_used vq).1 r.owned in
    let num : (round bufs vq).num ≡ vq.num = p.same_num ∙ r.same_num in
    record {
      loaned = record {
        owned = p.owned;
        paired = λ i below off. elim (ℕ_discrete i id) [
          | yes here ↦
              ap (λ j. ((round bufs vq).desc j).addr) here
              ∙ p.address
              ∙ ap (λ j. bufs + j * event_size) (sym here)
          | no other ↦
              ap (λ d. d.addr) (p.others i other)
              ∙ r.address i
              ∙ l.paired i (omega (arith, below, num)) off
        ];
        last_bound = omega (arith, p.seen, r.seen);
        idx_bound = omega (arith, ap (λ u. u.idx) p.used, ap (λ u. u.idx) r.used, l.idx_bound);
      };
      num = num;
      used = p.used ∙ r.used;
      last = p.seen ∙ r.seen;
    }

seen-shift :
    (bufs : ℕ) (free : List ℕ) (vq vq' : Virtq) (k : ℕ)
    → Advances bufs free vq vq'
    → seen vq' k ≡ seen vq (k + 1)
seen-shift bufs free vq vq' k a =
    let i : (vq'.last_used_idx + k) % 2 ^ 16 ≡ (vq.last_used_idx + (k + 1)) % 2 ^ 16 =
      omega (arith, a.last) in
    ap (λ u. u.ring ((vq'.last_used_idx + k) % 2 ^ 16 % vq'.num)) a.used
    ∙ ap (λ j. vq.used.ring (j % vq'.num)) i
    ∙ ap (λ n. vq.used.ring ((vq.last_used_idx + (k + 1)) % 2 ^ 16 % n)) a.num

pending-shift :
    (bufs : ℕ) (free : List ℕ) (vq vq' : Virtq) (n : ℕ)
    → IsLoaned bufs free vq
    → Advances bufs free vq vq'
    → pending vq ≡ suc n
    → pending vq' ≡ n
pending-shift bufs free vq vq' n l a e =
    omega (arith, l.last_bound, l.idx_bound, a.last, ap (λ u. u.idx) a.used, e)

Honest-shift :
    (bufs : ℕ) (free : List ℕ) (vq vq' : Virtq) (n : ℕ)
    → IsLoaned bufs free vq
    → Advances bufs free vq vq'
    → pending vq ≡ suc n
    → Honest free vq
    → Honest free vq'
Honest-shift bufs free vq vq' n l a e h k lt =
    let (below, busy) = h (k + 1) (omega (arith, lt, e, pending-shift bufs free vq vq' n l a e)) in
    let at = sym (seen-shift bufs free vq vq' k a) in
    (
      subst (λ m. (seen vq' k).id < m) (sym a.num) (subst (λ u. u.id < vq.num) at below),
      subst (λ u. has free (u.id) ≡ false) at busy,
    )

module _ {ℓ} {S : Type ℓ} (handler : VirtioInputEvent → S → S) (bufs : ℕ)
    (events : ℕ → VirtioInputEvent) where
  -- An element's event is handled, if the device has written all of it.
  abbrev pub handle : VirtqUsedElem → S → S
  handle elem s = if leb event_size elem.len then handler (events elem.id) s else s

  -- `n` elements of the used ring, from the `k`th new one on.
  abbrev pub replay : Virtq → ℕ → ℕ → S → S
  replay vq zero k s = s
  replay vq (suc n) k s = replay vq n (k + 1) (handle (seen vq k) s)

  replay-shift :
      (free : List ℕ) (vq vq' : Virtq) (n k : ℕ) (s : S)
      → Advances bufs free vq vq'
      → replay vq' n k s ≡ replay vq n (k + 1) s
  replay-shift free vq vq' zero k s a = refl
  replay-shift free vq vq' (suc n) k s a =
      replay-shift free vq vq' n (k + 1) (handle (seen vq' k) s) a
      ∙ ap (λ elem. replay vq n (k + 1 + 1) (handle elem s)) (seen-shift bufs free vq vq' k a)

  -- What the loop leaves after `n` rounds.
  pub record Drains (free : List ℕ) (vq : Virtq) (s : S) (n : ℕ) (r : ℕ × Virtq × S) : Type ℓ where
    pub rounds : r.0 ≡ n
    pub loaned : IsLoaned bufs free r.1
    pub empty : virtq_has_used r.1 ≡ false
    pub handled : r.2 ≡ replay vq n 0 s

  drain-Drains :
      (free : List ℕ) (n : ℕ) (vq : Virtq) (s : S)
      → IsLoaned bufs free vq
      → Honest free vq
      → pending vq ≡ n
      → Drains free vq s n (drain handler bufs events n vq s)
  unfolding drain
  drain-Drains free zero vq s l h e = record {
    rounds = refl;
    loaned = l;
    empty = ground (arith, e, l.last_bound, l.idx_bound);
    handled = refl;
  }
  drain-Drains free (suc n) vq s l h e =
      let more : virtq_has_used vq ≡ true = ground (arith, e) in
      let now : seen vq 0 ≡ next_used vq =
        ap (λ i. vq.used.ring (i % vq.num)) (omega (arith, l.last_bound)) in
      let (lt, busy) = h 0 (omega (arith, e)) in
      let (popped, _) =
        virtq_pop_used_lem vq free l.owned more (subst (λ u. u.id < vq.num) now lt)
          (subst (λ u. has free (u.id) ≡ false) now busy) in
      let a =
        round-Advances bufs free vq l more (subst (λ u. u.id < vq.num) now lt)
          (subst (λ u. has free (u.id) ≡ false) now busy) in
      let s' = handle (next_used vq) s in
      let rest =
        drain-Drains free n (round bufs vq) s' a.loaned
          (Honest-shift bufs free vq (round bufs vq) n l a e h)
          (pending-shift bufs free vq (round bufs vq) n l a e) in
      rw (popped, drain)
        (record {
          rounds = ap (λ m. m + 1) rest.rounds ∙ omega arith;
          loaned = rest.loaned;
          empty = rest.empty;
          handled =
              rest.handled
              ∙ replay-shift free vq (round bufs vq) n 0 s' a
              ∙ ap (λ elem. replay vq n 1 (handle elem s)) (sym now);
        })

  -- On a queue whose descriptors on loan hold each the buffer of its own number, and whose new used
  -- elements name descriptors on loan, the loop of `drain_events` ends after as many rounds as there
  -- are new elements; each one's event, if it was written in full, has been given to the handler once,
  -- in the ring's order; nothing used is left, and the descriptors are on loan as before, each with
  -- its own buffer.
  pub drain_events_lem :
      (free : List ℕ) (vq : Virtq) (s : S)
      → IsLoaned bufs free vq
      → Honest free vq
      → Drains free vq s (pending vq) (drain_events handler bufs events vq s)
  unfolding drain_events
  drain_events_lem free vq s l h = drain-Drains free (pending vq) vq s l h refl
