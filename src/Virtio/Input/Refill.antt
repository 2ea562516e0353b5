-- ===== src/Virtio/Input/Refill.antt =====
-- A new queue that has been filled with buffers is ready to be drained.
use dragoon_kernel.Prelude.{
  ℕ, suc, ◌+◌, ◌-◌, ◌*◌, ◌≡◌, ◌≤◌, [], has, arith, ap, sym, subst, ◌∙◌, ℕ_discrete,
}
use dragoon_kernel.Prelude.Loops.{for_range_inv}
use dragoon_kernel.Virtio.{Virtq, virtq_size, virtq_push_buf}
use dragoon_kernel.Virtio.Queue.{IsOwned, push_head_lem, push_none}
use dragoon_kernel.Virtio.Setup.Layout.{IsFresh, up_from, up_from-has}
use dragoon_kernel.Virtio.Input.{event_size, event_buf_count, refill}
use dragoon_kernel.Virtio.Input.Drain.{IsLoaned}

-- Before the `k`th push: the descriptors from `k` on are free.
record Filled (bufs n k : ℕ) (vq : Virtq) : Type 0 where
  num : vq.num ≡ n
  loaned : IsLoaned bufs (up_from k (n - k)) vq

Filled-push :
    (bufs n k : ℕ) (vq : Virtq)
    → Filled bufs n k vq
    → Filled bufs n (k + 1) (virtq_push_buf (bufs + k * event_size) event_size 2 vq)
Filled-push bufs n k vq f = elim (ℕ_discrete (n - k) 0) [
  | yes full ↦
      let o = subst (λ m. IsLoaned bufs (up_from k m) vq) full f.loaned in
      rw (push_none (bufs + k * event_size) event_size 2 vq o.owned.chain) (record {
        num = f.num;
        loaned =
            let z : n - (k + 1) ≡ 0 = omega arith in
            subst (λ m. IsLoaned bufs (up_from (k + 1) m) vq) (sym z)
              (record {
                owned = record {
                  chain = o.owned.chain;
                  distinct = o.owned.distinct;
                  below = o.owned.below;
                  small = o.owned.small;
                };
                paired = o.paired;
                last_bound = o.last_bound;
                idx_bound = o.idx_bound;
              });
      })
  | no left ↦
      let s : n - k ≡ suc (n - (k + 1)) = omega (arith, left) in
      let o = subst (λ m. IsLoaned bufs (up_from k m) vq) s f.loaned in
      let p =
        push_head_lem (bufs + k * event_size) event_size 2 k (up_from (k + 1) (n - (k + 1))) vq
          o.owned in
      let vq' = virtq_push_buf (bufs + k * event_size) event_size 2 vq in
      record {
        num = p.same_num ∙ f.num;
        loaned = record {
          owned = p.owned;
          paired = λ i below off. elim (ℕ_discrete i k) [
            | yes here ↦
                ap (λ j. (vq'.desc j).addr) here
                ∙ p.address
                ∙ ap (λ j. bufs + j * event_size) (sym here)
            | no other ↦
                ap (λ d. d.addr) (p.others i other)
                ∙ o.paired i (omega (arith, below, p.same_num)) (ground (arith, off, other))
          ];
          last_bound = omega (arith, p.seen, o.last_bound);
          idx_bound = omega (arith, ap (λ u. u.idx) p.used, o.idx_bound);
        };
      }
]

fresh-Filled : (bufs n addr pages : ℕ) (vq : Virtq) → IsFresh vq n addr pages → Filled bufs n 0 vq
fresh-Filled bufs n addr pages vq h = record {
  num = h.size;
  loaned = record {
    owned = let z : n ≡ n - 0 = omega arith in subst (λ m. IsOwned vq (up_from 0 m)) z h.all_free;
    paired = λ i below off. absurd (
        let z : n - 0 ≡ n = omega arith in
        ground (
          arith,
          ap (λ m. has (up_from 0 m) i) (sym z),
          off,
          up_from-has 0 n i (omega arith) (omega (arith, below, h.size)),
        ));
    last_bound = omega (arith, h.unseen);
    idx_bound = omega (arith, h.unused);
  };
}

-- After the event buffers are pushed on a new queue of at most 16 descriptors, every descriptor is on
-- loan to the device, and each holds the address of the buffer of its own number.
pub refill_lem :
    (bufs n addr pages : ℕ) (vq : Virtq)
    → n ≤ virtq_size
    → IsFresh vq n addr pages
    → IsLoaned bufs [] (refill bufs vq)
unfolding refill
refill_lem bufs n addr pages vq hi h =
    let done : Filled bufs n 16 (refill bufs vq) =
      for_range_inv (Filled bufs n)
        (λ i vq'. virtq_push_buf (bufs + i * event_size) event_size 2 vq') event_buf_count 0
        event_buf_count vq (omega arith) (λ i vq' lo lt f. Filled-push bufs n i vq' f)
        (fresh-Filled bufs n addr pages vq h) in
    let z : n - 16 ≡ 0 = omega arith in
    subst (λ m. IsLoaned bufs (up_from 16 m) (refill bufs vq)) z done.loaned
